-- ===== src/Auth/Store/Sessions.antt =====
-- services/auth/internal/store/session.go
use garance.Prelude.{
  ℕ, Str, [], Bool, ◌||◌, ◌&&◌, Option, none, some, ◌∷◌, ◌+◌, ◌==◌, nat_eq, str_eq, ltb, is_none,
  if◌then◌else◌,
}
use garance.Errors.{Sentinel, unique_violation, foreign_key_violation}
use garance.Sql.{select, exists, update}
use garance.Exec.{Result, ok, err, Action, statement, call, ◌>>=◌, catch, replace_error, draw}
use garance.Auth.Tables.{Db, Session}
use garance.Auth.Store.Users.{has_id, row_or_no_rows, session_of}

abbrev pub nil_if_empty : Str → Option Str
nil_if_empty s = if s == [] then none else some s

-- interval '30 days'
abbrev pub session_ttl : ℕ
session_ttl = 2592000

abbrev pub new_session : ℕ → ℕ → Str → Str → Str → ℕ → Session
new_session id user_id token agent ip t = record {
  id = id;
  user_id = user_id;
  refresh_token = token;
  user_agent = nil_if_empty agent;
  ip_address = nil_if_empty ip;
  created_at = t;
  expires_at = t + session_ttl;
  revoked_at = none;
}

abbrev pub has_session_id : ℕ → Session → Bool
has_session_id id s = s.id == id

abbrev pub has_refresh_token : Str → Session → Bool
has_refresh_token token s = s.refresh_token == token

unfoldable pub insert_session : ℕ → ℕ → Str → Str → Str → ℕ → Db → Result Session × Db
insert_session id user_id token agent ip t d =
    if exists (has_session_id id) d.sessions || exists (has_refresh_token token) d.sessions
    then (err unique_violation, d)
    else if exists (has_id user_id) d.users
    then (
      ok (new_session id user_id token agent ip t),
      record d { sessions = new_session id user_id token agent ip t ∷ d.sessions },
    )
    else (err foreign_key_violation, d)

unfoldable pub create_session : ℕ → Str → Str → Str → Action Db Session
unfolding insert_session
create_session user_id token agent ip =
    call (draw >>= λ id. statement (insert_session id user_id token agent ip))

-- WHERE refresh_token = $1 AND revoked_at IS NULL AND expires_at > now()
abbrev pub is_live : Str → ℕ → Session → Bool
is_live token t s = has_refresh_token token s && (is_none s.revoked_at && ltb t s.expires_at)

abbrev pub select_live_session : Str → ℕ → Db → Result Session × Db
select_live_session token t d = (row_or_no_rows (select (is_live token t) d.sessions), d)

unfoldable pub get_session_by_refresh_token : Str → Action Db Session
get_session_by_refresh_token token =
    catch (call (statement (select_live_session token)))
      (replace_error Sentinel.no_rows Sentinel.session_not_found)

abbrev pub revoked_at_time : ℕ → Session → Session
revoked_at_time t s = record s { revoked_at = some t }

abbrev pub set_revoked : ℕ → ℕ → Db → Result (Unit {0}) × Db
set_revoked id t d =
    (ok tt, record d { sessions = update (has_session_id id) (revoked_at_time t) d.sessions })

unfoldable pub revoke_session : ℕ → Action Db (Unit {0})
revoke_session id = call (statement (set_revoked id))

abbrev pub is_open_session_of : ℕ → Session → Bool
is_open_session_of user_id s = session_of user_id s && is_none s.revoked_at

abbrev pub set_all_revoked : ℕ → ℕ → Db → Result (Unit {0}) × Db
set_all_revoked user_id t d = (
  ok tt,
  record d { sessions = update (is_open_session_of user_id) (revoked_at_time t) d.sessions },
)

unfoldable pub revoke_all_user_sessions : ℕ → Action Db (Unit {0})
revoke_all_user_sessions user_id = call (statement (set_all_revoked user_id))
