-- ===== src/Auth/Store/States.antt =====
-- services/auth/internal/store/oauth_state.go
use garance.Prelude.{ℕ, Str, Bool, ◌&&◌, ◌∷◌, ◌+◌, ◌==◌, str_eq, ltb, if◌then◌else◌}
use garance.Errors.{Sentinel, unique_violation}
use garance.Sql.{select, exists, delete}
use garance.Exec.{Result, ok, err, Action, statement, call, ◌>>◌, catch, replace_error, ignore}
use garance.Auth.Tables.{Db, OAuthState}
use garance.Auth.Store.Users.{row_or_no_rows}

-- interval '10 minutes'
abbrev pub state_ttl : ℕ
state_ttl = 600

abbrev pub has_state : Str → OAuthState → Bool
has_state state s = s.state == state

abbrev pub new_state : Str → Str → Str → ℕ → OAuthState
new_state state provider redirect t = record {
  state = state;
  provider = provider;
  redirect_uri = redirect;
  created_at = t;
  expires_at = t + state_ttl;
}

unfoldable pub insert_state : Str → Str → Str → ℕ → Db → Result (Unit {0}) × Db
insert_state state provider redirect t d =
    if exists (has_state state) d.oauth_states
    then (err unique_violation, d)
    else (ok tt, record d { oauth_states = new_state state provider redirect t ∷ d.oauth_states })

unfoldable pub create_oauth_state : Str → Str → Str → Action Db (Unit {0})
unfolding insert_state
create_oauth_state state provider redirect = call (statement (insert_state state provider redirect))

abbrev pub is_expired : ℕ → OAuthState → Bool
is_expired t s = ltb s.expires_at t

abbrev pub remove_expired_states : ℕ → Db → Result (Unit {0}) × Db
remove_expired_states t d =
    (ok tt, record d { oauth_states = delete (is_expired t) d.oauth_states })

-- WHERE state = $1 AND expires_at > now()
abbrev pub is_pending : Str → ℕ → OAuthState → Bool
is_pending state t s = has_state state s && ltb t s.expires_at

-- DELETE ... RETURNING
abbrev pub take_state : Str → ℕ → Db → Result OAuthState × Db
take_state state t d = (
  row_or_no_rows (select (is_pending state t) d.oauth_states),
  record d { oauth_states = delete (is_pending state t) d.oauth_states },
)

unfoldable pub get_and_consume_oauth_state : Str → Action Db OAuthState
unfolding ignore
get_and_consume_oauth_state state =
    ignore (call (statement remove_expired_states))
    >> catch (call (statement (take_state state)))
        (replace_error Sentinel.no_rows Sentinel.oauth_state_not_found)
