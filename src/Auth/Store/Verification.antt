-- ===== src/Auth/Store/Verification.antt =====
-- services/auth/internal/store/verification.go
use garance.Prelude.{
  ℕ, Str, Bool, true, ◌||◌, ◌&&◌, Option, none, some, ◌∷◌, ◌+◌, ◌==◌, nat_eq, str_eq, ltb, is_none,
  if◌then◌else◌,
}
use garance.Errors.{Sentinel, unique_violation, foreign_key_violation}
use garance.Sql.{select, exists, update}
use garance.Exec.{Result, ok, err, Action, statement, call, ◌>>=◌, catch, replace_error, draw}
use garance.Auth.Tables.{Db, User, VerificationToken}
use garance.Auth.Store.Users.{has_id, row_or_no_rows}
use mathlib.Core.List.{List}

abbrev pub has_token_id : ℕ → VerificationToken → Bool
has_token_id id v = v.id == id

abbrev pub has_token : Str → VerificationToken → Bool
has_token token v = v.token == token

abbrev pub new_token : ℕ → Option ℕ → Str → Str → Str → ℕ → ℕ → VerificationToken
new_token id user_id email token type ttl t = record {
  id = id;
  user_id = user_id;
  email = email;
  token = token;
  type = type;
  created_at = t;
  expires_at = t + ttl;
  used_at = none;
}

-- REFERENCES garance_auth.users(id), for a column that may be NULL
abbrev pub is_null_or_user : Option ℕ → List User → Bool
is_null_or_user none users = true
is_null_or_user (some id) users = exists (has_id id) users

unfoldable pub insert_token :
    ℕ → Option ℕ → Str → Str → Str → ℕ → ℕ → Db → Result VerificationToken × Db
insert_token id user_id email token type ttl t d =
    if exists (has_token_id id) d.verification_tokens
      || exists (has_token token) d.verification_tokens
    then (err unique_violation, d)
    else if is_null_or_user user_id d.users
    then (
      ok (new_token id user_id email token type ttl t),
      record d {
        verification_tokens = new_token id user_id email token type ttl t ∷ d.verification_tokens;
      },
    )
    else (err foreign_key_violation, d)

unfoldable pub create_verification_token :
    Option ℕ → Str → Str → Str → ℕ → Action Db VerificationToken
unfolding insert_token
create_verification_token user_id email token type ttl =
    call (draw >>= λ id. statement (insert_token id user_id email token type ttl))

-- WHERE token = $1 AND used_at IS NULL AND expires_at > now()
abbrev pub is_usable : Str → ℕ → VerificationToken → Bool
is_usable token t v = has_token token v && (is_none v.used_at && ltb t v.expires_at)

abbrev pub select_usable_token : Str → ℕ → Db → Result VerificationToken × Db
select_usable_token token t d =
    (row_or_no_rows (select (is_usable token t) d.verification_tokens), d)

unfoldable pub get_verification_token : Str → Action Db VerificationToken
get_verification_token token =
    catch (call (statement (select_usable_token token)))
      (replace_error Sentinel.no_rows Sentinel.token_not_found)

abbrev pub used_at_time : ℕ → VerificationToken → VerificationToken
used_at_time t v = record v { used_at = some t }

abbrev pub set_used : ℕ → ℕ → Db → Result (Unit {0}) × Db
set_used id t d = (
  ok tt,
  record d {
    verification_tokens = update (has_token_id id) (used_at_time t) d.verification_tokens;
  },
)

unfoldable pub mark_token_used : ℕ → Action Db (Unit {0})
mark_token_used id = call (statement (set_used id))
