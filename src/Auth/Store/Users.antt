-- ===== src/Auth/Store/Users.antt =====
-- services/auth/internal/store/user.go. For each method, the statement that it sends and the
-- method around it.
use garance.Prelude.{
  sort_by, ℕ, Str, bytes, Bool, true, false, ◌||◌, Option, none, some, List, length, leb, ◌∷◌, ◌==◌,
  nat_eq, str_eq, if◌then◌else◌,
}
use garance.Errors.{Error, Sentinel, is_pg_code, unique_violation}
use garance.Encoding.Integer.{ℤ}
use garance.Sql.{select, exists, delete, update}
use garance.Sql.Order.{limit_offset}
use garance.Exec.{
  Result, ok, err, Action, raise, fail, statement, call, ◌>>=◌, catch, replace_error, draw,
  read_rows,
}
use garance.Auth.Tables.{Db, User, Session, Identity, VerificationToken}

abbrev pub has_id : ℕ → User → Bool
has_id id u = u.id == id

abbrev pub has_email : Str → User → Bool
has_email email u = u.email == email

-- The row that the column defaults of garance_auth.users complete.
abbrev pub new_user : ℕ → Str → Option Str → ℕ → User
new_user id email encrypted_password t = record {
  id = id;
  email = email;
  encrypted_password = encrypted_password;
  email_verified = false;
  role = bytes "user";
  metadata = bytes "{}";
  created_at = t;
  updated_at = t;
  banned_at = none;
}

unfoldable pub insert_user : ℕ → Str → Option Str → ℕ → Db → Result User × Db
insert_user id email pw t d =
    if exists (has_id id) d.users || exists (has_email email) d.users
    then (err unique_violation, d)
    else (ok (new_user id email pw t), record d { users = new_user id email pw t ∷ d.users })

-- isDuplicateKey
abbrev pub is_duplicate_key : Error → Bool
is_duplicate_key e = is_pg_code e "23505"

unfoldable pub create_user : Str → Option Str → Action Db User
unfolding insert_user
create_user email pw =
    catch (call (draw >>= λ id. statement (insert_user id email pw)))
      λ e. if is_duplicate_key e then fail Sentinel.email_already_taken else raise e

abbrev pub row_or_no_rows {ℓ} : {A : Type ℓ} → Option A → Result A
row_or_no_rows none = err (Error.sentinel Sentinel.no_rows)
row_or_no_rows (some a) = ok a

abbrev pub select_user_by_id : ℕ → ℕ → Db → Result User × Db
select_user_by_id id t d = (row_or_no_rows (select (has_id id) d.users), d)

unfoldable pub get_user_by_id : ℕ → Action Db User
get_user_by_id id =
    catch (call (statement (select_user_by_id id)))
      (replace_error Sentinel.no_rows Sentinel.user_not_found)

abbrev pub select_user_by_email : Str → ℕ → Db → Result User × Db
select_user_by_email email t d = (row_or_no_rows (select (has_email email) d.users), d)

unfoldable pub get_user_by_email : Str → Action Db User
get_user_by_email email =
    catch (call (statement (select_user_by_email email)))
      (replace_error Sentinel.no_rows Sentinel.user_not_found)

abbrev pub verified_at : ℕ → User → User
verified_at t u = record u { email_verified = true; updated_at = t }

abbrev pub set_email_verified : ℕ → ℕ → Db → Result (Unit {0}) × Db
set_email_verified id t d = (ok tt, record d { users = update (has_id id) (verified_at t) d.users })

unfoldable pub verify_user_email : ℕ → Action Db (Unit {0})
verify_user_email id = call (statement (set_email_verified id))

abbrev pub with_password : Str → ℕ → User → User
with_password pw t u = record u { encrypted_password = some pw; updated_at = t }

abbrev pub set_password : ℕ → Str → ℕ → Db → Result (Unit {0}) × Db
set_password id pw t d =
    (ok tt, record d { users = update (has_id id) (with_password pw t) d.users })

unfoldable pub update_user_password : ℕ → Str → Action Db (Unit {0})
update_user_password id pw = call (statement (set_password id pw))

abbrev pub session_of : ℕ → Session → Bool
session_of id s = s.user_id == id

abbrev pub identity_of : ℕ → Identity → Bool
identity_of id i = i.user_id == id

abbrev pub is_owner : ℕ → Option ℕ → Bool
is_owner id none = false
is_owner id (some u) = u == id

abbrev pub token_of : ℕ → VerificationToken → Bool
token_of id v = is_owner id v.user_id

-- ON DELETE CASCADE takes the user's sessions, identities and verification tokens along.
abbrev pub remove_user : ℕ → ℕ → Db → Result (Unit {0}) × Db
remove_user id t d = (
  ok tt,
  record d {
    users = delete (has_id id) d.users;
    sessions = delete (session_of id) d.sessions;
    identities = delete (identity_of id) d.identities;
    verification_tokens = delete (token_of id) d.verification_tokens;
  },
)

unfoldable pub delete_user : ℕ → Action Db (Unit {0})
delete_user id = call (statement (remove_user id))

-- ORDER BY created_at DESC
abbrev pub newest_first : User → User → Bool
newest_first u v = leb v.created_at u.created_at

abbrev pub select_users : ℤ → ℤ → ℕ → Db → Result (List User) × Db
select_users limit offset t d = (limit_offset limit offset (sort_by newest_first d.users), d)

unfoldable pub list_users : ℤ → ℤ → Action Db (List User)
unfolding sort_by call ◌>>=◌ read_rows
list_users limit offset = call (statement (select_users limit offset)) >>= read_rows

unfoldable pub count_users : Action Db ℕ
unfolding call
count_users = call (statement λ t d. (ok (length d.users), d))
