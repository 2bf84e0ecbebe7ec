-- ===== src/Auth/Grpc.antt =====
-- services/auth/internal/grpcserver/server.go
use garance.Prelude.{ℕ, Str, bytes, Bool, ◌||◌, Option, none, some, if◌then◌else◌}
use garance.Errors.{Error, Sentinel, errors_is, message}
use garance.Exec.{Result}
use garance.Http.Status.{Code, Status, status, Reply, Method, refuse, answer}
use garance.Auth.Packages.{Packages}
use garance.Auth.Tables.{Db, User}
use garance.Auth.Token.{Manager, TokenPair}
use garance.Auth.Service
use garance.Auth.Service.{AuthResult}

pub record UserResponse : Type 0 where
  pub id : Str
  pub email : Str
  pub email_verified : Bool
  pub role : Str
  pub created_at : Str
  pub updated_at : Str

pub record AuthResponse : Type 0 where
  pub user : UserResponse
  pub token_pair : TokenPair

-- The switch of mapAuthError.
unfoldable pub map_auth_error : Error → Status
map_auth_error e =
    if errors_is e Sentinel.invalid_credentials
    then status Code.unauthenticated (message e)
    else if errors_is e Sentinel.user_banned
    then status Code.permission_denied (message e)
    else if errors_is e Sentinel.email_already_taken
    then status Code.already_exists (message e)
    else if errors_is e Sentinel.password_required || errors_is e Sentinel.weak_password
    then status Code.invalid_argument (message e)
    else status Code.internal (bytes "internal error")

abbrev pub map_get_user_error : Error → Status
map_get_user_error e =
    if errors_is e Sentinel.user_not_found
    then status Code.not_found (bytes "user not found")
    else status Code.internal (bytes "internal error")

abbrev pub map_delete_user_error : Error → Status
map_delete_user_error e = status Code.internal (bytes "failed to delete user")

-- time.Time.Format is `print_time`.
module _ (pkg : Packages) (print_time : ℕ → Str) where
  open pkg use {uuid_string, uuid_parse}

  abbrev pub to_user_response : User → UserResponse
  to_user_response user = record {
    id = uuid_string user.id;
    email = user.email;
    email_verified = user.email_verified;
    role = user.role;
    created_at = print_time user.created_at;
    updated_at = print_time user.updated_at;
  }

  abbrev pub to_auth_response : AuthResult → AuthResponse
  to_auth_response r = record { user = to_user_response r.user; token_pair = r.token_pair }

  module _ (tokens : Manager) where
    unfoldable pub sign_up : Str → Str → Str → Str → Method Db AuthResponse
    sign_up email password agent ip =
        answer (Service.sign_up pkg tokens email password agent ip) map_auth_error to_auth_response

    unfoldable pub sign_in : Str → Str → Str → Str → Method Db AuthResponse
    sign_in email password agent ip =
        answer (Service.sign_in pkg tokens email password agent ip) map_auth_error to_auth_response

    unfoldable pub refresh_token : Str → Str → Str → Method Db AuthResponse
    refresh_token token agent ip =
        answer (Service.refresh_token pkg tokens token agent ip) map_auth_error to_auth_response

  abbrev pub get_user_by : Option ℕ → Method Db UserResponse
  get_user_by none = refuse Code.invalid_argument (bytes "invalid user_id")
  get_user_by (some id) = answer (Service.get_user id) map_get_user_error to_user_response

  unfoldable pub get_user : Str → Method Db UserResponse
  get_user user_id = get_user_by (uuid_parse user_id)

  abbrev pub delete_user_by : Option ℕ → Method Db (Unit {0})
  delete_user_by none = refuse Code.invalid_argument (bytes "invalid user_id")
  delete_user_by (some id) = answer (Service.delete_user id) map_delete_user_error (λ u. u)

  unfoldable pub delete_user : Str → Method Db (Unit {0})
  delete_user user_id = delete_user_by (uuid_parse user_id)

abbrev drop_error : {A : Type 0} → Result A → Reply (Unit {0})
drop_error (Result.ok a) = Reply.reply tt
drop_error (Result.err e) = Reply.reply tt
drop_error Result.panic = Reply.down

-- The error is dropped.
unfoldable pub sign_out : Str → Method Db (Unit {0})
sign_out token w = let (r, v) = Service.sign_out token w in (drop_error r, v)
