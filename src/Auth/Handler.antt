-- ===== src/Auth/Handler.antt =====
-- services/auth/internal/handler/handler.go: sign-up, sessions and users. A handler takes what the
-- JSON decoder makes of the body, none where it fails.
pub mod Middleware
pub mod Flow
pub mod Admin
pub mod Lists
pub mod Pages
use garance.Prelude.{ℕ, Str, bytes, [], Bool, ◌||◌, Option, none, some, ◌==◌, str_eq, if◌then◌else◌}
use garance.Errors.{Error, Sentinel, errors_is, message}
use garance.Exec.{Result, World}
use garance.Http.{Response, Problem, problem_of, Handler, write_error, serve}
use garance.Auth.Packages.{Packages}
use garance.Auth.Tables.{Db, User}
use garance.Auth.Token.{Manager}
use garance.Auth.Service
use garance.Auth.Service.{AuthResult}

-- handleAuthError
unfoldable pub handle_auth_error : Error → Problem
handle_auth_error e =
    if errors_is e Sentinel.invalid_credentials
    then problem_of (bytes "UNAUTHORIZED") (message e) 401
    else if errors_is e Sentinel.user_banned
    then problem_of (bytes "PERMISSION_DENIED") (message e) 403
    else if errors_is e Sentinel.email_already_taken
    then problem_of (bytes "CONFLICT") (message e) 409
    else if errors_is e Sentinel.password_required || errors_is e Sentinel.weak_password
    then problem_of (bytes "VALIDATION_ERROR") (message e) 400
    else problem_of (bytes "INTERNAL_ERROR") (bytes "internal server error") 500

abbrev pub invalid_body : {B : Type 0} → Handler Db B
invalid_body = write_error (bytes "VALIDATION_ERROR") (bytes "invalid request body") 400

module _ (pkg : Packages) (tokens : Manager) where
  -- signUpRequest: the address and the password
  unfoldable pub sign_up : Option (Str × Str) → Str → Str → Handler Db AuthResult
  sign_up none agent ip = invalid_body
  sign_up (some (email, password)) agent ip =
      if email == []
      then write_error (bytes "VALIDATION_ERROR") (bytes "email is required") 400
      else serve (Service.sign_up pkg tokens email password agent ip) handle_auth_error
          (Response.json 201)

  -- signInRequest: the address and the password
  unfoldable pub sign_in : Option (Str × Str) → Str → Str → Handler Db AuthResult
  sign_in none agent ip = invalid_body
  sign_in (some (email, password)) agent ip =
      serve (Service.sign_in pkg tokens email password agent ip) handle_auth_error
        (Response.json 200)

  -- refreshRequest
  unfoldable pub refresh_token : Option Str → Str → Str → Handler Db AuthResult
  refresh_token none agent ip = invalid_body
  refresh_token (some token) agent ip =
      serve (Service.refresh_token pkg tokens token agent ip) handle_auth_error (Response.json 200)

abbrev signed_out : {A : Type 0} → Result A → Response (Unit {0})
signed_out (Result.ok a) = Response.empty 204
signed_out (Result.err e) = Response.empty 204
signed_out Result.panic = Response.closed

-- signOutRequest; the error of SignOut is dropped.
unfoldable pub sign_out : Option Str → Handler Db (Unit {0})
sign_out none = invalid_body
sign_out (some token) = λ w. let (r, v) = Service.sign_out token w in (signed_out r, v)

abbrev unauthorized : {B : Type 0} → Str → Handler Db B
unauthorized message = write_error (bytes "UNAUTHORIZED") message 401

module _ (pkg : Packages) where
  open pkg use {uuid_parse}

  -- The user id of the request's context, as the middleware has set it.
  abbrev pub with_user_id : {B : Type 0} → Option Str → (ℕ → Handler Db B) → Handler Db B
  with_user_id none k = unauthorized (bytes "missing user context")
  with_user_id {B = B} (some text) k = go (uuid_parse text)
    where
      go : Option ℕ → Handler Db B
      go none = unauthorized (bytes "invalid user id")
      go (some id) = k id

  unfoldable pub get_user : Option Str → Handler Db User
  get_user context = with_user_id context λ id.
      serve (Service.get_user id) (λ e. problem_of (bytes "NOT_FOUND") (bytes "user not found") 404)
        (Response.json 200)

  unfoldable pub delete_user : Option Str → Handler Db (Unit {0})
  delete_user context = with_user_id context λ id.
      serve (Service.delete_user id)
        (λ e. problem_of (bytes "INTERNAL_ERROR") (bytes "failed to delete user") 500)
        (λ u. Response.empty 204)
