-- ===== src/Auth/Service.antt =====
-- services/auth/internal/service/auth.go
pub mod OAuth
pub mod Keeping
pub mod KeepingOAuth
pub mod Reach
pub mod Rotation
pub mod Renewal
pub mod Answer
pub mod Grants
pub mod Flow
pub mod SignUp
use garance.Prelude.{
  ℕ, Str, bytes, [], Bool, Option, none, some, ◌==◌, str_eq, ltb, length, is_none, if◌then◌else◌,
}
use garance.Errors.{Sentinel}
use garance.Exec.{
  Result, Action, pure, fail, crash, ◌>>=◌, ◌>>◌, catch, either, wrapped, replace_error,
}
use garance.Auth.Packages.{Packages}
use garance.Auth.Tables.{Db, User}
use garance.Auth.Token.{Manager, TokenPair, generate_access_token, generate_refresh_token}
use garance.Auth.Crypto.Password.{hash_password, verify_password}
use garance.Auth.Store.Users
use garance.Auth.Store.Users.{create_user, get_user_by_email, get_user_by_id}
use garance.Auth.Store.Sessions.{create_session, get_session_by_refresh_token, revoke_session}

pub record AuthResult : Type 0 where
  pub user : User
  pub token_pair : TokenPair

abbrev pub make_pair : Str → Str → TokenPair
make_pair access refresh = record {
  access_token = access;
  refresh_token = refresh;
  expires_in = 900;
  token_type = bytes "Bearer";
}

module _ (pkg : Packages) (tokens : Manager) where
  unfoldable pub create_token_pair : User → Str → Str → Action Db TokenPair
  create_token_pair user agent ip =
      wrapped "failed to generate access token"
        (generate_access_token pkg tokens user.id [] user.role)
      >>= λ access. wrapped "failed to generate refresh token" generate_refresh_token >>= λ refresh.
          wrapped "failed to create session" (create_session user.id refresh agent ip)
          >>= λ session. pure (make_pair access refresh)

  -- The end of SignUp, SignIn, RefreshToken and OAuthCallback.
  unfoldable pub respond : User → Str → Str → Action Db AuthResult
  respond user agent ip =
      create_token_pair user agent ip >>= λ pair. pure (record { user = user; token_pair = pair })

  unfoldable pub sign_up : Str → Str → Str → Str → Action Db AuthResult
  sign_up email password agent ip =
      if password == []
      then fail Sentinel.password_required
      else if ltb (length password) 8
      then fail Sentinel.weak_password
      else (wrapped "failed to hash password" (hash_password pkg password) >>= λ hash.
          create_user email (some hash) >>= λ user. respond user agent ip)

  -- `ok, err := crypto.VerifyPassword(...); if err != nil || !ok { ... }`
  abbrev pub accept : Result Bool → Action Db (Unit {0})
  accept (Result.ok b) = if b then pure tt else fail Sentinel.invalid_credentials
  accept (Result.err e) = fail Sentinel.invalid_credentials
  accept Result.panic = crash

  abbrev pub check_password : Str → Option Str → Action Db (Unit {0})
  check_password password none = fail Sentinel.invalid_credentials
  check_password password (some encoded) = accept (verify_password pkg password encoded)

  abbrev pub reject_banned : User → Action Db (Unit {0})
  reject_banned user = if is_none user.banned_at then pure tt else fail Sentinel.user_banned

  unfoldable pub sign_in : Str → Str → Str → Str → Action Db AuthResult
  sign_in email password agent ip =
      catch (get_user_by_email email)
        (replace_error Sentinel.user_not_found Sentinel.invalid_credentials)
      >>= λ user.
          reject_banned user
          >> (check_password password user.encrypted_password >> respond user agent ip)

  unfoldable pub refresh_token : Str → Str → Str → Action Db AuthResult
  refresh_token token agent ip =
      catch (get_session_by_refresh_token token)
        (replace_error Sentinel.session_not_found Sentinel.invalid_credentials)
      >>= λ session.
          revoke_session session.id
          >> (get_user_by_id session.user_id >>= λ user.
              reject_banned user >> respond user agent ip)

-- An error of the lookup is not reported.
unfoldable pub sign_out : Str → Action Db (Unit {0})
sign_out token =
    either (get_session_by_refresh_token token) (λ e. pure tt)
      (λ session. revoke_session session.id)

unfoldable pub get_user : ℕ → Action Db User
get_user id = get_user_by_id id

unfoldable pub delete_user : ℕ → Action Db (Unit {0})
delete_user id = Users.delete_user id
