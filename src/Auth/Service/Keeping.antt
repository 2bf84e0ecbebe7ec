-- ===== src/Auth/Service/Keeping.antt =====
-- Whatever the store's methods keep, the service's methods keep.
use garance.Prelude.{◌==◌, str_eq, ltb, length, Str, [], ℕ, Option, Bool, none, some}
use garance.Exec.{Result}
use garance.Exec.Keeps.{
  Keeps, Keeps-bind, Keeps-if, Keeps-fail, Keeps-pure, Keeps-crash, Keeps-catch, Keeps-either,
  Keeps-wrapped, Keeps-replace_error, Keeps-random_bytes, keeps_rules,
}
use garance.Auth.Packages.{Packages}
use garance.Auth.Tables.{Db, User}
use garance.Auth.Token.{Manager, generate_access_token, generate_refresh_token}
use garance.Auth.Crypto.Password.{hash_password, pure_hash}
use garance.Auth.Crypto.Encoded.{Argon2Params}
use garance.Auth.Store.Users.{create_user, get_user_by_email, get_user_by_id}
use garance.Auth.Store.Sessions.{create_session, get_session_by_refresh_token, revoke_session}
use garance.Auth.Service.{
  create_token_pair, respond, sign_up, accept, check_password, reject_banned, sign_in,
  refresh_token, sign_out,
}

-- The methods of the store that SignUp, SignIn, RefreshToken and SignOut call, but the creation of a
-- user with a password, which a later module looks at more closely.
pub record StoreKeeps (P : Db → Type 0) : Type 0 where
  pub creates_user : (email : Str) → Keeps P (create_user email none)
  pub gets_user : (id : ℕ) → Keeps P (get_user_by_id id)
  pub finds_user : (email : Str) → Keeps P (get_user_by_email email)
  pub creates_session : (id : ℕ) (token agent ip : Str) → Keeps P (create_session id token agent ip)
  pub gets_session : (token : Str) → Keeps P (get_session_by_refresh_token token)
  pub revokes : (id : ℕ) → Keeps P (revoke_session id)

pure_hash-Keeps :
    {P : Db → Type 0} (pkg : Packages) (p : Argon2Params) (salt : Str) (hash : Option Str)
    → Keeps P (pure_hash {D = Db} pkg p salt hash)
pure_hash-Keeps pkg p salt none = Keeps-crash
pure_hash-Keeps pkg p salt (some hash) = Keeps-pure _

module _ (pkg : Packages) (tokens : Manager) {P : Db → Type 0} where
  generate_access_token-Keeps :
      (id : ℕ) (project role : Str) → Keeps P (generate_access_token pkg tokens id project role)
  unfolding generate_access_token
  generate_access_token-Keeps id project role = search keeps_rules

  generate_refresh_token-Keeps : Keeps P (generate_refresh_token {D = Db})
  unfolding generate_refresh_token
  generate_refresh_token-Keeps = search keeps_rules

  create_token_pair-Keeps :
      (user : User) (agent ip : Str)
      → ((token : Str) → Keeps P (create_session user.id token agent ip))
      → Keeps P (create_token_pair pkg tokens user agent ip)
  unfolding create_token_pair
  create_token_pair-Keeps user agent ip creates =
      Keeps-bind _ _ (Keeps-wrapped _ _ (generate_access_token-Keeps user.id [] user.role))
        λ access.
          Keeps-bind _ _ (Keeps-wrapped _ _ generate_refresh_token-Keeps)
            λ refresh. Keeps-bind _ _ (Keeps-wrapped _ _ (creates refresh)) λ session. Keeps-pure _

  -- What answers a request only adds a session.
  pub respond_with-Keeps :
      (user : User) (agent ip : Str)
      → ((token : Str) → Keeps P (create_session user.id token agent ip))
      → Keeps P (respond pkg tokens user agent ip)
  unfolding respond
  respond_with-Keeps user agent ip creates =
      Keeps-bind _ _ (create_token_pair-Keeps user agent ip creates) λ pair. Keeps-pure _

module _ (pkg : Packages) (tokens : Manager) {P : Db → Type 0} (k : StoreKeeps P) where
  pub respond-Keeps : (user : User) (agent ip : Str) → Keeps P (respond pkg tokens user agent ip)
  respond-Keeps user agent ip =
      respond_with-Keeps pkg tokens user agent ip λ token. k.creates_session user.id token agent ip

  hash_password-Keeps : (password : Str) → Keeps P (hash_password pkg password)
  unfolding hash_password
  hash_password-Keeps password =
      Keeps-bind _ _ (Keeps-random_bytes _) λ salt. pure_hash-Keeps pkg _ salt _

  pub sign_up-Keeps :
      ((email hash : Str) → Keeps P (create_user email (some hash)))
      → (email password agent ip : Str) → Keeps P (sign_up pkg tokens email password agent ip)
  unfolding sign_up
  sign_up-Keeps creates email password agent ip = Keeps-if (password == []) _ _ (Keeps-fail _) (
      Keeps-if (ltb (length password) 8) _ _ (Keeps-fail _) (
        Keeps-bind _ _ (Keeps-wrapped "failed to hash password" _ (hash_password-Keeps password))
          λ hash. Keeps-bind _ _ (creates email hash) λ user. respond-Keeps user agent ip))

  accept-Keeps : (r : Result Bool) → Keeps P (accept pkg tokens r)
  accept-Keeps (Result.ok b) = Keeps-if _ _ _ (Keeps-pure _) (Keeps-fail _)
  accept-Keeps (Result.err e) = Keeps-fail _
  accept-Keeps Result.panic = Keeps-crash

  check_password-Keeps :
      (password : Str) (hash : Option Str) → Keeps P (check_password pkg tokens password hash)
  check_password-Keeps password none = Keeps-fail _
  check_password-Keeps password (some encoded) = accept-Keeps _

  pub reject_banned-Keeps : (user : User) → Keeps P (reject_banned pkg tokens user)
  reject_banned-Keeps user = Keeps-if _ _ _ (Keeps-pure _) (Keeps-fail _)

  pub sign_in-Keeps :
      (email password agent ip : Str) → Keeps P (sign_in pkg tokens email password agent ip)
  unfolding sign_in
  sign_in-Keeps email password agent ip =
      Keeps-bind _ _ (Keeps-catch _ _ (k.finds_user email) (Keeps-replace_error _ _)) λ user.
        Keeps-bind _ _ (reject_banned-Keeps user) λ _.
          Keeps-bind _ _ (check_password-Keeps password user.encrypted_password)
            λ _. respond-Keeps user agent ip

  pub refresh_token-Keeps :
      (token agent ip : Str) → Keeps P (refresh_token pkg tokens token agent ip)
  unfolding refresh_token
  refresh_token-Keeps token agent ip =
      Keeps-bind _ _ (Keeps-catch _ _ (k.gets_session token) (Keeps-replace_error _ _)) λ session.
        Keeps-bind _ _ (k.revokes session.id) λ _.
          Keeps-bind _ _ (k.gets_user session.user_id)
            λ user. Keeps-bind _ _ (reject_banned-Keeps user) λ _. respond-Keeps user agent ip

module _ {P : Db → Type 0} (k : StoreKeeps P) where
  pub sign_out-Keeps : (token : Str) → Keeps P (sign_out token)
  unfolding sign_out
  sign_out-Keeps token =
      Keeps-either _ _ _ (k.gets_session token) (λ e. Keeps-pure _)
        (λ session. k.revokes session.id)
