-- ===== src/Auth/Service/Grants.antt =====
-- Whom SignIn of services/auth/internal/service/auth.go lets in.
use garance.Prelude.{
  [], ◌+◌, ◌<◌, ℕ, Str, Bool, true, Option, none, some, List, ◌≡◌, refl, sym, ap, nat_eq, str_eq,
  is_none,
}
use mathlib.Core.Path.{subst}
use garance.Sql.{select}
use garance.Exec.{World, Result, ok}
use garance.Exec.Keeps.{Keeps, Keeps-insert}
use garance.Exec.Yields.{
  Yields, Yields-bind, Yields-catch, Yields-send, Yields-replace_error, Yields-and, Yields-weaken,
  Yields-if, Yields-pure, Yields-fail, Yields-crash,
}
use garance.Auth.Packages.{Packages}
use garance.Auth.Tables.{Db, User}
use garance.Auth.Token.{Manager}
use garance.Auth.Crypto.Password.{verify_password}
use garance.Auth.Store.Users.{has_email, get_user_by_email}
use garance.Auth.Store.Sessions.{create_session}
use garance.Auth.Service.{AuthResult, respond, accept, check_password, reject_banned, sign_in}
use garance.Auth.Service.Keeping.{respond_with-Keeps}
use garance.Auth.Service.Rotation.{row-ok}
use garance.Auth.Packages.{TokenLaws}
use garance.Auth.Token.{claims_for, validate_access_token}
use garance.Auth.Token.RoundTrip.{validates}
use garance.Auth.Service.Answer.{IsGrant, absent, users-insert_session, responds}

module _ (pkg : Packages) (tokens : Manager) where
  -- What SignIn has made sure of.
  pub record IsAdmitted (email password : Str) (r : AuthResult) (t : ℕ) (d : Db) : Type 0 where
    pub registered : select (has_email email) d.users ≡ some r.user
    pub not_banned : r.user.banned_at ≡ none
    pub knows_password :
        (hash : Str) × ((r.user.encrypted_password ≡ some hash)
          × (verify_password pkg password hash ≡ ok true))
    pub grant : IsGrant pkg tokens r.user r.token_pair t d

  abbrev Registered : Str → User → Db → Type 0
  Registered email user d = select (has_email email) d.users ≡ some user

  finds_user :
      (email : Str)
      → Yields (λ t d. Unit) (get_user_by_email email) (λ user t d. Registered email user d)
  unfolding get_user_by_email
  finds_user email =
      Yields-catch _ _ (Yields-send _ λ t d user u e. row-ok (select (has_email email) d.users) e)
        (λ e. Yields-replace_error _ _ e)

  passes_ban :
      (user : User) (P : Db → Type 0)
      → Yields (λ t d. P d) (reject_banned pkg tokens user) (λ _ t d. P d × (user.banned_at ≡ none))
  passes_ban user P =
      Yields-if (is_none user.banned_at) _ _
        (λ e. Yields-pure _ λ t d h. (h, absent user.banned_at e)) (λ e. Yields-fail _)

  accepts :
      (r : Result Bool) (P : Db → Type 0)
      → Yields (λ t d. P d) (accept pkg tokens r) (λ _ t d. P d × (r ≡ ok true))
  accepts (Result.ok b) P =
      Yields-if b _ _ (λ e. Yields-pure _ λ t d h. (h, ap Result.ok e)) (λ e. Yields-fail _)
  accepts (Result.err x) P = Yields-fail _
  accepts Result.panic P = Yields-crash

  abbrev pub Knows : Option Str → Str → Type 0
  Knows stored password =
      (hash : Str) × ((stored ≡ some hash) × (verify_password pkg password hash ≡ ok true))

  checks_password :
      (password : Str) (stored : Option Str) (P : Db → Type 0)
      → Yields
          (λ t d. P d)
          (check_password pkg tokens password stored)
          (λ _ t d. P d × Knows stored password)
  checks_password password none P = Yields-fail _
  checks_password password (some hash) P =
      Yields-weaken _ (λ t d h. h) (λ _ t d h. (h.0, (hash, (refl, h.1))))
        (accepts (verify_password pkg password hash) P)

  users-kept :
      (S : List User → Type 0) (id : ℕ) (token agent ip : Str)
      → Keeps (λ d. S d.users) (create_session id token agent ip)
  unfolding create_session
  users-kept S id token agent ip =
      Keeps-insert _ λ row t d h. subst S (sym (users-insert_session row id token agent ip t d)) h

  abbrev pub Checked : Str → Str → User → List User → Type 0
  Checked email password user users =
      ((select (has_email email) users ≡ some user) × (user.banned_at ≡ none))
      × Knows user.encrypted_password password

  pub admits :
      (email password : Str) (user : User) (agent ip : Str)
      → Yields
          (λ t d. Checked email password user d.users)
          (respond pkg tokens user agent ip)
          (IsAdmitted email password)
  admits email password user agent ip =
      Yields-weaken _ (λ t d h. (h, tt)) admitted
        (Yields-and _
          (respond_with-Keeps pkg tokens user agent ip
            λ token. users-kept (Checked email password user) user.id token agent ip)
          (responds pkg tokens user agent ip))
    where
      admitted :
          (r : AuthResult) (t : ℕ) (d : Db)
          → Checked email password user d.users
            × ((r.user ≡ user) × IsGrant pkg tokens user r.token_pair t d)
          → IsAdmitted email password r t d
      admitted r t d h =
          let g =
            subst (λ u. Checked email password u d.users × IsGrant pkg tokens u r.token_pair t d)
              (sym h.1.0) (h.0, h.1.1) in
          record { registered = g.0.0.0; not_banned = g.0.0.1; knows_password = g.0.1; grant = g.1 }

  signs_in :
      (email password agent ip : Str)
      → Yields
          (λ t d. Unit)
          (sign_in pkg tokens email password agent ip)
          (IsAdmitted email password)
  unfolding sign_in
  signs_in email password agent ip =
      Yields-bind _ _ (Yields-catch _ _ (finds_user email) (λ e. Yields-replace_error _ _ e))
        λ user. Yields-bind _ _ (passes_ban user (Registered email user)) λ _.
          Yields-bind _ _
            (checks_password password user.encrypted_password
              (λ d. Registered email user d × (user.banned_at ≡ none)))
            λ _. admits email password user agent ip

  -- If SignIn lets a caller in, then the address is that of a user who is not banned and whose
  -- stored hash verifies the password, and the answer holds, at the time and in the database that
  -- it leaves, a live session of that user under the refresh token and an access token signed over
  -- the user's id and role.
  pub sign_in-IsAdmitted :
      (email password agent ip : Str) (w : World Db) (r : AuthResult)
      → (sign_in pkg tokens email password agent ip w).0 ≡ ok r
      → IsAdmitted email password r
          (sign_in pkg tokens email password agent ip w).1.now
          (sign_in pkg tokens email password agent ip w).1.db
  sign_in-IsAdmitted email password agent ip w r e = (signs_in email password agent ip).at w r tt e

  -- If a signed token parses to its claims, then the access token of a successful SignIn is accepted
  -- by ValidateAccessToken until the end of its lifetime, counted from the time of the answer, with
  -- the id and the role of the user that was let in.
  pub validate_access_token-sign_in :
      (laws : TokenLaws pkg) (email password agent ip : Str) (w v : World Db) (r : AuthResult)
      → (sign_in pkg tokens email password agent ip w).0 ≡ ok r
      → v.now < (sign_in pkg tokens email password agent ip w).1.now + tokens.access_expiry
      → (validate_access_token pkg tokens r.token_pair.access_token v).0
        ≡ ok (
            claims_for pkg tokens r.user.id [] r.user.role
              (sign_in pkg tokens email password agent ip w).1.now)
  validate_access_token-sign_in laws email password agent ip w v r e early =
      validates pkg tokens laws r.user.id [] r.user.role r.token_pair.access_token
        (sign_in pkg tokens email password agent ip w).1.now v
        (sign_in-IsAdmitted email password agent ip w r e).grant.signed early
