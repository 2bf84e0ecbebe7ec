-- ===== src/Auth/Service/Answer.antt =====
-- What SignIn, SignUp, RefreshToken and OAuthCallback hand out: createTokenPair of
-- services/auth/internal/service/auth.go.
use garance.Prelude.{
  ℕ, Str, [], Bool, true, ◌&&◌, ◌||◌, ◌+◌, Option, none, some, ◌≡◌, refl, ◌==◌, nat_eq, str_eq,
  ==_refl, is_none, ltb, arith, Bool-cases, inl, inr,
}
use garance.Errors.{Error}
use garance.Sql.{exists}
use garance.Exec.{Result, ok}
use garance.Exec.Yields.{
  Yields, Yields-bind, Yields-wrapped, Yields-pure, Yields-insert, Yields-random_bytes,
}
use garance.Auth.Packages.{Packages}
use garance.Auth.Tables.{Db, Session, User}
use garance.Auth.Token.{
  Manager, TokenPair, claims_for, generate_access_token, generate_refresh_token,
}
use garance.Auth.Token.RoundTrip.{from_some}
use garance.Auth.Store.Users.{has_id, session_of}
use garance.Auth.Store.Sessions.{
  is_live, insert_session, create_session, has_session_id, has_refresh_token,
}
use garance.Auth.Service.{make_pair, create_token_pair, respond}

-- A session of this user that this token finds.
abbrev pub is_session_for : ℕ → Str → ℕ → Session → Bool
is_session_for user_id token t s = session_of user_id s && is_live token t s

-- What a result is worth: a live session of its user under its refresh token, and an access token
-- that carries the claims of the user.
pub record IsGrant (pkg : Packages) (tokens : Manager) (user : User) (pair : TokenPair) (t : ℕ)
    (d : Db) : Type 0 where
  pub session : exists (is_session_for user.id pair.refresh_token t) d.sessions ≡ true
  pub signed :
      pkg.sign (claims_for pkg tokens user.id [] user.role t) tokens.secret ≡ some pair.access_token

fresh-live :
    (token : Str) (id user_id t : ℕ)
    → (user_id == user_id) && ((token == token) && (true && ltb t (t + 2592000))) ≡ true
fresh-live token id user_id t = rw (==_refl user_id, ==_refl token) (ground arith)

pub refused : {A : Type 0} {a : A} {x : Error} → Result.err x ≡ Result.ok a → ⊥
refused e = cc

pub absent : {A : Type 0} (o : Option A) → is_none o ≡ true → o ≡ none
absent none e = refl
absent (some a) e = cc

pub users-insert_session :
    (id user_id : ℕ) (token agent ip : Str) (t : ℕ) (d : Db)
    → (insert_session id user_id token agent ip t d).1.users ≡ d.users
unfolding insert_session
users-insert_session id user_id token agent ip t d =
    elim (Bool-cases
      (exists (has_session_id id) d.sessions || exists (has_refresh_token token) d.sessions)) [
        | inl taken ↦ rw taken refl
        | inr free ↦ elim (Bool-cases (exists (has_id user_id) d.users)) [
          | inl known ↦ rw (free, known) refl
          | inr unknown ↦ rw (free, unknown) refl
        ]
      ]

insert_session-live :
    (id user_id : ℕ) (token agent ip : Str) (t : ℕ) (d : Db) (s : Session)
    → (insert_session id user_id token agent ip t d).0 ≡ ok s
    → exists
        (is_session_for user_id token t)
        (insert_session id user_id token agent ip t d).1.sessions
      ≡ true
unfolding insert_session exists
insert_session-live id user_id token agent ip t d s e =
    elim (Bool-cases
      (exists (has_session_id id) d.sessions || exists (has_refresh_token token) d.sessions)) [
        | inl taken ↦ absurd (refused (rw (taken, insert_session) at e))
        | inr free ↦ elim (Bool-cases (exists (has_id user_id) d.users)) [
          | inl known ↦ rw (free, known, fresh-live token id user_id t) refl
          | inr unknown ↦ absurd (refused (rw (free, unknown, insert_session) at e))
        ]
      ]

module _ (pkg : Packages) (tokens : Manager) where
  abbrev Signed : User → Str → ℕ → Db → Type 0
  Signed user access t d =
      pkg.sign (claims_for pkg tokens user.id [] user.role t) tokens.secret ≡ some access

  generates_access :
      (user : User)
      → Yields (λ t d. Unit) (generate_access_token pkg tokens user.id [] user.role) (Signed user)
  unfolding generate_access_token
  generates_access user = record { at = λ w a p e. from_some _ e }

  generates_refresh :
      (user : User) (access : Str)
      → Yields
          (Signed user access)
          (generate_refresh_token {D = Db})
          (λ refresh. Signed user access)
  unfolding generate_refresh_token
  generates_refresh user access =
      Yields-bind _ _ (Yields-random_bytes 32) λ b. Yields-pure _ λ t d h. h

  creates_session :
      (user : User) (access refresh agent ip : Str)
      → Yields
          (Signed user access)
          (create_session user.id refresh agent ip)
          (λ s. IsGrant pkg tokens user (make_pair access refresh))
  unfolding create_session
  creates_session user access refresh agent ip = Yields-insert _ λ id t d s h e. record {
    session = insert_session-live id user.id refresh agent ip t d s e;
    signed = h;
  }

  pub responds :
      (user : User) (agent ip : Str)
      → Yields
          (λ t d. Unit)
          (respond pkg tokens user agent ip)
          (λ r t d. (r.user ≡ user) × IsGrant pkg tokens user r.token_pair t d)
  unfolding respond create_token_pair
  responds user agent ip =
      Yields-bind {R = IsGrant pkg tokens user} _ _
        (Yields-bind _ _ (Yields-wrapped _ _ (generates_access user)) λ access.
          Yields-bind _ _ (Yields-wrapped _ _ (generates_refresh user access)) λ refresh.
            Yields-bind _ _ (Yields-wrapped _ _ (creates_session user access refresh agent ip))
              λ s. Yields-pure _ λ t d h. h)
        λ pair. Yields-pure _ λ t d h. (refl, h)
