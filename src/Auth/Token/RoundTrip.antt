-- ===== src/Auth/Token/RoundTrip.antt =====
-- Access tokens (services/auth/internal/token/jwt.go) from their issue to their validation.
use garance.Prelude.{ℕ, ◌+◌, ◌<◌, Str, Option, none, some, ◌≡◌, refl}
use garance.Exec.{World, Result, ok}
use garance.Auth.Packages.{Packages, TokenLaws}
use garance.Auth.Token.{
  Manager, claims_for, key_for, or_failure, generate_access_token, validate_access_token,
}

pub from_some : {A : Type 0} (o : Option A) {a : A} → or_failure o ≡ Result.ok a → o ≡ some a
from_some none e = cc
from_some (some b) e = cc

module _ {D : Type 0} (pkg : Packages) (tokens : Manager) (laws : TokenLaws pkg) where
  pub validates :
      (user_id : ℕ) (project role token : Str) (t : ℕ) (v : World D)
      → pkg.sign (claims_for pkg tokens user_id project role t) tokens.secret ≡ some token
      → v.now < t + tokens.access_expiry
      → (validate_access_token pkg tokens token v).0
        ≡ ok (claims_for pkg tokens user_id project role t)
  unfolding validate_access_token
  validates user_id project role token t v signed early =
      rw
        (laws.parse-sign (claims_for pkg tokens user_id project role t) tokens.secret token
          (key_for tokens.secret) v.now signed refl early)
        refl

  -- If a signed token parses to its claims, then a token that GenerateAccessToken has issued is
  -- accepted by ValidateAccessToken of the same manager at every time before the end of its
  -- lifetime, counted from the time of issue, with the claims that were asked for.
  pub validate_access_token-generate_access_token :
      (user_id : ℕ) (project role token : Str) (w v : World D)
      → (generate_access_token pkg tokens user_id project role w).0 ≡ ok token
      → v.now < w.now + tokens.access_expiry
      → (validate_access_token pkg tokens token v).0
        ≡ ok (claims_for pkg tokens user_id project role w.now)
  unfolding generate_access_token
  validate_access_token-generate_access_token user_id project role token w v e early =
      validates user_id project role token w.now v (from_some _ e) early
