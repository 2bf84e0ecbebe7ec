-- ===== src/Auth/Token.antt =====
-- services/auth/internal/token/jwt.go
pub mod RoundTrip
use garance.Prelude.{ℕ, ◌+◌, ◌*◌, Str, bytes, Bool, Option, none, some, if◌then◌else◌}
use garance.Errors.{Error}
use garance.Exec.{Result, ok, err, Action, pure, lift, ◌>>=◌, read_clock, random_bytes}
use garance.Encoding.Hex
use garance.Auth.Packages.{Packages, Claims}

pub record Manager : Type 0 where
  pub secret : Str
  pub access_expiry : ℕ
  pub refresh_expiry : ℕ

-- NewManager: 15 minutes and 30 days.
abbrev pub new_manager : Str → Manager
new_manager secret = record {
  secret = secret;
  access_expiry = 15 * 60;
  refresh_expiry = 30 * 24 * 3600;
}

pub record TokenPair : Type 0 where
  pub access_token : Str
  pub refresh_token : Str
  pub expires_in : ℕ
  pub token_type : Str

-- The key function: the secret, for an HMAC method only.
abbrev pub key_for : Str → Bool → Option Str
key_for secret is_hmac = if is_hmac then some secret else none

abbrev pub or_failure {ℓ} : {A : Type ℓ} → Option A → Result A
or_failure none = err (Error.failure "invalid token")
or_failure (some a) = ok a

module _ (pkg : Packages) (tokens : Manager) where
  open pkg use {sign, parse_token, uuid_string}

  abbrev pub claims_for : ℕ → Str → Str → ℕ → Claims
  claims_for user_id project_id role now = record {
    subject = uuid_string user_id;
    issued_at = now;
    expires_at = now + tokens.access_expiry;
    issuer = bytes "garance";
    user_id = uuid_string user_id;
    project_id = project_id;
    role = role;
  }

  module _ {D : Type 0} where
    unfoldable pub generate_access_token : ℕ → Str → Str → Action D Str
    unfolding ◌>>=◌
    generate_access_token user_id project_id role = read_clock >>= λ now.
        lift (or_failure (sign (claims_for user_id project_id role now) tokens.secret))

    unfoldable pub validate_access_token : Str → Action D Claims
    unfolding ◌>>=◌
    validate_access_token token =
        read_clock >>= λ now. lift (or_failure (parse_token token (key_for tokens.secret) now))

-- 32 random bytes in hexadecimal
unfoldable pub generate_refresh_token : {D : Type 0} → Action D Str
unfolding ◌>>=◌ random_bytes
generate_refresh_token = random_bytes 32 >>= λ b. pure (Hex.encode b)
