-- ===== src/Auth/Packages.antt =====
-- What the auth service uses of code that is not in the repository (golang.org/x/crypto/argon2,
-- golang-jwt, google/uuid) and of the cryptography and the URL parser of Go's library: operations
-- that a client takes as a parameter, and the documented behaviour that a theorem may ask for.
use garance.Prelude.{ℕ, ◌≡◌, ◌<◌, Bool, true, Option, some, Str, All, length}

-- jwt.RegisteredClaims and the claims of services/auth/internal/token
pub record Claims : Type 0 where
  pub subject : Str
  pub issued_at : ℕ
  pub expires_at : ℕ
  pub issuer : Str
  pub user_id : Str
  pub project_id : Str
  pub role : Str

-- What the code reads of a url.URL.
pub record Url : Type 0 where
  pub scheme : Str
  pub host : Str
  pub hostname : Str

pub record Packages : Type 0 where
  -- argon2.IDKey(password, salt, time, memory, threads, keyLen); none where it panics
  pub argon2_id_key : Str → Str → ℕ → ℕ → ℕ → ℕ → Option Str
  -- AES-256-GCM: Seal and Open by key, nonce and text
  pub seal : Str → Str → Str → Str
  pub unseal : Str → Str → Str → Option Str
  -- an HS256 token for claims and a secret; none where it fails
  pub sign : Claims → Str → Option Str
  -- jwt.ParseWithClaims at a time, with the key function, which is told whether the method of the
  -- token is HMAC; none where it fails
  pub parse_token : Str → (Bool → Option Str) → ℕ → Option Claims
  pub uuid_string : ℕ → Str
  pub uuid_parse : Str → Option ℕ
  -- url.Parse
  pub parse_url : Str → Option Url
  -- strings.ToLower
  pub to_lower : Str → Str

module _ (pkg : Packages) where
  open pkg use {argon2_id_key, seal, unseal, sign, parse_token, uuid_string, uuid_parse}

  -- On bytes, Open undoes Seal, and Seal yields bytes.
  pub record SealLaws : Type 0 where
    pub unseal-seal :
        (key nonce text : Str)
        → All (λ b. b < 256) text
        → unseal key nonce (seal key nonce text) ≡ some text
    pub seal-bytes :
        (key nonce text : Str) → All (λ b. b < 256) text → All (λ b. b < 256) (seal key nonce text)

  -- argon2 yields bytes, as many as it is asked for.
  pub record HashLaws : Type 0 where
    pub hash-bytes :
        (password salt : Str) (time memory threads size : ℕ) (hash : Str)
        → argon2_id_key password salt time memory threads size ≡ some hash
        → All (λ b. b < 256) hash
    pub length-hash :
        (password salt : Str) (time memory threads size : ℕ) (hash : Str)
        → argon2_id_key password salt time memory threads size ≡ some hash
        → length hash ≡ size

  -- A signed token parses to its claims, until they expire, where the key function returns the
  -- secret for an HMAC method.
  pub record TokenLaws : Type 0 where
    pub parse-sign :
        (claims : Claims) (secret token : Str) (keys : Bool → Option Str) (now : ℕ)
        → sign claims secret ≡ some token
        → keys true ≡ some secret
        → now < claims.expires_at
        → parse_token token keys now ≡ some claims
