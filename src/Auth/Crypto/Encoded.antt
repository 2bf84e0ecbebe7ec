-- ===== src/Auth/Crypto/Encoded.antt =====
-- The text of a password hash, as HashPasswordWithParams prints it and VerifyPassword reads it
-- (services/auth/internal/crypto/password.go).
use garance.Prelude.{
  ℕ, ◌*◌, ◌<◌, ◌^◌, ◌≡◌, ◌≢◌, refl, Str, bytes, [], ◌∷◌, ◌++◌, List, Option, none, some, All,
  All-append, arith,
}
use garance.Encoding.Base64.{encode_raw, decode_raw, ◌>>=◌}
use garance.Encoding.Base64.RoundTrip.{decode_raw-encode_raw, encode_raw-All, symbol-ne-dollar}
use garance.Encoding.Decimal.{
  format, scan_uint, scan_int, scan_literal, scan_uint-format, scan_int-format_last,
  scan_uint-format_last, scan_literal-append, format-All,
}
use garance.Encoding.Split.{split, split-append, split-last}

pub record Argon2Params : Type 0 where
  pub memory : ℕ
  pub iterations : ℕ
  pub parallelism : ℕ
  pub salt_length : ℕ
  pub key_length : ℕ

abbrev pub default_params : Argon2Params
default_params = record {
  memory = 64 * 1024;
  iterations = 3;
  parallelism = 2;
  salt_length = 16;
  key_length = 32;
}

-- argon2.Version
abbrev pub argon2_version : ℕ
argon2_version = 19

-- "v=%d" and "m=%d,t=%d,p=%d"
abbrev version_part : ℕ → Str
version_part v = bytes "v=" ++ format v

abbrev params_part : ℕ → ℕ → ℕ → Str
params_part m t p =
    bytes "m=" ++ (format m ++ (bytes ",t=" ++ (format t ++ (bytes ",p=" ++ format p))))

-- fmt.Sprintf("$argon2id$v=%d$m=%d,t=%d,p=%d$%s$%s", ...)
unfoldable pub encode_hash : Argon2Params → Str → Str → Str
encode_hash p salt hash =
    b'$'
    ∷ (bytes "argon2id"
        ++ (b'$'
            ∷ (version_part argon2_version
                ++ (b'$'
                    ∷ (params_part p.memory p.iterations p.parallelism
                        ++ (b'$' ∷ (encode_raw salt ++ (b'$' ∷ encode_raw hash))))))))

-- What VerifyPassword has read when it calls argon2.
pub record Parsed : Type 0 where
  pub memory : ℕ
  pub iterations : ℕ
  pub parallelism : ℕ
  pub salt : Str
  pub hash : Str

-- Sscanf(s, "v=%d", &version); the version is checked no further.
scan_version : Str → Option ℕ
scan_version s = do rest ← scan_literal (bytes "v=") s; (v, _) ← scan_int rest; some v

-- Sscanf(s, "m=%d,t=%d,p=%d", ...) into two uint32 and a uint8
scan_params : Str → Option (ℕ × ℕ × ℕ)
scan_params s = do
  s1 ← scan_literal (bytes "m=") s
  (m, s2) ← scan_uint 32 s1
  s3 ← scan_literal (bytes ",t=") s2
  (t, s4) ← scan_uint 32 s3
  s5 ← scan_literal (bytes ",p=") s4
  (p, _) ← scan_uint 8 s5
  some (m, t, p)

-- The parts between the dollar signs; the first two are not looked at.
parse_parts : List Str → Option Parsed
unfolding scan_version scan_params
parse_parts (_ ∷ _ ∷ version ∷ params ∷ salt ∷ hash ∷ []) = do
  _ ← scan_version version
  (m, t, p) ← scan_params params
  salt' ← decode_raw salt
  hash' ← decode_raw hash
  some (record { memory = m; iterations = t; parallelism = p; salt = salt'; hash = hash' })
parse_parts _ = none

unfoldable pub parse_hash : Str → Option Parsed
unfolding parse_parts
parse_hash encoded = parse_parts (split b'$' encoded)

scan_version-version_part : (v : ℕ) → v < 2 ^ 63 → scan_version (version_part v) ≡ some v
unfolding scan_version
scan_version-version_part v h =
    rw (scan_literal-append (bytes "v=") (format v), scan_int-format_last v h)

scan_params-params_part :
    (m t p : ℕ)
    → m < 2 ^ 32
    → t < 2 ^ 32
    → p < 2 ^ 8
    → scan_params (params_part m t p) ≡ some (m, t, p)
unfolding scan_params
scan_params-params_part m t p hm ht hp =
    let s2 = bytes ",p=" ++ format p in
    let s1 = bytes ",t=" ++ (format t ++ s2) in
    rw (
      scan_literal-append (bytes "m=") (format m ++ s1),
      scan_uint-format 32 m s1 hm refl,
      scan_literal-append (bytes ",t=") (format t ++ s2),
      scan_uint-format 32 t s2 ht refl,
      scan_literal-append (bytes ",p=") (format p),
      scan_uint-format_last 8 p hp,
    )

abbrev IsPart : Str → Type 0
IsPart = All (λ c. c ≢ b'$')

format-IsPart : (n : ℕ) → IsPart (format n)
format-IsPart = format-All (λ c. c ≢ b'$') (λ v h. omega arith)

params_part-IsPart : (m t p : ℕ) → IsPart (params_part m t p)
params_part-IsPart m t p = All-append _ (bytes "m=") _ (omega arith) (
    All-append _ (format m) _ (format-IsPart m) (
      All-append _ (bytes ",t=") _ (omega arith) (
        All-append _ (format t) _ (format-IsPart t)
          (All-append _ (bytes ",p=") (format p) (omega arith) (format-IsPart p)))))

encode_raw-IsPart : (s : Str) → All (λ b. b < 256) s → IsPart (encode_raw s)
encode_raw-IsPart = encode_raw-All (λ c. c ≢ b'$') symbol-ne-dollar

-- The six parts of an encoded hash, which the printed parameters do not disturb.
split-encode_hash :
    (p : Argon2Params) (salt hash : Str)
    → All (λ b. b < 256) salt
    → All (λ b. b < 256) hash
    → split b'$' (encode_hash p salt hash)
      ≡ []
        ∷ bytes "argon2id"
        ∷ version_part argon2_version
        ∷ params_part p.memory p.iterations p.parallelism
        ∷ encode_raw salt
        ∷ encode_raw hash
        ∷ []
unfolding encode_hash
split-encode_hash p salt hash hs hh =
    let e = encode_raw hash in
    let d = encode_raw salt ++ (b'$' ∷ e) in
    let m = params_part p.memory p.iterations p.parallelism in
    let c = m ++ (b'$' ∷ d) in
    let v = version_part argon2_version in
    rw (
      split-append b'$' [] (bytes "argon2id" ++ (b'$' ∷ (v ++ (b'$' ∷ c)))) tt,
      split-append b'$' (bytes "argon2id") (v ++ (b'$' ∷ c)) (omega arith),
      split-append b'$' v c (
          All-append _ (bytes "v=") (format argon2_version) (omega arith)
            (format-IsPart argon2_version)),
      split-append b'$' m d (params_part-IsPart p.memory p.iterations p.parallelism),
      split-append b'$' (encode_raw salt) e (encode_raw-IsPart salt hs),
      split-last b'$' e (encode_raw-IsPart hash hh),
    )

-- Reading an encoded hash gives back the parameters, the salt and the hash, where they fit the
-- integers that they are scanned into.
pub parse_hash-encode_hash :
    (p : Argon2Params) (salt hash : Str)
    → p.memory < 2 ^ 32
    → p.iterations < 2 ^ 32
    → p.parallelism < 2 ^ 8
    → All (λ b. b < 256) salt
    → All (λ b. b < 256) hash
    → parse_hash (encode_hash p salt hash)
      ≡ some (record {
        memory = p.memory;
        iterations = p.iterations;
        parallelism = p.parallelism;
        salt = salt;
        hash = hash;
      })
unfolding parse_hash
parse_hash-encode_hash p salt hash hm ht hp hs hh = rw (
  split-encode_hash p salt hash hs hh,
  scan_version-version_part argon2_version (omega arith),
  scan_params-params_part p.memory p.iterations p.parallelism hm ht hp,
  decode_raw-encode_raw salt hs,
  decode_raw-encode_raw hash hh,
)
