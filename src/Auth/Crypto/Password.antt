-- ===== src/Auth/Crypto/Password.antt =====
-- HashPassword and VerifyPassword (services/auth/internal/crypto/password.go).
use garance.Prelude.{
  ◌<◌, ◌≡◌, refl, Str, Bool, Option, none, some, ◌==◌, str_eq, length, All, [], arith, true, ap,
  ◌∙◌, ==_refl,
}
use garance.Errors.{Error}
use garance.Exec.{
  Result, ok, err, panic, World, Action, pure, crash, ◌>>=◌, random_bytes, bytes_from,
}
use garance.Exec.Runs.{bytes_from-All}
use garance.Auth.Packages.{Packages, HashLaws}
use garance.Auth.Crypto.Encoded.{
  Argon2Params, default_params, encode_hash, Parsed, parse_hash, parse_hash-encode_hash,
}

module _ {D : Type 0} (pkg : Packages) where
  open pkg use {argon2_id_key}

  abbrev pub pure_hash : Argon2Params → Str → Option Str → Action D Str
  pure_hash p salt none = crash
  pure_hash p salt (some hash) = pure (encode_hash p salt hash)

  unfoldable pub hash_password_with_params : Str → Argon2Params → Action D Str
  hash_password_with_params password p = random_bytes p.salt_length >>= λ salt.
      pure_hash p salt
        (argon2_id_key password salt p.iterations p.memory p.parallelism p.key_length)

  unfoldable pub hash_password : Str → Action D Str
  unfolding hash_password_with_params
  hash_password password = hash_password_with_params password default_params

module _ (pkg : Packages) where
  open pkg use {argon2_id_key}

  -- subtle.ConstantTimeCompare(hash, expectedHash) == 1
  abbrev compare_hash : Option Str → Str → Result Bool
  compare_hash none expected = panic
  compare_hash (some hash) expected = ok (hash == expected)

  abbrev pub verify_parsed : Str → Option Parsed → Result Bool
  verify_parsed password none = err (Error.failure "invalid hash format")
  verify_parsed password (some h) =
      compare_hash
        (argon2_id_key password h.salt h.iterations h.memory h.parallelism (length h.hash)) h.hash

  unfoldable pub verify_password : Str → Str → Result Bool
  verify_password password encoded = verify_parsed password (parse_hash encoded)

  -- What verification says of a hash that was encoded with the default parameters: whether argon2
  -- gives the same bytes for this password.
  pub verify_password-encode_hash :
      (password salt hash : Str) {other : Str}
      → All (λ b. b < 256) salt
      → All (λ b. b < 256) hash
      → argon2_id_key password salt default_params.iterations default_params.memory
          default_params.parallelism
          (length hash)
        ≡ some other
      → verify_password password (encode_hash default_params salt hash) ≡ ok (other == hash)
  unfolding verify_password
  verify_password-encode_hash password salt hash hs hh e = rw (
    parse_hash-encode_hash default_params salt hash (omega arith) (omega arith) (omega arith) hs hh,
    e,
  )

module _ {D : Type 0} (pkg : Packages) (laws : HashLaws pkg) where
  open pkg use {argon2_id_key}

  -- If argon2 yields as many bytes as it is asked for, and neither the random source nor argon2 fails, HashPassword returns a text e by which
  -- VerifyPassword judges any password q: it accepts q exactly when argon2 hashes q, with the salt
  -- and the parameters that were used, to the same bytes; so it accepts the password itself.
  pub verify_password-hash_password :
      (password q : Str) (w : World D) {hash other : Str}
      → w.faults ≡ []
      → argon2_id_key password (bytes_from w.entropy w.drawn 16) 3 65536 2 32 ≡ some hash
      → argon2_id_key q (bytes_from w.entropy w.drawn 16) 3 65536 2 32 ≡ some other
      → (e : Str) × ((hash_password pkg password w).0 ≡ ok e)
        × (verify_password pkg q e ≡ ok (other == hash))
        × (verify_password pkg password e ≡ ok true)
  unfolding hash_password random_bytes ◌>>=◌
  verify_password-hash_password password q w {hash} {other} calm h k =
      let salt = bytes_from w.entropy w.drawn 16 in
      let size = laws.length-hash password salt 3 65536 2 32 hash h in
      let ok_salt = bytes_from-All w.entropy w.drawn 16 in
      let ok_hash = laws.hash-bytes password salt 3 65536 2 32 hash h in
      (
        encode_hash default_params salt hash,
        rw (calm, h) refl,
        verify_password-encode_hash pkg q salt hash ok_salt ok_hash (rw size k),
        verify_password-encode_hash pkg password salt hash ok_salt ok_hash (rw size h)
            ∙ ap ok (==_refl hash),
      )
