-- ===== src/Auth/Crypto/Encrypt.antt =====
-- services/auth/internal/crypto/encrypt.go
use garance.Prelude.{
  All, ◌<◌, ℕ, ◌≡◌, refl, Str, Option, none, some, ◌==◌, nat_eq, ltb, length, take, drop, [], ◌++◌,
  if◌then◌else◌, arith, All-append, take-append, drop-append,
}
use garance.Errors.{Error}
use garance.Exec.{Result, ok, err, World, Action, pure, raise, ◌>>=◌, random_bytes, bytes_from}
use garance.Exec.Runs.{bytes_from-All, length-bytes_from}
use garance.Encoding.Base64.{encode_std, decode_std}
use garance.Encoding.Base64.RoundTrip.{decode_std-encode_std}
use garance.Auth.Packages.{Packages, SealLaws}

-- gcm.NonceSize()
abbrev pub nonce_size : ℕ
nonce_size = 12

abbrev bad_key : Error
bad_key = Error.failure "key must be 32 bytes"

module _ {D : Type 0} (pkg : Packages) where
  open pkg use {seal}

  -- Seal appends to the nonce.
  unfoldable pub encrypt : Str → Str → Action D Str
  encrypt text key =
      if length key == 32
      then (random_bytes nonce_size >>= λ nonce. pure (encode_std (nonce ++ seal key nonce text)))
      else raise bad_key

module _ (pkg : Packages) where
  open pkg use {unseal}

  abbrev opened : Option Str → Result Str
  opened none = err (Error.failure "failed to decrypt")
  opened (some text) = ok text

  abbrev decrypt_data : Str → Option Str → Result Str
  decrypt_data key none = err (Error.failure "failed to decode base64")
  decrypt_data key (some d) =
      if ltb (length d) nonce_size
      then err (Error.failure "ciphertext too short")
      else opened (unseal key (take nonce_size d) (drop nonce_size d))

  unfoldable pub decrypt : Str → Str → Result Str
  decrypt encoded key =
      if length key == 32 then decrypt_data key (decode_std encoded) else err bad_key

module _ {D : Type 0} (pkg : Packages) (laws : SealLaws pkg) where
  open pkg use {seal}

  -- If Open undoes Seal, then for a plaintext of bytes and a key of 32 bytes, and where the random
  -- source does not fail, Encrypt returns a text that Decrypt turns back into the plaintext under
  -- the same key.
  pub decrypt-encrypt :
      (text key : Str) (w : World D)
      → All (λ b. b < 256) text
      → length key ≡ 32
      → w.faults ≡ []
      → (c : Str) × ((encrypt pkg text key w).0 ≡ ok c) × (decrypt pkg c key ≡ ok text)
  unfolding encrypt decrypt random_bytes ◌>>=◌
  decrypt-encrypt text key w hs size calm =
      let nonce = bytes_from w.entropy w.drawn nonce_size in
      let sealed = seal key nonce text in
      let twelve = length-bytes_from w.entropy w.drawn nonce_size in
      let printed = decode_std-encode_std (nonce ++ sealed) (
        All-append _ nonce sealed (bytes_from-All w.entropy w.drawn nonce_size)
          (laws.seal-bytes key nonce text hs)) in
      (
        encode_std (nonce ++ sealed),
        rw (size, calm) refl,
        rw
            (
              size,
              printed,
              take-append nonce sealed twelve,
              drop-append nonce sealed twelve,
              laws.unseal-seal key nonce text hs,
            )
            (ground arith),
      )
