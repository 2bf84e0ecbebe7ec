-- ===== src/Auth/Crypto/Tests.antt =====
-- Examples that exercise the cryptography and the tokens of the auth service.
use garance.Prelude.{Str, bytes, [], ◌∷◌, true, some, ◌≡◌, refl, ◌==◌, str_eq, arith}
use garance.Exec.{World, ok}
use garance.Auth.Tables.{Db, empty_db}
use garance.Auth.Toy.{
  toy, toy-SealLaws, toy-HashLaws, toy-TokenLaws, toy_tokens, calm, fit, value_or,
}
use garance.Auth.Crypto.Encoded.{default_params, encode_hash, parse_hash, parse_hash-encode_hash}
use garance.Auth.Crypto.Password.{hash_password, verify_password, verify_password-hash_password}
use garance.Auth.Crypto.Encrypt.{encrypt, decrypt, decrypt-encrypt}
use garance.Auth.Token.{generate_access_token, validate_access_token, claims_for}
use garance.Auth.Token.RoundTrip.{validate_access_token-generate_access_token}

abbrev password : Str
password = bytes "correct horse"

abbrev key : Str
key = bytes "0123456789abcdef0123456789abcdef"

abbrev start : World Db
start = calm empty_db

-- The cryptography.
verify_password-hash_password_example :
    (e : Str) × ((hash_password {D = Db} toy password start).0 ≡ ok e)
    × (verify_password toy (bytes "wrong") e ≡ ok (fit 32 (bytes "wrong") == fit 32 password))
    × (verify_password toy password e ≡ ok true)
verify_password-hash_password_example =
    verify_password-hash_password toy toy-HashLaws password (bytes "wrong") start refl refl refl

decrypt-encrypt_example :
    (c : Str) × ((encrypt {D = Db} toy (bytes "hi") key start).0 ≡ ok c)
    × (decrypt toy c key ≡ ok (bytes "hi"))
decrypt-encrypt_example =
    decrypt-encrypt toy toy-SealLaws (bytes "hi") key start (omega arith, (omega arith, tt)) refl
      refl

parse_hash-encode_hash_example :
    parse_hash (encode_hash default_params (1 ∷ []) (2 ∷ []))
    ≡ some
        (record { memory = 65536; iterations = 3; parallelism = 2; salt = 1 ∷ []; hash = 2 ∷ [] })
parse_hash-encode_hash_example =
    parse_hash-encode_hash default_params (1 ∷ []) (2 ∷ []) (omega arith) (omega arith)
      (omega arith) (omega arith, tt) (omega arith, tt)

issues :
    (generate_access_token toy toy_tokens {D = Db} 16 [] (bytes "user") start).0
    ≡ ok (value_or [] (generate_access_token toy toy_tokens {D = Db} 16 [] (bytes "user") start).0)
unfolding generate_access_token
issues = refl

abbrev ten_minutes_later : World Db
ten_minutes_later = record start { now = 1600 }

validate_access_token-generate_access_token_example :
    (validate_access_token toy toy_tokens
      (value_or [] (generate_access_token toy toy_tokens {D = Db} 16 [] (bytes "user") start).0)
      ten_minutes_later).0
    ≡ ok (claims_for toy toy_tokens 16 [] (bytes "user") 1000)
validate_access_token-generate_access_token_example =
    validate_access_token-generate_access_token toy toy_tokens toy-TokenLaws 16 [] (bytes "user")
      (value_or [] (generate_access_token toy toy_tokens {D = Db} 16 [] (bytes "user") start).0)
      start ten_minutes_later issues (omega arith)
