-- ===== src/Auth/Toy.antt =====
-- Concrete packages and a concrete network, with the laws that the theorems ask for, for the
-- examples.
use garance.Prelude.{
  Bool, true, ℕ, suc, zero, ◌%◌, ◌<◌, ◌≡◌, refl, ap, Str, bytes, [], ◌∷◌, ◌++◌, false, Option, none,
  some, length, take, drop, take-append, drop-append, All, ltb, arith, if◌then◌else◌,
}
use mathlib.Core.Path.{subst}
use mathlib.Core.Option.{some-injective}
use garance.Exec.{Result, World, ok}
use garance.Auth.Packages.{Claims, Packages, SealLaws, HashLaws, TokenLaws}
use garance.Auth.Tables.{Db}
use garance.Auth.Token.{Manager, new_manager}
use garance.Auth.OAuth.{Json, Object, Remote}

-- So many bytes of the text, and then zeros.
abbrev pub fit : ℕ → Str → Str
fit zero s = []
fit (suc n) [] = 0 ∷ fit n []
fit (suc n) (b ∷ s) = b % 256 ∷ fit n s

abbrev frame : Str → Str → Str
frame s rest = length s ∷ (s ++ rest)

abbrev print_claims : Claims → Str
print_claims c =
    c.issued_at
    ∷ c.expires_at
    ∷ frame c.subject (frame c.issuer (frame c.user_id (frame c.project_id (frame c.role []))))

-- The first framed text, and what follows it.
abbrev unframe : Str → Str × Str
unframe [] = ([], [])
unframe (n ∷ s) = (take n s, drop n s)

abbrev read_claims : Str → Option Claims
read_claims (issued ∷ expires ∷ s) =
    let a = unframe s in
    let b = unframe a.1 in
    let c = unframe b.1 in
    let d = unframe c.1 in
    let e = unframe d.1 in
    some (record {
      subject = a.0;
      issued_at = issued;
      expires_at = expires;
      issuer = b.0;
      user_id = c.0;
      project_id = d.0;
      role = e.0;
    })
read_claims _ = none

read_claims-print_claims : (c : Claims) → read_claims (print_claims c) ≡ some c
read_claims-print_claims c =
    rw
      (
        take-append c.subject
            (frame c.issuer (frame c.user_id (frame c.project_id (frame c.role [])))) refl,
        drop-append c.subject
            (frame c.issuer (frame c.user_id (frame c.project_id (frame c.role [])))) refl,
        take-append c.issuer (frame c.user_id (frame c.project_id (frame c.role []))) refl,
        drop-append c.issuer (frame c.user_id (frame c.project_id (frame c.role []))) refl,
        take-append c.user_id (frame c.project_id (frame c.role [])) refl,
        drop-append c.user_id (frame c.project_id (frame c.role [])) refl,
        take-append c.project_id (frame c.role []) refl,
        drop-append c.project_id (frame c.role []) refl,
        take-append c.role [] refl,
      )
      refl

abbrev unexpired : ℕ → Option Claims → Option Claims
unexpired now none = none
unexpired now (some c) = if ltb now c.expires_at then some c else none

abbrev pub toy : Packages
toy = record {
  argon2_id_key = λ password salt time memory threads size. some (fit size password);
  seal = λ key nonce text. text;
  unseal = λ key nonce text. some text;
  sign = λ claims secret. some (print_claims claims);
  parse_token = λ token keys now. unexpired now (read_claims token);
  uuid_string = λ n. n ∷ [];
  uuid_parse = λ s. none;
  parse_url = λ s. some (record { scheme = bytes "https"; host = s; hostname = s });
  to_lower = λ s. s;
}

pub toy-SealLaws : SealLaws toy
toy-SealLaws = record { unseal-seal = λ key nonce text h. refl; seal-bytes = λ key nonce text h. h }

fit-All : (n : ℕ) (s : Str) → All (λ b. b < 256) (fit n s)
fit-All zero s = tt
fit-All (suc n) [] = (omega arith, fit-All n [])
fit-All (suc n) (b ∷ s) = (omega arith, fit-All n s)

length-fit : (n : ℕ) (s : Str) → length (fit n s) ≡ n
length-fit zero s = refl
length-fit (suc n) [] = ap suc (length-fit n [])
length-fit (suc n) (b ∷ s) = ap suc (length-fit n s)

pub toy-HashLaws : HashLaws toy
toy-HashLaws = record {
  hash-bytes = λ password salt time memory threads size hash e.
      subst (All (λ b. b < 256)) (some-injective _ _ e) (fit-All size password);
  length-hash = λ password salt time memory threads size hash e.
      subst (λ h. length h ≡ size) (some-injective _ _ e) (length-fit size password);
}

unexpired-some : (now : ℕ) (c : Claims) → now < c.expires_at → unexpired now (some c) ≡ some c
unexpired-some now c early = ground arith

pub toy-TokenLaws : TokenLaws toy
toy-TokenLaws = record {
  parse-sign = λ claims secret token keys now e k early.
      subst (λ x. unexpired now (read_claims x) ≡ some claims) (some-injective _ _ e)
        (rw (read_claims-print_claims claims) (unexpired-some now claims early));
}

abbrev pub toy_tokens : Manager
toy_tokens = new_manager (bytes "secret")

abbrev json_text : Str → Json
json_text s = record { as_string = some s; printed = s; rounded = s }

abbrev pub toy_object : Object
toy_object =
    (bytes "id", json_text (bytes "7")) ∷ (bytes "email", json_text (bytes "ann@x.org")) ∷ []

abbrev pub toy_remote : Remote
toy_remote = record {
  send = λ now r. some [];
  decode_token = λ body. (record { access_token = bytes "t" }, false);
  decode_object = λ body. some toy_object;
  decode_emails = λ body. [];
  marshal = λ raw. bytes "{}";
  to_lower = λ s. s;
}

-- A world where no call fails, and the random source counts.
abbrev pub calm : Db → World Db
calm d = record { db = d; faults = []; now = 1000; entropy = λ i. i; drawn = 0 }

-- The value of a result that is known to be one.
abbrev pub is_ok : {A : Type 0} → Result A → Bool
is_ok (Result.ok a) = true
is_ok _ = false

abbrev pub value_or : {A : Type 0} → A → Result A → A
value_or d (Result.ok a) = a
value_or d _ = d

pub ok-value_or : {A : Type 0} (d : A) (r : Result A) → is_ok r ≡ true → r ≡ ok (value_or d r)
ok-value_or d (Result.ok a) e = refl
ok-value_or d (Result.err x) e = cc
ok-value_or d Result.panic e = cc
