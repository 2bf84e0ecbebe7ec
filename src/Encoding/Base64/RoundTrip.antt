-- ===== src/Encoding/Base64/RoundTrip.antt =====
-- Decoding what was encoded.
use mathlib.Core.Path.{ap₂}
use garance.Prelude.{
  ℕ, ◌+◌, ◌*◌, ◌/◌, ◌%◌, ◌<◌, ◌≡◌, ◌≢◌, refl, ap, Str, [], ◌∷◌, All, arith, false, some, ◌==◌,
  nat_eq,
}
use garance.Encoding.Base64.{
  symbol, value-symbol, encode_raw, encode_std, drop_newlines, pair_of, triple_of, quad_onto,
  decode_quads, decode_raw, decode_padded, decode_std,
}

pair_of-symbol : (a : ℕ) → a < 256 → pair_of (symbol (a / 4)) (symbol (a % 4 * 16)) ≡ some (a ∷ [])
unfolding pair_of
pair_of-symbol a h =
    rw (value-symbol (a / 4) (omega arith), value-symbol (a % 4 * 16) (omega arith))
      (ap (λ v. some (v ∷ [])) (omega arith))

triple_of-symbol :
    (a b : ℕ)
    → a < 256
    → b < 256
    → triple_of (symbol (a / 4)) (symbol (a % 4 * 16 + b / 16)) (symbol (b % 16 * 4))
      ≡ some (a ∷ b ∷ [])
unfolding triple_of
triple_of-symbol a b h k =
    rw
      (
        value-symbol (a / 4) (omega arith),
        value-symbol (a % 4 * 16 + b / 16) (omega arith),
        value-symbol (b % 16 * 4) (omega arith),
      )
      (ap₂ (λ v w. some (v ∷ w ∷ [])) (omega arith) (omega arith))

quad_onto-symbol :
    (a b c : ℕ) (out : Str)
    → a < 256
    → b < 256
    → c < 256
    → quad_onto
        (symbol (a / 4))
        (symbol (a % 4 * 16 + b / 16))
        (symbol (b % 16 * 4 + c / 64))
        (symbol (c % 64))
        (some out)
      ≡ some (a ∷ b ∷ c ∷ out)
unfolding quad_onto
quad_onto-symbol a b c out h k l =
    rw
      (
        value-symbol (a / 4) (omega arith),
        value-symbol (a % 4 * 16 + b / 16) (omega arith),
        value-symbol (b % 16 * 4 + c / 64) (omega arith),
        value-symbol (c % 64) (omega arith),
      )
      (ground arith)

-- The characters of an encoding are no line breaks.
abbrev IsPrinted : ℕ → Type 0
IsPrinted c = (c ≢ 13) × (c ≢ 10)

symbol-IsPrinted : (v : ℕ) → v < 64 → IsPrinted (symbol v)
unfolding symbol
symbol-IsPrinted v h = ground arith

-- An encoding holds no dollar sign either, which separates the parts of a password hash.
pub symbol-ne-dollar : (v : ℕ) → v < 64 → symbol v ≢ b'$'
unfolding symbol
symbol-ne-dollar v h = ground arith

drop_newlines-All : (s : Str) → All IsPrinted s → drop_newlines s ≡ s
drop_newlines-All [] h = refl
drop_newlines-All (c ∷ s) h = ground (arith, drop_newlines-All s h.1)

module _ (P : ℕ → Type 0) (ps : (v : ℕ) → v < 64 → P (symbol v)) where
  -- The characters by their place in a group; the last one of a short group has fewer bits.
  first : (a : ℕ) → a < 256 → P (symbol (a / 4))
  first a h = ps (a / 4) (omega arith)

  second : (a b : ℕ) → b < 256 → P (symbol (a % 4 * 16 + b / 16))
  second a b h = ps (a % 4 * 16 + b / 16) (omega arith)

  second_last : (a : ℕ) → P (symbol (a % 4 * 16))
  second_last a = ps (a % 4 * 16) (omega arith)

  third : (b c : ℕ) → c < 256 → P (symbol (b % 16 * 4 + c / 64))
  third b c h = ps (b % 16 * 4 + c / 64) (omega arith)

  third_last : (b : ℕ) → P (symbol (b % 16 * 4))
  third_last b = ps (b % 16 * 4) (omega arith)

  fourth : (c : ℕ) → P (symbol (c % 64))
  fourth c = ps (c % 64) (omega arith)

  pub encode_raw-All : (s : Str) → All (λ b. b < 256) s → All P (encode_raw s)
  unfolding encode_raw
  encode_raw-All [] h = tt
  encode_raw-All (a ∷ []) (h, _) = (first a h, (second_last a, tt))
  encode_raw-All (a ∷ b ∷ []) (h, (k, _)) = (first a h, (second a b k, (third_last b, tt)))
  encode_raw-All (a ∷ b ∷ c ∷ s) (h, (k, (l, r))) =
      (first a h, (second a b k, (third b c l, (fourth c, encode_raw-All s r))))

  encode_std-All : P b'=' → (s : Str) → All (λ b. b < 256) s → All P (encode_std s)
  unfolding encode_std
  encode_std-All pad [] h = tt
  encode_std-All pad (a ∷ []) (h, _) = (first a h, (second_last a, (pad, (pad, tt))))
  encode_std-All pad (a ∷ b ∷ []) (h, (k, _)) =
      (first a h, (second a b k, (third_last b, (pad, tt))))
  encode_std-All pad (a ∷ b ∷ c ∷ s) (h, (k, (l, r))) =
      (first a h, (second a b k, (third b c l, (fourth c, encode_std-All pad s r))))

decode_quads-encode_raw : (s : Str) → All (λ b. b < 256) s → decode_quads (encode_raw s) ≡ some s
unfolding decode_quads encode_raw
decode_quads-encode_raw [] h = refl
decode_quads-encode_raw (a ∷ []) (h, _) = pair_of-symbol a h
decode_quads-encode_raw (a ∷ b ∷ []) (h, (k, _)) = triple_of-symbol a b h k
decode_quads-encode_raw (a ∷ b ∷ c ∷ s) (h, (k, (l, r))) =
    rw (decode_quads-encode_raw s r) (quad_onto-symbol a b c s h k l)

-- RawStdEncoding decodes what it encoded.
pub decode_raw-encode_raw : (s : Str) → All (λ b. b < 256) s → decode_raw (encode_raw s) ≡ some s
unfolding decode_raw
decode_raw-encode_raw s h =
    rw (drop_newlines-All (encode_raw s) (encode_raw-All IsPrinted symbol-IsPrinted s h))
      (decode_quads-encode_raw s h)

-- A group of four whose last character is no padding is decoded alone.
symbol-ne-pad : (v : ℕ) → v < 64 → (symbol v == b'=') ≡ false
unfolding symbol
symbol-ne-pad v h = ground arith

-- The rest of an encoding begins another group, or there is none.
decode_padded_group :
    (a b c d : ℕ) (rest : Str)
    → (d == b'=') ≡ false
    → decode_padded (a ∷ b ∷ c ∷ d ∷ rest) ≡ quad_onto a b c d (decode_padded rest)
unfolding decode_padded
decode_padded_group a b c d [] h = rw h
decode_padded_group a b c d (e ∷ rest) h = refl

decode_padded-encode_std : (s : Str) → All (λ b. b < 256) s → decode_padded (encode_std s) ≡ some s
unfolding encode_std
decode_padded-encode_std [] h = unfold decode_padded in refl
decode_padded-encode_std (a ∷ []) (h, _) = unfold decode_padded in pair_of-symbol a h
decode_padded-encode_std (a ∷ b ∷ []) (h, (k, _)) =
    unfold decode_padded in rw (symbol-ne-pad (b % 16 * 4) (omega arith)) (triple_of-symbol a b h k)
decode_padded-encode_std (a ∷ b ∷ c ∷ s) (h, (k, (l, r))) =
    rw
      (
        decode_padded_group (symbol (a / 4)) (symbol (a % 4 * 16 + b / 16))
            (symbol (b % 16 * 4 + c / 64)) (symbol (c % 64)) (encode_std s)
            (symbol-ne-pad (c % 64) (omega arith)),
        decode_padded-encode_std s r,
      )
      (quad_onto-symbol a b c s h k l)

pad-IsPrinted : IsPrinted b'='
pad-IsPrinted = omega arith

-- StdEncoding decodes what it encoded.
pub decode_std-encode_std : (s : Str) → All (λ b. b < 256) s → decode_std (encode_std s) ≡ some s
unfolding decode_std
decode_std-encode_std s h =
    let printed = encode_std-All IsPrinted symbol-IsPrinted pad-IsPrinted s h in
    rw (drop_newlines-All (encode_std s) printed) (decode_padded-encode_std s h)
