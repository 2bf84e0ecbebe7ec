-- ===== src/Encoding/Hex.antt =====
-- hex.EncodeToString
use garance.Prelude.{
  ℕ, ◌+◌, ◌*◌, ◌/◌, ◌%◌, ◌<◌, ◌≡◌, refl, Str, [], ◌∷◌, All, arith, ltb, if◌then◌else◌, length, ap,
  sym, ◌-◌, ◌∙◌,
}
use mathlib.Core.Path.{ap₂}

-- "0123456789abcdef"[v]
abbrev digit : ℕ → ℕ
digit v = if ltb v 10 then b'0' + v else b'W' + v

unfoldable pub encode : Str → Str
encode [] = []
encode (b ∷ bs) = digit (b / 16) ∷ digit (b % 16) ∷ encode bs

pub length-encode : (bs : Str) → length (encode bs) ≡ length bs * 2
unfolding encode
length-encode [] = refl
length-encode (b ∷ bs) = omega (arith, length-encode bs)

-- The value of a digit, for the proof that the encoding loses nothing.
undigit : ℕ → ℕ
undigit c = if ltb c b'W' then c - b'0' else c - b'W'

undigit-digit : (v : ℕ) → v < 16 → undigit (digit v) ≡ v
unfolding undigit
undigit-digit v h = ground arith

decode : Str → Str
decode [] = []
decode (c ∷ []) = []
decode (c ∷ d ∷ s) = (undigit c * 16 + undigit d) ∷ decode s

decode-encode : (bs : Str) → All (λ b. b < 256) bs → decode (encode bs) ≡ bs
unfolding encode decode
decode-encode [] h = refl
decode-encode (b ∷ bs) (p, h) =
    ap₂ ◌∷◌ (omega (arith, undigit-digit (b / 16), undigit-digit (b % 16))) (decode-encode bs h)

-- Two sequences of bytes with one encoding are equal.
pub encode-injective :
    (bs cs : Str) → All (λ b. b < 256) bs → All (λ c. c < 256) cs → encode bs ≡ encode cs → bs ≡ cs
encode-injective bs cs hb hc e = sym (decode-encode bs hb) ∙ ap decode e ∙ decode-encode cs hc
