-- ===== src/Encoding/Base64.antt =====
-- base64.StdEncoding and base64.RawStdEncoding
pub mod RoundTrip
use garance.Prelude.{
  ℕ, ◌+◌, ◌-◌, ◌*◌, ◌/◌, ◌%◌, ◌≤◌, ◌<◌, ◌≡◌, ◌≢◌, refl, Str, [], ◌∷◌, All, arith, Bool, true, false,
  ◌||◌, ◌&&◌, Option, none, some, ltb, leb, ◌==◌, nat_eq, if◌then◌else◌,
}

infixl 5 ◌>>=◌
abbrev pub ◌>>=◌ {ℓ κ} : {A : Type ℓ} {B : Type κ} → Option A → (A → Option B) → Option B
none >>= f = none
some a >>= f = f a

-- The character for six bits.
pub symbol : ℕ → ℕ
symbol v =
    if ltb v 26
    then b'A' + v
    else if ltb v 52
    then b'a' + (v - 26)
    else if ltb v 62
    then b'0' + (v - 52)
    else if v == 62
    then b'+'
    else b'/'

-- The six bits of a character of the alphabet.
value : ℕ → Option ℕ
value c =
    if leb b'A' c && leb c b'Z'
    then some (c - b'A')
    else if leb b'a' c && leb c b'z'
    then some (c - b'a' + 26)
    else if leb b'0' c && leb c b'9'
    then some (c - b'0' + 52)
    else if c == b'+'
    then some 62
    else if c == b'/'
    then some 63
    else none

value-symbol : (v : ℕ) → v < 64 → value (symbol v) ≡ some v
unfolding value symbol
value-symbol v h = ground arith

-- RawStdEncoding.EncodeToString: no padding.
unfoldable pub encode_raw : Str → Str
unfolding symbol
encode_raw [] = []
encode_raw (a ∷ []) = symbol (a / 4) ∷ symbol (a % 4 * 16) ∷ []
encode_raw (a ∷ b ∷ []) = symbol (a / 4) ∷ symbol (a % 4 * 16 + b / 16) ∷ symbol (b % 16 * 4) ∷ []
encode_raw (a ∷ b ∷ c ∷ s) =
    symbol (a / 4)
    ∷ symbol (a % 4 * 16 + b / 16)
    ∷ symbol (b % 16 * 4 + c / 64)
    ∷ symbol (c % 64)
    ∷ encode_raw s

-- StdEncoding.EncodeToString: the last group is padded with `=`.
unfoldable pub encode_std : Str → Str
unfolding symbol
encode_std [] = []
encode_std (a ∷ []) = symbol (a / 4) ∷ symbol (a % 4 * 16) ∷ b'=' ∷ b'=' ∷ []
encode_std (a ∷ b ∷ []) =
    symbol (a / 4) ∷ symbol (a % 4 * 16 + b / 16) ∷ symbol (b % 16 * 4) ∷ b'=' ∷ []
encode_std (a ∷ b ∷ c ∷ s) =
    symbol (a / 4)
    ∷ symbol (a % 4 * 16 + b / 16)
    ∷ symbol (b % 16 * 4 + c / 64)
    ∷ symbol (c % 64)
    ∷ encode_std s

-- The decoders pass over carriage returns and newlines.
abbrev drop_newlines : Str → Str
drop_newlines [] = []
drop_newlines (c ∷ s) = let rest = drop_newlines s in if c == 13 || c == 10 then rest else c ∷ rest

abbrev byte1 : ℕ → ℕ → ℕ
byte1 p q = p * 4 + q / 16

abbrev byte2 : ℕ → ℕ → ℕ
byte2 q r = q % 16 * 16 + r / 4

abbrev byte3 : ℕ → ℕ → ℕ
byte3 r s = r % 4 * 64 + s

pair_of : ℕ → ℕ → Option Str
unfolding value
pair_of a b = do p ← value a; q ← value b; some (byte1 p q ∷ [])

triple_of : ℕ → ℕ → ℕ → Option Str
unfolding value
triple_of a b c = do p ← value a; q ← value b; r ← value c; some (byte1 p q ∷ byte2 q r ∷ [])

quad_onto : ℕ → ℕ → ℕ → ℕ → Option Str → Option Str
unfolding value
quad_onto a b c d rest = do
  p ← value a
  q ← value b
  r ← value c
  s ← value d
  out ← rest
  some (byte1 p q ∷ byte2 q r ∷ byte3 r s ∷ out)

decode_quads : Str → Option Str
unfolding pair_of triple_of quad_onto
decode_quads [] = some []
decode_quads (a ∷ []) = none
decode_quads (a ∷ b ∷ []) = pair_of a b
decode_quads (a ∷ b ∷ c ∷ []) = triple_of a b c
decode_quads (a ∷ b ∷ c ∷ d ∷ s) = quad_onto a b c d (decode_quads s)

-- RawStdEncoding.DecodeString; the bits that are left over in the last character are not looked
-- at, since the encoding is not Strict.
unfoldable pub decode_raw : Str → Option Str
unfolding decode_quads
decode_raw s = decode_quads (drop_newlines s)

-- The padding may end the text only.
decode_padded : Str → Option Str
unfolding pair_of triple_of quad_onto
decode_padded [] = some []
decode_padded (a ∷ b ∷ c ∷ d ∷ []) =
    if d == b'='
    then (if c == b'=' then pair_of a b else triple_of a b c)
    else quad_onto a b c d (some [])
decode_padded (a ∷ b ∷ c ∷ d ∷ e ∷ s) = quad_onto a b c d (decode_padded (e ∷ s))
decode_padded (a ∷ s) = none

-- StdEncoding.DecodeString
unfoldable pub decode_std : Str → Option Str
unfolding decode_padded
decode_std s = decode_padded (drop_newlines s)
