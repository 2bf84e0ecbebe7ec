-- ===== src/Encoding/Integer.antt =====
-- The integers, and strconv.ParseInt and strconv.Atoi in base 10.
pub mod RoundTrip
use garance.Prelude.{
  ℕ, zero, suc, ◌+◌, ◌-◌, ◌*◌, ◌^◌, bytes, Str, [], ◌∷◌, Option, none, some, leb, ◌==◌, nat_eq,
  str_eq, if◌then◌else◌,
}
use garance.Encoding.Decimal.{is_digit, skip_space, scan_number}

-- `negsuc n` is -(n + 1).
pub data ℤ : Type 0 where
  pos : ℕ → ℤ
  negsuc : ℕ → ℤ

-- The value of a text of digits, after those that were read.
unfoldable pub digits_value : ℕ → Str → Option ℕ
digits_value acc [] = some acc
digits_value acc (c ∷ s) =
    let more = digits_value (acc * 10 + (c - b'0')) s in if is_digit c then more else none

-- There must be a digit.
abbrev unsigned_value : Str → Option ℕ
unsigned_value [] = none
unsigned_value (c ∷ s) = digits_value 0 (c ∷ s)

abbrev negated : ℕ → ℤ
negated zero = ℤ.pos 0
negated (suc n) = ℤ.negsuc n

abbrev up_to : ℕ → (ℕ → ℤ) → Option ℕ → Option ℤ
up_to limit f none = none
up_to limit f (some n) = if leb n limit then some (f n) else none

-- strconv.ParseInt(s, 10, bits + 1), none for each of its errors
unfoldable pub parse_int : ℕ → Str → Option ℤ
unfolding digits_value
parse_int bits [] = none
parse_int bits (c ∷ s) =
    if c == b'-'
    then up_to (2 ^ bits) negated (unsigned_value s)
    else if c == b'+'
    then up_to (2 ^ bits - 1) ℤ.pos (unsigned_value s)
    else up_to (2 ^ bits - 1) ℤ.pos (unsigned_value (c ∷ s))

abbrev value_or : ℤ → Option ℤ → ℤ
value_or default none = default
value_or default (some n) = n

-- A parameter of the query: the default where it is missing, empty or not a number.
abbrev pub int_or : ℕ → ℤ → Str → ℤ
int_or bits default text = if text == [] then default else value_or default (parse_int bits text)

-- strconv.Atoi on a platform of 64 bits
abbrev pub atoi_or : ℤ → Str → ℤ
atoi_or = int_or 63

abbrev signed_part : Str → Option (ℕ × Str) → Option ℤ
signed_part c none = none
signed_part c (some (n, rest)) = some (if c == bytes "-" then negated n else ℤ.pos n)

-- The number, after its sign.
abbrev scan_sign : Str → Option ℤ
scan_sign [] = none
scan_sign (c ∷ s) =
    if c == b'+'
    then signed_part [] (scan_number (2 ^ 63) s)
    else if c == b'-'
    then signed_part (bytes "-") (scan_number (2 ^ 63 + 1) s)
    else signed_part [] (scan_number (2 ^ 63) (c ∷ s))

-- `var n int64; fmt.Sscanf(text, "%d", &n)`, with its error dropped: the number that the text begins
-- with, or 0.
unfoldable pub sscanf_int : Str → ℤ
sscanf_int text = value_or (ℤ.pos 0) (scan_sign (skip_space text))
