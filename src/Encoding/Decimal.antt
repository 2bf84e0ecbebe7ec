-- ===== src/Encoding/Decimal.antt =====
-- The %d verb of fmt.Sprintf and fmt.Sscanf, for numbers that are not negative.
use mathlib.Core.Path.{subst}
use mathlib.Core.List.{append-nil}
use garance.Prelude.{
  All, ℕ, zero, suc, ◌+◌, ◌-◌, ◌*◌, ◌/◌, ◌%◌, ◌^◌, ◌<◌, ◌≡◌, refl, Str, [], ◌∷◌, ◌++◌, arith, Bool,
  true, false, ◌&&◌, ◌||◌, Option, none, some, ltb, leb, ◌==◌, nat_eq, if◌then◌else◌, Bool-cases,
  inl, inr, ltb→lt,
}

-- The digits of n before `out`; a round for each digit, and there are at most n + 1.
unfoldable pub format_onto : ℕ → ℕ → Str → Str
format_onto zero n out = out
format_onto (suc f) n out =
    let more = format_onto f (n / 10) ((b'0' + n % 10) ∷ out) in
    if ltb n 10 then (b'0' + n) ∷ out else more

-- fmt.Sprintf("%d", n)
unfoldable pub format : ℕ → Str
unfolding format_onto
format n = format_onto (n + 1) n []

abbrev pub is_digit : ℕ → Bool
is_digit c = leb b'0' c && leb c b'9'

-- SkipSpace; a newline is an error.
abbrev is_blank : ℕ → Bool
is_blank c = c == 32 || c == 9 || c == 11 || c == 12 || c == 13

abbrev pub skip_space : Str → Str
skip_space [] = []
skip_space (c ∷ s) = let rest = skip_space s in if is_blank c then rest else c ∷ s

abbrev pub starts_with_digit : Str → Bool
starts_with_digit [] = false
starts_with_digit (c ∷ s) = is_digit c

-- The value of the longest run of digits, after the digits that were read, and the rest.
abbrev scan_digits : ℕ → Str → ℕ × Str
scan_digits acc [] = (acc, [])
scan_digits acc (c ∷ s) =
    let more = scan_digits (acc * 10 + (c - b'0')) s in if is_digit c then more else (acc, c ∷ s)

abbrev below : ℕ → ℕ × Str → Option (ℕ × Str)
below limit (n, rest) = if ltb n limit then some (n, rest) else none

abbrev pub scan_number : ℕ → Str → Option (ℕ × Str)
scan_number limit s = if starts_with_digit s then below limit (scan_digits 0 s) else none

-- %d into an unsigned integer of that many bits
unfoldable pub scan_uint : ℕ → Str → Option (ℕ × Str)
scan_uint bits s = scan_number (2 ^ bits) (skip_space s)

abbrev scan_signed : Str → Option (ℕ × Str)
scan_signed [] = none
scan_signed (c ∷ s) =
    if c == b'+'
    then scan_number (2 ^ 63) s
    else if c == b'-'
    then scan_number (2 ^ 63 + 1) s
    else scan_number (2 ^ 63) (c ∷ s)

-- %d into an int; the number without its sign
unfoldable pub scan_int : Str → Option (ℕ × Str)
scan_int s = scan_signed (skip_space s)

-- A literal of the format.
unfoldable pub scan_literal : Str → Str → Option Str
scan_literal [] s = some s
scan_literal (p ∷ ps) [] = none
scan_literal (p ∷ ps) (c ∷ s) = if c == p then scan_literal ps s else none

scan_digits-format_onto :
    (f n : ℕ) (out : Str) → n < f → scan_digits 0 (format_onto f n out) ≡ scan_digits n out
unfolding format_onto
scan_digits-format_onto zero n out h = absurd (omega arith)
scan_digits-format_onto (suc f) n out h =
    ground (arith, scan_digits-format_onto f (n / 10) ((b'0' + n % 10) ∷ out))

pub starts_with_digit-format_onto :
    (f n : ℕ) (out : Str) → n < f → starts_with_digit (format_onto f n out) ≡ true
unfolding format_onto
starts_with_digit-format_onto zero n out h = absurd (omega arith)
starts_with_digit-format_onto (suc f) n out h =
    ground (arith, starts_with_digit-format_onto f (n / 10) ((b'0' + n % 10) ∷ out))

skip_space_of_digit : (s : Str) → starts_with_digit s ≡ true → skip_space s ≡ s
skip_space_of_digit [] h = refl
skip_space_of_digit (c ∷ s) h = ground arith

scan_signed_of_digit :
    (s : Str) → starts_with_digit s ≡ true → scan_signed s ≡ scan_number (2 ^ 63) s
scan_signed_of_digit [] h = cc
scan_signed_of_digit (c ∷ s) h = ground arith

scan_digits_done :
    (n : ℕ) (rest : Str) → starts_with_digit rest ≡ false → scan_digits n rest ≡ (n, rest)
scan_digits_done n [] h = refl
scan_digits_done n (c ∷ rest) h = ground arith

format_onto-append :
    (f n : ℕ) (out rest : Str) → format_onto f n (out ++ rest) ≡ format_onto f n out ++ rest
unfolding format_onto
format_onto-append zero n out rest = refl
format_onto-append (suc f) n out rest =
    ground (arith, format_onto-append f (n / 10) ((b'0' + n % 10) ∷ out) rest)

-- What %d prints, %d reads back, and it leaves what follows, unless that begins with a digit.
pub scan_uint-format :
    (bits n : ℕ) (rest : Str)
    → n < 2 ^ bits
    → starts_with_digit rest ≡ false
    → scan_uint bits (format n ++ rest) ≡ some (n, rest)
unfolding scan_uint format
scan_uint-format bits n rest h k =
    let first = starts_with_digit-format_onto (n + 1) n rest (omega arith) in
    rw
      (
        ← format_onto-append (n + 1) n [] rest,
        skip_space_of_digit (format_onto (n + 1) n rest) first,
        first,
        scan_digits-format_onto (n + 1) n rest (omega arith),
        scan_digits_done n rest k,
      )
      (ground arith)

pub scan_int-format :
    (n : ℕ) (rest : Str)
    → n < 2 ^ 63
    → starts_with_digit rest ≡ false
    → scan_int (format n ++ rest) ≡ some (n, rest)
unfolding scan_int format
scan_int-format n rest h k =
    let first = starts_with_digit-format_onto (n + 1) n rest (omega arith) in
    let s = format_onto (n + 1) n rest in
    rw
      (
        ← format_onto-append (n + 1) n [] rest,
        skip_space_of_digit s first,
        scan_signed_of_digit s first,
        first,
        scan_digits-format_onto (n + 1) n rest (omega arith),
        scan_digits_done n rest k,
      )
      (ground arith)

pub scan_uint-format_last : (bits n : ℕ) → n < 2 ^ bits → scan_uint bits (format n) ≡ some (n, [])
scan_uint-format_last bits n h =
    subst (λ s. scan_uint bits s ≡ some (n, [])) (append-nil (format n))
      (scan_uint-format bits n [] h refl)

pub scan_int-format_last : (n : ℕ) → n < 2 ^ 63 → scan_int (format n) ≡ some (n, [])
scan_int-format_last n h =
    subst (λ s. scan_int s ≡ some (n, [])) (append-nil (format n)) (scan_int-format n [] h refl)

pub scan_literal-append : (lit rest : Str) → scan_literal lit (lit ++ rest) ≡ some rest
unfolding scan_literal
scan_literal-append [] rest = refl
scan_literal-append (c ∷ lit) rest = ground (arith, scan_literal-append lit rest)

module _ (P : ℕ → Type 0) (pd : (v : ℕ) → v < 10 → P (b'0' + v)) where
  format_onto-All : (f n : ℕ) (out : Str) → All P out → All P (format_onto f n out)
  unfolding format_onto
  format_onto-All zero n out h = h
  format_onto-All (suc f) n out h = elim (Bool-cases (ltb n 10)) [
    | inl e ↦ rw e (pd n (ltb→lt n 10 e), h)
    | inr e ↦
        rw e (format_onto-All f (n / 10) ((b'0' + n % 10) ∷ out) (pd (n % 10) (omega arith), h))
  ]

  -- What holds of the ten digits holds of every character of a number.
  pub format-All : (n : ℕ) → All P (format n)
  unfolding format
  format-All n = format_onto-All (n + 1) n [] tt
