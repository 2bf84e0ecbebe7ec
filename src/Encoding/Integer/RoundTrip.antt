-- ===== src/Encoding/Integer/RoundTrip.antt =====
-- strconv.Atoi and fmt.Sscanf read what %d prints.
use garance.Prelude.{
  Bool-cases, inl, inr, ℕ, zero, suc, ◌+◌, ◌-◌, ◌/◌, ◌%◌, ◌^◌, ◌<◌, ◌≤◌, ==_false, ◌≡◌, refl, true,
  Str, [], ◌∷◌, some, nat_eq, str_eq, arith,
}
use garance.Encoding.Decimal.{
  format_onto, format, is_digit, starts_with_digit, starts_with_digit-format_onto, scan_number,
  skip_space, scan_uint, scan_uint-format_last,
}
use garance.Encoding.Integer.{
  ℤ, digits_value, up_to, parse_int, atoi_or, value_or, scan_sign, sscanf_int,
}

digits_value-format_onto :
    (f n : ℕ) (out : Str) → n < f → digits_value 0 (format_onto f n out) ≡ digits_value n out
unfolding format_onto digits_value
digits_value-format_onto zero n out h = absurd (omega arith)
digits_value-format_onto (suc f) n out h =
    ground (arith, digits_value-format_onto f (n / 10) ((b'0' + n % 10) ∷ out))

digit_bounds : (c : ℕ) → is_digit c ≡ true → 48 ≤ c
digit_bounds c h = ground arith

parse_int_of_digit :
    (s : Str)
    → starts_with_digit s ≡ true
    → parse_int 63 s ≡ up_to (2 ^ 63 - 1) ℤ.pos (digits_value 0 s)
unfolding parse_int digits_value
parse_int_of_digit [] h = cc
parse_int_of_digit (c ∷ s) h =
    let least : 48 ≤ c = digit_bounds c h in
    rw
      (
        ==_false c b'-' (λ e. omega (arith, least, e)),
        ==_false c b'+' (λ e. omega (arith, least, e)),
      )
      refl

int_or_of_digit :
    (default : ℤ) (s : Str) (n : ℕ)
    → starts_with_digit s ≡ true
    → digits_value 0 s ≡ some n
    → n < 2 ^ 63
    → atoi_or default s ≡ ℤ.pos n
int_or_of_digit default [] n h e small = cc
int_or_of_digit default (c ∷ s) n h e small = rw (parse_int_of_digit (c ∷ s) h, e) (ground arith)

-- A parameter that %d has printed.
pub atoi_or-format : (default : ℤ) (n : ℕ) → n < 2 ^ 63 → atoi_or default (format n) ≡ ℤ.pos n
unfolding format digits_value
atoi_or-format default n h =
    int_or_of_digit default (format_onto (n + 1) n []) n
      (starts_with_digit-format_onto (n + 1) n [] (omega arith))
      (digits_value-format_onto (n + 1) n [] (omega arith)) h

scanned :
    (s : Str) (n : ℕ)
    → scan_number (2 ^ 63) s ≡ some (n, [])
    → value_or (ℤ.pos 0) (scan_sign s) ≡ ℤ.pos n
scanned [] n h = cc
scanned (c ∷ s) n h = elim (Bool-cases (is_digit c)) [
  | inl digit ↦
      let least : 48 ≤ c = digit_bounds c digit in
      rw
        (
          ==_false c b'+' (λ e. omega (arith, least, e)),
          ==_false c b'-' (λ e. omega (arith, least, e)),
          h,
        )
        refl
  | inr other ↦ let bad = rw other at h in cc
]

-- A text that %d has printed.
pub sscanf_int-format : (n : ℕ) → n < 2 ^ 63 → sscanf_int (format n) ≡ ℤ.pos n
unfolding sscanf_int scan_uint
sscanf_int-format n h = scanned (skip_space (format n)) n (scan_uint-format_last 63 n h)
