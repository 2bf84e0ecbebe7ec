-- ===== src/Sql/Order.antt =====
-- SELECT of all rows with a condition, LIMIT and OFFSET, and LIKE. ORDER BY is sort_by of
-- Prelude; which of two equal rows stands first is the database's choice, and here the table's order.
pub mod Pages
use garance.Prelude.{
  ℕ, Bool, true, false, ◌||◌, ◌&&◌, List, [], ◌∷◌, Str, ◌==◌, nat_eq, if◌then◌else◌, take, drop,
}
use garance.Errors.{Error}
use garance.Exec.{Result}
use garance.Encoding.Integer.{ℤ}

module _ {ℓ} {A : Type ℓ} where
  -- WHERE p
  unfoldable pub select_all : (A → Bool) → List A → List A
  select_all p [] = []
  select_all p (r ∷ rows) = let rest = select_all p rows in if p r then r ∷ rest else rest

  -- LIMIT and OFFSET, which may not be negative.
  abbrev pub limit_offset : ℤ → ℤ → List A → Result (List A)
  limit_offset (ℤ.pos n) (ℤ.pos m) rows = Result.ok (take n (drop m rows))
  limit_offset (ℤ.pos n) (ℤ.negsuc m) rows = Result.err (Error.pg "2201X")
  limit_offset (ℤ.negsuc n) m rows = Result.err (Error.pg "2201W")

-- Does the test hold of the text without some of its first characters?
unfoldable pub some_suffix : (Str → Bool) → Str → Bool
some_suffix f [] = f []
some_suffix f (c ∷ s) = f (c ∷ s) || some_suffix f s

-- The next character of the text, and the rest of the pattern.
abbrev one_more : (ℕ → Bool) → (Str → Bool) → Str → Bool
one_more p f [] = false
one_more p f (c ∷ s) = p c && f s

abbrev is_empty : Str → Bool
is_empty [] = true
is_empty (_ ∷ _) = false

-- name LIKE pattern, on ASCII texts: `%` stands for any text, `_` for a character, and `\` takes the
-- meaning from the character after it; the flag says that a `\` was read.
unfoldable pub like : Bool → Str → Str → Bool
unfolding some_suffix
like escaped [] s = is_empty s
like true (c ∷ pattern) s = one_more (λ d. d == c) (like false pattern) s
like false (c ∷ pattern) s =
    let rest = like false pattern in
    let literal = like true pattern s in
    if c == b'%'
    then some_suffix rest s
    else if c == b'_'
    then one_more (λ d. true) rest s
    else if c == 0x5C
    then literal
    else one_more (λ d. d == c) rest s
