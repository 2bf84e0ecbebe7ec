-- ===== src/Encoding/Split.antt =====
-- strings.Split by one byte
use garance.Prelude.{
  ℕ, ◌≡◌, ◌≢◌, refl, Str, List, [], ◌∷◌, ◌++◌, All, arith, ◌==◌, nat_eq, nat_beq_iff, if◌then◌else◌,
}

abbrev prepend : ℕ → List Str → List Str
prepend c [] = (c ∷ []) ∷ []
prepend c (part ∷ parts) = (c ∷ part) ∷ parts

unfoldable pub split : ℕ → Str → List Str
split sep [] = [] ∷ []
split sep (c ∷ s) = let rest = split sep s in if c == sep then [] ∷ rest else prepend c rest

-- A part without the separator, the separator, and what follows.
pub split-append :
    (sep : ℕ) (part rest : Str)
    → All (λ c. c ≢ sep) part
    → split sep (part ++ sep ∷ rest) ≡ part ∷ split sep rest
unfolding split
split-append sep [] rest h = ground (arith, nat_beq_iff sep sep)
split-append sep (c ∷ part) rest h =
    ground (arith, nat_beq_iff c sep, split-append sep part rest h.1)

pub split-last : (sep : ℕ) (part : Str) → All (λ c. c ≢ sep) part → split sep part ≡ part ∷ []
unfolding split
split-last sep [] h = refl
split-last sep (c ∷ part) h = ground (arith, nat_beq_iff c sep, split-last sep part h.1)

prepend-ne-nil : (c : ℕ) (parts : List Str) → prepend c parts ≢ []
prepend-ne-nil c [] e = cc
prepend-ne-nil c (part ∷ parts) e = cc

-- There is always a last part.
pub split-ne-nil : (sep : ℕ) (s : Str) → split sep s ≢ []
unfolding split
split-ne-nil sep [] e = cc
split-ne-nil sep (c ∷ s) e = ground (arith, prepend-ne-nil c (split sep s))
