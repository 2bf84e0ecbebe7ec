-- ===== src/Sql/Order/Pages.antt =====
-- LIMIT and OFFSET cut pages out of one list, and LIKE with a plain prefix tests for it.
use garance.Prelude.{
  ℕ, zero, suc, ◌+◌, ◌≤◌, ◌≡◌, ◌≢◌, refl, ap, ◌∙◌, sym, Bool, true, false, ◌&&◌, List, [], ◌∷◌,
  ◌++◌, Str, ◌==◌, nat_eq, ==_false, take, drop, length, All, Bool-cases, inl, inr, arith,
}
use garance.Sql.Order.{select_all, some_suffix, one_more, like}

module _ {ℓ} {A : Type ℓ} where
  pub length-take : (n : ℕ) (xs : List A) → length (take n xs) ≤ n
  length-take zero xs = omega arith
  length-take (suc n) [] = omega arith
  length-take (suc n) (x ∷ xs) = omega (arith, length-take n xs)

  take_empty : (n : ℕ) → Path (List A) [] (take n [])
  take_empty zero = refl
  take_empty (suc n) = refl

  pub length-take_le : (n : ℕ) (xs : List A) → length (take n xs) ≤ length xs
  length-take_le zero xs = omega arith
  length-take_le (suc n) [] = omega arith
  length-take_le (suc n) (x ∷ xs) = omega (arith, length-take_le n xs)

  drop_empty : (n : ℕ) → Path (List A) (drop n []) []
  drop_empty zero = refl
  drop_empty (suc n) = refl

  -- A page and the next one are one longer page.
  pub take-append_drop : (n m : ℕ) (xs : List A) → take n xs ++ take m (drop n xs) ≡ take (n + m) xs
  take-append_drop zero m xs = let sum : m ≡ zero + m = omega arith in ap (λ k. take k xs) sum
  take-append_drop (suc n) m [] = sym (take_empty m) ∙ take_empty (suc n + m)
  take-append_drop (suc n) m (x ∷ xs) =
      let sum : suc (n + m) ≡ suc n + m = omega arith in
      ap (λ ys. x ∷ ys) (take-append_drop n m xs) ∙ ap (λ k. take k (x ∷ xs)) sum

  pub drop-drop : (n m : ℕ) (xs : List A) → drop n (drop m xs) ≡ drop (m + n) xs
  drop-drop n zero xs = let sum : n ≡ zero + n = omega arith in ap (λ k. drop k xs) sum
  drop-drop n (suc m) [] = drop_empty n ∙ sym (drop_empty (suc m + n))
  drop-drop n (suc m) (x ∷ xs) =
      let sum : suc (m + n) ≡ suc m + n = omega arith in
      drop-drop n m xs ∙ ap (λ k. drop k (x ∷ xs)) sum

  pub take_all : (n : ℕ) (xs : List A) → length xs ≤ n → take n xs ≡ xs
  take_all zero [] h = refl
  take_all zero (x ∷ xs) h = absurd (omega (arith, h))
  take_all (suc n) [] h = refl
  take_all (suc n) (x ∷ xs) h = ap (λ ys. x ∷ ys) (take_all n xs (omega (arith, h)))

module _ {ℓ} {A : Type ℓ} (P : A → Type 0) where
  pub take-All : (n : ℕ) (xs : List A) → All P xs → All P (take n xs)
  take-All zero xs h = tt
  take-All (suc n) [] h = tt
  take-All (suc n) (x ∷ xs) h = (h.0, take-All n xs h.1)

  pub drop-All : (n : ℕ) (xs : List A) → All P xs → All P (drop n xs)
  drop-All zero xs h = h
  drop-All (suc n) [] h = tt
  drop-All (suc n) (x ∷ xs) h = drop-All n xs h.1

  pub select_all-All :
      (p : A → Bool) (rows : List A) → ((r : A) → p r ≡ true → P r) → All P (select_all p rows)
  unfolding select_all
  select_all-All p [] f = tt
  select_all-All p (r ∷ rows) f = elim (Bool-cases (p r)) [
    | inl yes_row ↦ rw yes_row (f r yes_row, select_all-All p rows f)
    | inr other ↦ rw other (select_all-All p rows f)
  ]

abbrev pub starts_with : Str → Str → Bool
starts_with [] s = true
starts_with (c ∷ prefix) [] = false
starts_with (c ∷ prefix) (d ∷ s) = d == c && starts_with prefix s

-- A character that LIKE takes for itself.
abbrev pub IsLiteral : ℕ → Type 0
IsLiteral c = (c ≢ b'%') × (c ≢ b'_') × (c ≢ 0x5C)

some_suffix-empty : (s : Str) → some_suffix (like false []) s ≡ true
unfolding some_suffix like
some_suffix-empty [] = refl
some_suffix-empty (c ∷ s) = some_suffix-empty s

like-step :
    (c : ℕ) (prefix name : Str)
    → ((rest : Str) → like false (prefix ++ b'%' ∷ []) rest ≡ starts_with prefix rest)
    → one_more (λ d. d == c) (like false (prefix ++ b'%' ∷ [])) name ≡ starts_with (c ∷ prefix) name
like-step c prefix [] ih = refl
like-step c prefix (d ∷ name) ih = ap (λ b. d == c && b) (ih name)

-- name LIKE prefix || '%' holds of the names that start with the prefix, if it has no character
-- that LIKE reads otherwise.
pub like-prefix :
    (prefix name : Str)
    → All IsLiteral prefix
    → like false (prefix ++ b'%' ∷ []) name ≡ starts_with prefix name
unfolding like
like-prefix [] name h = some_suffix-empty name
like-prefix (c ∷ prefix) name h =
    rw (==_false c b'%' h.0.0, ==_false c b'_' h.0.1, ==_false c 0x5C h.0.2)
      (like-step c prefix name (λ rest. like-prefix prefix rest h.1))
