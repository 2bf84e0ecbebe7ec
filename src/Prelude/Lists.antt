-- ===== src/Prelude/Lists.antt =====
-- Lists measured by native numbers, and the predicate that holds of every element.
use Prim.Native.Nat.{ℕ, zero, suc, ◌+◌}
use mathlib.Core.Path.{◌≡◌, refl, ap}
use mathlib.Core.List.{List, [], ◌∷◌, ◌++◌}
use native.Mathlib.Omega.{arith}

module _ {ℓ} {A : Type ℓ} where
  abbrev pub length : List A → ℕ
  length [] = 0
  length (x ∷ xs) = suc (length xs)

  abbrev pub take : ℕ → List A → List A
  take zero xs = []
  take (suc n) [] = []
  take (suc n) (x ∷ xs) = x ∷ take n xs

  abbrev pub drop : ℕ → List A → List A
  drop zero xs = xs
  drop (suc n) [] = []
  drop (suc n) (x ∷ xs) = drop n xs

  pub length-append : (xs ys : List A) → length (xs ++ ys) ≡ length xs + length ys
  length-append [] ys = omega arith
  length-append (x ∷ xs) ys = omega (arith, length-append xs ys)

-- Every element satisfies P.
abbrev pub All {ℓ κ} : {A : Type ℓ} (P : A → Type κ) → List A → Type κ
All P [] = Unit
All P (a ∷ rows) = P a × All P rows

module _ {ℓ κ} {A : Type ℓ} (P : A → Type κ) where
  pub All-map {μ} :
      (Q : A → Type μ) (rows : List A) → ((a : A) → P a → Q a) → All P rows → All Q rows
  All-map Q [] f h = tt
  All-map Q (a ∷ rows) f h = (f a h.0, All-map Q rows f h.1)

  pub All-append : (s t : List A) → All P s → All P t → All P (s ++ t)
  All-append [] t h k = k
  All-append (a ∷ s) t h k = (h.0, All-append s t h.1 k)

module _ {ℓ} {A : Type ℓ} where
  pub take-append : (xs ys : List A) {n : ℕ} → length xs ≡ n → take n (xs ++ ys) ≡ xs
  take-append [] ys {n} h = rw (← h)
  take-append (x ∷ xs) ys {n} h = rw (← h) (ap (◌∷◌ x) (take-append xs ys refl))

  pub drop-append : (xs ys : List A) {n : ℕ} → length xs ≡ n → drop n (xs ++ ys) ≡ ys
  drop-append [] ys {n} h = rw (← h)
  drop-append (x ∷ xs) ys {n} h = rw (← h) (drop-append xs ys refl)
