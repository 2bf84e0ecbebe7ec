-- ===== src/Sql/Lookup.antt =====
-- What a SELECT or a test of existence finds after each statement.
use garance.Prelude.{
  Bool, true, false, ◌&&◌, ◌||◌, List, [], ◌∷◌, ◌≡◌, ◌↔◌, refl, All, arith, inl, inr, Bool-cases,
  if◌then◌else◌, some, none,
}
use mathlib.Core.Option.{some-injective}
use garance.Sql.{exists, delete, update, select}

module _ {ℓ} {A : Type ℓ} where
  pub select-eq-some : (p : A → Bool) (rows : List A) {r : A} → select p rows ≡ some r → p r ≡ true
  unfolding select
  select-eq-some p [] e = cc
  select-eq-some p (r ∷ rows) {r = found} e = ground (arith, select-eq-some p rows {r = found})

  pub exists-of-select :
      (p : A → Bool) (rows : List A) {r : A} → select p rows ≡ some r → exists p rows ≡ true
  unfolding select exists
  exists-of-select p [] e = cc
  exists-of-select p (r ∷ rows) {r = found} e = ground (arith, exists-of-select p rows {r = found})

  -- SELECT finds a row exactly when one exists.
  pub select-eq-none_iff :
      (p : A → Bool) (rows : List A) → (select p rows ≡ none) ↔ (exists p rows ≡ false)
  unfolding select exists
  select-eq-none_iff p [] = (λ e. refl, λ e. refl)
  select-eq-none_iff p (r ∷ rows) = ground (arith, select-eq-none_iff p rows)

  -- After DELETE ... WHERE p nothing that satisfies p is found.
  pub exists-delete_self : (p : A → Bool) (rows : List A) → exists p (delete p rows) ≡ false
  unfolding exists delete
  exists-delete_self p [] = refl
  exists-delete_self p (r ∷ rows) = ground (arith, exists-delete_self p rows)

  -- A DELETE of rows none of which satisfies q does not change whether q is satisfied.
  pub exists-delete_disjoint :
      (p q : A → Bool) (rows : List A)
      → ((a : A) → q a ≡ true → p a ≡ false)
      → exists q (delete p rows) ≡ exists q rows
  unfolding exists delete
  exists-delete_disjoint p q [] h = refl
  exists-delete_disjoint p q (r ∷ rows) h = ground (arith, h r, exists-delete_disjoint p q rows h)

  -- An UPDATE that does not change whether a row satisfies q.
  pub exists-update :
      (p q : A → Bool) (f : A → A) (rows : List A)
      → ((a : A) → q (f a) ≡ q a)
      → exists q (update p f rows) ≡ exists q rows
  unfolding exists update
  exists-update p q f [] h = refl
  exists-update p q f (r ∷ rows) h = ground (arith, h r, exists-update p q f rows h)

  pub exists-of-All :
      (q : A → Bool) (rows : List A) → All (λ a. q a ≡ false) rows → exists q rows ≡ false
  unfolding exists
  exists-of-All q [] h = refl
  exists-of-All q (r ∷ rows) h = ground (arith, exists-of-All q rows h.1)

  -- A SELECT by q after an UPDATE ... WHERE p that keeps q finds the row as the UPDATE left it.
  pub select-update :
      (p q : A → Bool) (f : A → A) (rows : List A) {r : A}
      → ((a : A) → q (f a) ≡ q a)
      → select q rows ≡ some r
      → select q (update p f rows) ≡ some (if p r then f r else r)
  unfolding select update
  select-update p q f [] h e = cc
  select-update p q f (r ∷ rows) {r = found} h e =
      ground (arith, h r, select-update p q f rows {r = found} h)

  pub exists-cons :
      (p : A → Bool) (r : A) (rows : List A) → exists p rows ≡ true → exists p (r ∷ rows) ≡ true
  unfolding exists
  exists-cons p r rows h = ground arith

  -- A DELETE brings nothing about.
  pub exists-delete-false :
      (p q : A → Bool) (rows : List A) → exists q rows ≡ false → exists q (delete p rows) ≡ false
  unfolding exists delete
  exists-delete-false p q [] h = refl
  exists-delete-false p q (r ∷ rows) h = ground (arith, exists-delete-false p q rows)

  -- A row that is found and satisfies q shows that a row satisfies both conditions.
  pub exists-of-select_and :
      (p q : A → Bool) (rows : List A) {r : A}
      → select p rows ≡ some r
      → q r ≡ true
      → exists (λ s. p s && q s) rows ≡ true
  unfolding select exists
  exists-of-select_and p q [] e h = cc
  exists-of-select_and p q (r ∷ rows) {r = found} e h = elim (Bool-cases (p r)) [
    | inl t ↦ first (some-injective _ _ (rw (t, select) at e)) t
    | inr t ↦ rw t (exists-of-select_and p q rows {r = found} (rw (t, select) at e) h)
  ]
    where
      first : r ≡ found → p r ≡ true → (p r && q r) || exists (λ s. p s && q s) rows ≡ true
      first same t = rw (t, same, h) refl

  -- A DELETE brings nothing about.
  pub exists-of-delete :
      (p q : A → Bool) (rows : List A) → exists q (delete p rows) ≡ true → exists q rows ≡ true
  unfolding exists delete
  exists-of-delete p q [] h = h
  exists-of-delete p q (r ∷ rows) h = ground (arith, exists-of-delete p q rows)
