-- ===== src/Sql/Index.antt =====
-- Unique indexes and conditions on every row, under each statement.
use garance.Prelude.{
  Bool, false, List, [], ◌∷◌, ◌≡◌, ◌≢◌, sym, ◌∙◌, All, Eq, ◌==◌, inl, inr, Bool-cases, some,
}
use garance.Sql.{exists, delete, update, select}
use mathlib.Core.Path.{subst}
use mathlib.Core.Option.{some-injective}
use mathlib.Core.Bool.{false≢true}

module _ {ℓ κ} {A : Type ℓ} {K : Type κ} (key : A → K) where
  -- UNIQUE (key): no two rows have the same key.
  abbrev pub IsUnique : List A → Type κ
  IsUnique [] = Unit
  IsUnique (r ∷ rows) = All (λ s. key s ≢ key r) rows × IsUnique rows

module _ {ℓ κ} {A : Type ℓ} (P : A → Type κ) where
  pub All-delete : (p : A → Bool) (rows : List A) → All P rows → All P (delete p rows)
  unfolding delete
  All-delete p [] h = tt
  All-delete p (r ∷ rows) h = elim (Bool-cases (p r)) [
    | inl e ↦ rw e (All-delete p rows h.1)
    | inr e ↦ rw e (h.0, All-delete p rows h.1)
  ]

  pub All-update :
      (p : A → Bool) (f : A → A) (rows : List A)
      → ((a : A) → P a → P (f a))
      → All P rows
      → All P (update p f rows)
  unfolding update
  All-update p f [] k h = tt
  All-update p f (r ∷ rows) k h = elim (Bool-cases (p r)) [
    | inl e ↦ rw e (k r h.0, All-update p f rows k h.1)
    | inr e ↦ rw e (h.0, All-update p f rows k h.1)
  ]

  -- A row that is found satisfies what all rows satisfy.
  pub All-select :
      (p : A → Bool) (rows : List A) {r : A} → All P rows → select p rows ≡ some r → P r
  unfolding select
  All-select p [] h e = cc
  All-select p (r ∷ rows) h e = elim (Bool-cases (p r)) [
    | inl t ↦ subst P (some-injective _ _ (rw (t, select) at e)) h.0
    | inr t ↦ All-select p rows h.1 (rw (t, select) at e)
  ]

module _ {ℓ κ} {A : Type ℓ} {K : Type κ} (key : A → K) where
  pub IsUnique-delete :
      (p : A → Bool) (rows : List A) → IsUnique key rows → IsUnique key (delete p rows)
  unfolding delete
  IsUnique-delete p [] h = tt
  IsUnique-delete p (r ∷ rows) h = elim (Bool-cases (p r)) [
    | inl e ↦ rw e (IsUnique-delete p rows h.1)
    | inr e ↦ rw e (All-delete (λ s. key s ≢ key r) p rows h.0, IsUnique-delete p rows h.1)
  ]

  -- An UPDATE that leaves the key alone.
  pub IsUnique-update :
      (p : A → Bool) (f : A → A) (rows : List A)
      → ((a : A) → key (f a) ≡ key a)
      → IsUnique key rows
      → IsUnique key (update p f rows)
  unfolding update
  IsUnique-update p f [] k h = tt
  IsUnique-update p f (r ∷ rows) k h = elim (Bool-cases (p r)) [
    | inl e ↦
        rw (e, k r)
          (
            All-update (λ s. key s ≢ key r) p f rows (λ a n. rw (k a) n) h.0,
            IsUnique-update p f rows k h.1,
          )
    | inr e ↦ rw e (
      All-update (λ s. key s ≢ key r) p f rows (λ a n. rw (k a) n) h.0,
      IsUnique-update p f rows k h.1,
    )
  ]

module _ {ℓ κ} {A : Type ℓ} {K : Type κ} ⦃e : Eq K⦄ (key : A → K) where
  -- A key that the index does not hold is held by no row.
  pub All-ne_of_exists :
      (k : K) (rows : List A) → exists (λ r. key r == k) rows ≡ false → All (λ r. key r ≢ k) rows
  unfolding exists
  All-ne_of_exists k [] h = tt
  All-ne_of_exists k (r ∷ rows) h = elim (Bool-cases (key r == k)) [
    | inl t ↦ absurd (false≢true (sym (rw (t, exists) at h)))
    | inr t ↦ (
      λ same. false≢true (sym t ∙ (e.beq_iff (key r) k).1 same),
      All-ne_of_exists k rows (rw (t, exists) at h),
    )
  ]

-- What DELETE leaves satisfies what follows from the failed condition.
pub All-delete_of {ℓ κ μ} :
    {A : Type ℓ} (P : A → Type κ) (Q : A → Type μ) (p : A → Bool) (rows : List A)
    → ((a : A) → p a ≡ false → P a → Q a)
    → All P rows
    → All Q (delete p rows)
unfolding delete
All-delete_of P Q p [] k h = tt
All-delete_of P Q p (r ∷ rows) k h = elim (Bool-cases (p r)) [
  | inl e ↦ rw e (All-delete_of P Q p rows k h.1)
  | inr e ↦ rw e (k r e h.0, All-delete_of P Q p rows k h.1)
]
