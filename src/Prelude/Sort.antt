-- ===== src/Prelude/Sort.antt =====
-- Insertion sort by a Boolean test, stable, with its laws.
use mathlib.Core.Path.{◌≡◌, refl, ap, ◌∙◌}
use mathlib.Core.Logic.{inl, inr}
use mathlib.Core.Bool.{Bool, true, false}
use mathlib.Core.List.{List, [], ◌∷◌, Perm}
use mathlib.Core.List.Perm
use Prim.Native.Nat.{suc}
use garance.Prelude.Tests.{if◌then◌else◌, Bool-cases}
use garance.Prelude.Lists.{length, All, All-map}

module _ {ℓ} {A : Type ℓ} where
  unfoldable pub insert_by : (A → A → Bool) → A → List A → List A
  insert_by le r [] = r ∷ []
  insert_by le r (s ∷ rows) = if le r s then r ∷ s ∷ rows else s ∷ insert_by le r rows

  -- le a b says that a may stand before b.
  unfoldable pub sort_by : (A → A → Bool) → List A → List A
  unfolding insert_by
  sort_by le [] = []
  sort_by le (r ∷ rows) = insert_by le r (sort_by le rows)

  length-insert_by :
      (le : A → A → Bool) (r : A) (rows : List A) → length (insert_by le r rows) ≡ suc (length rows)
  unfolding insert_by
  length-insert_by le r [] = refl
  length-insert_by le r (s ∷ rows) = elim (Bool-cases (le r s)) [
    | inl before ↦ rw before refl
    | inr after ↦ rw after (ap suc (length-insert_by le r rows))
  ]

  pub length-sort_by : (le : A → A → Bool) (rows : List A) → length (sort_by le rows) ≡ length rows
  unfolding sort_by
  length-sort_by le [] = refl
  length-sort_by le (r ∷ rows) =
      length-insert_by le r (sort_by le rows) ∙ ap suc (length-sort_by le rows)

  insert_by-perm :
      (le : A → A → Bool) (r : A) (rows : List A) → Perm (insert_by le r rows) (r ∷ rows)
  unfolding insert_by
  insert_by-perm le r [] = Perm.rfl
  insert_by-perm le r (s ∷ rows) = elim (Bool-cases (le r s)) [
    | inl before ↦ rw before Perm.rfl
    | inr after ↦
        rw after (Perm.trans (Perm.cons s (insert_by-perm le r rows)) (Perm.swap r s rows))
  ]

  -- Sorting loses no row and adds none.
  pub sort_by-perm : (le : A → A → Bool) (rows : List A) → Perm (sort_by le rows) rows
  unfolding sort_by
  sort_by-perm le [] = Perm.rfl
  sort_by-perm le (r ∷ rows) =
      Perm.trans (insert_by-perm le r (sort_by le rows)) (Perm.cons r (sort_by-perm le rows))

module _ {ℓ} {A : Type ℓ} (P : A → Type 0) where
  insert_by-All :
      (le : A → A → Bool) (r : A) (rows : List A) → P r → All P rows → All P (insert_by le r rows)
  unfolding insert_by
  insert_by-All le r [] p h = (p, tt)
  insert_by-All le r (s ∷ rows) p h = elim (Bool-cases (le r s)) [
    | inl before ↦ rw before (p, h)
    | inr after ↦ rw after (h.0, insert_by-All le r rows p h.1)
  ]

  pub sort_by-All : (le : A → A → Bool) (rows : List A) → All P rows → All P (sort_by le rows)
  unfolding sort_by
  sort_by-All le [] h = tt
  sort_by-All le (r ∷ rows) h = insert_by-All le r (sort_by le rows) h.0 (sort_by-All le rows h.1)

module _ {ℓ} {A : Type ℓ} (le : A → A → Bool) where
  -- Each element may stand before all that follow it.
  abbrev pub IsSorted : List A → Type 0
  IsSorted [] = Unit
  IsSorted (r ∷ rows) = All (λ s. le r s ≡ true) rows × IsSorted rows

  module _ (total : (a b : A) → le a b ≡ false → le b a ≡ true)
      (trans : (a b c : A) → le a b ≡ true → le b c ≡ true → le a c ≡ true) where
    insert_by-IsSorted : (r : A) (rows : List A) → IsSorted rows → IsSorted (insert_by le r rows)
    unfolding insert_by
    insert_by-IsSorted r [] h = (tt, tt)
    insert_by-IsSorted r (s ∷ rows) h = elim (Bool-cases (le r s)) [
      | inl before ↦
          rw before ((before, All-map _ _ rows (λ x k. trans r s x before k) h.0), (h.0, h.1))
      | inr after ↦ rw after (
        insert_by-All (λ x. le s x ≡ true) le r rows (total r s after) h.0,
        insert_by-IsSorted r rows h.1,
      )
    ]

    -- Sorting sorts, for a total and transitive test.
    pub sort_by-IsSorted : (rows : List A) → IsSorted (sort_by le rows)
    unfolding sort_by
    sort_by-IsSorted [] = tt
    sort_by-IsSorted (r ∷ rows) = insert_by-IsSorted r (sort_by le rows) (sort_by-IsSorted rows)
