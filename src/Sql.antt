-- ===== src/Sql.antt =====
-- Tables and the SQL statements of the Go stores (services/auth/internal/store,
-- services/storage/internal/store): a table is the list of its rows, the newest first, a
-- condition is a Boolean test of a row.
pub mod Index
pub mod Lookup
pub mod Order
use garance.Prelude.{Bool, true, false, ◌||◌, List, [], ◌∷◌, Option, none, some, if◌then◌else◌}

module _ {ℓ} {A : Type ℓ} where
  -- SELECT ... WHERE p, scanned by QueryRow: the first row.
  unfoldable pub select : (A → Bool) → List A → Option A
  select p [] = none
  select p (r ∷ rows) = if p r then some r else select p rows

  -- Does a row satisfy p? So for a unique index, a foreign key, and RowsAffected() == 0.
  unfoldable pub exists : (A → Bool) → List A → Bool
  exists p [] = false
  exists p (r ∷ rows) = p r || exists p rows

  -- DELETE ... WHERE p
  unfoldable pub delete : (A → Bool) → List A → List A
  delete p [] = []
  delete p (r ∷ rows) = let rest = delete p rows in if p r then rest else r ∷ rest

  -- UPDATE ... SET f WHERE p
  unfoldable pub update : (A → Bool) → (A → A) → List A → List A
  update p f [] = []
  update p f (r ∷ rows) = (if p r then f r else r) ∷ update p f rows
