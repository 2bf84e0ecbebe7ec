-- ===== src/Exec/Runs.antt =====
-- Runs in which no call fails, and the bytes that are drawn.
use garance.Prelude.{ℕ, zero, suc, ◌+◌, ◌<◌, ◌≡◌, refl, [], All, length, arith}
use garance.Exec.{Action, World, call, bytes_from}

module _ {D A : Type 0} where
  -- With no fault left a call is its effect.
  pub call_lem : (m : Action D A) (w : World D) → w.faults ≡ [] → call m w ≡ m w
  unfolding call
  call_lem m w h = rw h

pub bytes_from-All : (e : ℕ → ℕ) (i n : ℕ) → All (λ b. b < 256) (bytes_from e i n)
bytes_from-All e i zero = tt
bytes_from-All e i (suc n) = (omega arith, bytes_from-All e (i + 1) n)

pub length-bytes_from : (e : ℕ → ℕ) (i n : ℕ) → length (bytes_from e i n) ≡ n
length-bytes_from e i zero = refl
length-bytes_from e i (suc n) = omega (arith, length-bytes_from e (i + 1) n)
