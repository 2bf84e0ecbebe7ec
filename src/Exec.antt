-- ===== src/Exec.antt =====
-- How the Go services run: a call returns a value, an error or a panic, and leaves the world
-- changed in each case. `D` is the content of the service's database.
pub mod Keeps
pub mod Runs
pub mod Yields
pub mod Ends
pub mod Errs
pub mod Quiet
use garance.Prelude.{
  ℕ, zero, suc, ◌+◌, ◌%◌, Bool, true, false, List, [], ◌∷◌, Str, String, take, if◌then◌else◌,
}
use garance.Errors.{Error, Sentinel, errors_is}

pub data Result {ℓ} (A : Type ℓ) : Type ℓ where
  ok : A → Result A
  err : Error → Result A
  -- a nil dereference, which net/http recovers from at the top of the handler
  panic : Result A

pub record World {ℓ} (D : Type ℓ) : Type ℓ where
  pub db : D
  -- Which of the calls of the database, of other services and of the random source still to come
  -- fail; when the list has run out, none does.
  pub faults : List Bool
  -- now(), in seconds
  pub now : ℕ
  -- the random source, and how much of it has been used
  pub entropy : ℕ → ℕ
  pub drawn : ℕ

abbrev pub Action {ℓ} : Type ℓ → Type ℓ → Type ℓ
Action D A = World D → Result A × World D

module _ {ℓ} {D A : Type ℓ} where
  abbrev pub pure : A → Action D A
  pure a w = (Result.ok a, w)

  abbrev pub raise : Error → Action D A
  raise e w = (Result.err e, w)

  abbrev pub fail : Sentinel → Action D A
  fail s w = (Result.err (Error.sentinel s), w)

  abbrev pub crash : Action D A
  crash w = (Result.panic, w)

  abbrev pub lift : Result A → Action D A
  lift r w = (r, w)

  -- One SQL statement, at the time that now() reads.
  abbrev pub statement : (ℕ → D → Result A × D) → Action D A
  statement f w = let (r, d) = f w.now w.db in (r, record w { db = d })

  abbrev pub call_at : List Bool → Action D A → Action D A
  call_at [] m w = m w
  call_at (true ∷ fs) m w = (Result.err (Error.failure "call failed"), record w { faults = fs })
  call_at (false ∷ fs) m w = m (record w { faults = fs })

  -- A call that leaves the process, and that may fail before it has any effect.
  unfoldable pub call : Action D A → Action D A
  call m w = call_at w.faults m w

module _ {ℓ} {D A B : Type ℓ} where
  abbrev pub continue : Result A → (A → Action D B) → Action D B
  continue (Result.ok a) f w = f a w
  continue (Result.err e) f w = (Result.err e, w)
  continue Result.panic f w = (Result.panic, w)

  infixl 10 ◌>>=◌ ◌>>◌
  unfoldable pub ◌>>=◌ : Action D A → (A → Action D B) → Action D B
  ◌>>=◌ m f w = let (r, w') = m w in continue r f w'

  abbrev pub ◌>>◌ : Action D A → Action D B → Action D B
  m >> k = m >>= λ _. k

module _ {ℓ} {D A B : Type ℓ} where
  abbrev pub branch_on : Result A → (Error → Action D B) → (A → Action D B) → Action D B
  branch_on (Result.ok a) h k w = k a w
  branch_on (Result.err e) h k w = h e w
  branch_on Result.panic h k w = (Result.panic, w)

  -- `a, err := m; if err != nil { return h }; k`
  unfoldable pub either : Action D A → (Error → Action D B) → (A → Action D B) → Action D B
  either m h k w = let (r, w') = m w in branch_on r h k w'

module _ {ℓ} {D A : Type ℓ} where
  abbrev pub handle : Result A → (Error → Action D A) → Action D A
  handle (Result.ok a) h w = (Result.ok a, w)
  handle (Result.err e) h w = h e w
  handle Result.panic h w = (Result.panic, w)

  -- `if err != nil { ... }`
  unfoldable pub catch : Action D A → (Error → Action D A) → Action D A
  catch m h w = let (r, w') = m w in handle r h w'

  -- `if errors.Is(err, s) { return ..., t }`
  abbrev pub replace_error : Sentinel → Sentinel → Error → Action D A
  replace_error s t e = if errors_is e s then fail t else raise e

module _ {D A : Type 0} where
  -- A call whose result and error are both dropped.
  unfoldable pub ignore : Action D A → Action D (Unit {0})
  unfolding ◌>>=◌ catch
  ignore m = catch (m >> pure tt) λ e. pure tt

module _ {D : Type 0} where
  -- One number of the random source: what gen_random_uuid() gives a row.
  unfoldable pub draw : Action D ℕ
  draw w = (Result.ok (w.entropy w.drawn), record w { drawn = w.drawn + 1 })

module _ {D : Type 0} where
  -- time.Now()
  abbrev pub read_clock : Action D ℕ
  read_clock w = (Result.ok w.now, w)

module _ {D A : Type 0} where
  -- `if err != nil { return fmt.Errorf("message: %w", err) }`
  unfoldable pub wrapped : String → Action D A → Action D A
  unfolding catch
  wrapped message m = catch m λ e. raise (Error.wrap message e)

-- That many bytes of the random source, from a place in it.
abbrev pub bytes_from : (ℕ → ℕ) → ℕ → ℕ → Str
bytes_from e i zero = []
bytes_from e i (suc n) = e i % 256 ∷ bytes_from e (i + 1) n

module _ {D : Type 0} where
  -- rand.Read into a buffer of n bytes
  unfoldable pub random_bytes : ℕ → Action D Str
  unfolding call
  random_bytes n =
      call λ w. (Result.ok (bytes_from w.entropy w.drawn n), record w { drawn = w.drawn + n })

module _ {D A : Type 0} where
  abbrev pub read_rows_at : List Bool → List A → Action D (List A)
  read_rows_at [] rows w = (Result.ok rows, w)
  read_rows_at (false ∷ fs) rows w = (Result.ok rows, record w { faults = fs })
  read_rows_at (true ∷ fs) rows w =
      (Result.ok (take (w.entropy w.drawn) rows), record w { faults = fs; drawn = w.drawn + 1 })

  -- `for rows.Next() { ... append ... }; return rows, nil`: the loop also ends where the connection
  -- is lost after some rows, since the code does not look at rows.Err().
  unfoldable pub read_rows : List A → Action D (List A)
  read_rows rows w = read_rows_at w.faults rows w
