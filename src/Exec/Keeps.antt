-- ===== src/Exec/Keeps.antt =====
-- Invariants of the database under an action, one rule for each way to build an action.
use garance.Prelude.{String, ℕ, Bool, true, false, List, [], ◌∷◌, if◌then◌else◌}
use garance.Errors.{Error, Sentinel, errors_is}
use garance.Exec.{
  Result, World, Action, pure, raise, fail, crash, lift, statement, call_at, call, continue, ◌>>=◌,
  handle, catch, branch_on, either, wrapped, read_clock, replace_error, ignore, draw, random_bytes,
}

-- Whether `m` returns, fails or panics, the database that it leaves satisfies P.
pub record Keeps {D : Type 0} {A : Type 0} (P : D → Type 0) (m : Action D A) : Type 0 where
  pub at : (w : World D) → P w.db → P (m w).1.db

module _ {D A : Type 0} {P : D → Type 0} where
  pub Keeps-pure : (a : A) → Keeps P (pure a)
  Keeps-pure a = record { at = λ w h. h }

  pub Keeps-raise : (e : Error) → Keeps P (raise {A = A} e)
  Keeps-raise e = record { at = λ w h. h }

  pub Keeps-fail : (s : Sentinel) → Keeps P (fail {A = A} s)
  Keeps-fail s = record { at = λ w h. h }

  pub Keeps-crash : Keeps P (crash {A = A})
  Keeps-crash = record { at = λ w h. h }

  pub Keeps-lift : (r : Result A) → Keeps P (lift r)
  Keeps-lift r = record { at = λ w h. h }

  pub Keeps-statement :
      (f : ℕ → D → Result A × D) → ((t : ℕ) (d : D) → P d → P (f t d).1) → Keeps P (statement f)
  Keeps-statement f k = record { at = λ w h. k w.now w.db h }

  Keeps-call_at : (fs : List Bool) (m : Action D A) → Keeps P m → Keeps P (call_at fs m)
  Keeps-call_at [] m k = k
  Keeps-call_at (true ∷ fs) m k = record { at = λ w h. h }
  Keeps-call_at (false ∷ fs) m k = record { at = λ w h. k.at (record w { faults = fs }) h }

  pub Keeps-call : (m : Action D A) → Keeps P m → Keeps P (call m)
  unfolding call
  Keeps-call m k = record { at = λ w h. (Keeps-call_at w.faults m k).at w h }

  pub Keeps-if :
      (b : Bool) (m n : Action D A) → Keeps P m → Keeps P n → Keeps P (if b then m else n)
  Keeps-if true m n km kn = km
  Keeps-if false m n km kn = kn

  Keeps-handle :
      (r : Result A) (h : Error → Action D A) → ((e : Error) → Keeps P (h e)) → Keeps P (handle r h)
  Keeps-handle (Result.ok a) h k = Keeps-pure a
  Keeps-handle (Result.err e) h k = record { at = (k e).at }
  Keeps-handle Result.panic h k = Keeps-crash

  pub Keeps-catch :
      (m : Action D A) (h : Error → Action D A)
      → Keeps P m
      → ((e : Error) → Keeps P (h e))
      → Keeps P (catch m h)
  unfolding catch
  Keeps-catch m h km kh = record {
    at = λ w p. let (r, w') = m w in (Keeps-handle r h kh).at w' (km.at w p);
  }

  -- One statement that leaves the process.
  pub Keeps-send :
      (f : ℕ → D → Result A × D)
      → ((t : ℕ) (d : D) → P d → P (f t d).1)
      → Keeps P (call (statement f))
  Keeps-send f k = Keeps-call (statement f) (Keeps-statement f k)

  pub Keeps-replace_error : (s t : Sentinel) (e : Error) → Keeps P (replace_error {A = A} s t e)
  Keeps-replace_error s t e =
      Keeps-if (errors_is e s) (fail t) (raise e) (Keeps-fail t) (Keeps-raise e)

module _ {D : Type 0} {P : D → Type 0} where
  pub Keeps-draw : Keeps P (draw {D = D})
  unfolding draw
  Keeps-draw = record { at = λ w h. h }

  pub Keeps-read_clock : Keeps P (read_clock {D = D})
  Keeps-read_clock = record { at = λ w h. h }

  pub Keeps-random_bytes : (n : ℕ) → Keeps P (random_bytes {D = D} n)
  unfolding random_bytes
  Keeps-random_bytes n = Keeps-call _ (record { at = λ w h. h })

module _ {D A B : Type 0} {P : D → Type 0} where
  Keeps-continue :
      (r : Result A) (f : A → Action D B) → ((a : A) → Keeps P (f a)) → Keeps P (continue r f)
  Keeps-continue (Result.ok a) f k = record { at = (k a).at }
  Keeps-continue (Result.err e) f k = record { at = λ w h. h }
  Keeps-continue Result.panic f k = record { at = λ w h. h }

  pub Keeps-bind :
      (m : Action D A) (next : A → Action D B)
      → Keeps P m
      → ((a : A) → Keeps P (next a))
      → Keeps P (m >>= next)
  unfolding ◌>>=◌
  Keeps-bind m next first rest = record {
    at = λ w p. let (r, v) = m w in (Keeps-continue r next rest).at v (first.at w p);
  }

  Keeps-branch_on :
      (r : Result A) (h : Error → Action D B) (k : A → Action D B)
      → ((e : Error) → Keeps P (h e))
      → ((a : A) → Keeps P (k a))
      → Keeps P (branch_on r h k)
  Keeps-branch_on (Result.ok a) h k kh kk = record { at = (kk a).at }
  Keeps-branch_on (Result.err e) h k kh kk = record { at = (kh e).at }
  Keeps-branch_on Result.panic h k kh kk = record { at = λ w h. h }

  pub Keeps-either :
      (m : Action D A) (h : Error → Action D B) (k : A → Action D B)
      → Keeps P m
      → ((e : Error) → Keeps P (h e))
      → ((a : A) → Keeps P (k a))
      → Keeps P (either m h k)
  unfolding either
  Keeps-either m h k km kh kk = record {
    at = λ w p. let (r, w') = m w in (Keeps-branch_on r h k kh kk).at w' (km.at w p);
  }

module _ {D A : Type 0} {P : D → Type 0} where
  pub Keeps-wrapped : (message : String) (m : Action D A) → Keeps P m → Keeps P (wrapped message m)
  unfolding wrapped
  Keeps-wrapped message m k = Keeps-catch m _ k (λ e. Keeps-raise (Error.wrap message e))

  pub Keeps-ignore : (m : Action D A) → Keeps P m → Keeps P (ignore m)
  unfolding ignore
  Keeps-ignore m k =
      Keeps-catch (m >>= λ _. pure tt) (λ e. pure tt)
        (Keeps-bind m (λ _. pure tt) k (λ _. Keeps-pure tt)) (λ e. Keeps-pure tt)

module _ {D A : Type 0} {P : D → Type 0} where
  -- An INSERT with a fresh uuid, whose error is looked at.
  pub Keeps-insert :
      (f : ℕ → ℕ → D → Result A × D)
      → ((id t : ℕ) (d : D) → P d → P (f id t d).1)
      → Keeps P (call (draw >>= λ id. statement (f id)))
  Keeps-insert f k =
      Keeps-call _
        (Keeps-bind draw (λ id. statement (f id)) Keeps-draw λ id. Keeps-statement (f id) (k id))

pub ruleset keeps_rules = (
  Keeps-pure, Keeps-raise, Keeps-fail, Keeps-crash, Keeps-lift, Keeps-call, Keeps-if, Keeps-catch,
  Keeps-draw, Keeps-read_clock, Keeps-random_bytes, Keeps-either, Keeps-wrapped, Keeps-bind,
  Keeps-ignore, Keeps-replace_error,
)
