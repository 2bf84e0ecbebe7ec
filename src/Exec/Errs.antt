-- ===== src/Exec/Errs.antt =====
-- Which errors an action may return: those that wrap none of the sentinels outside a set, and no panic.
use garance.Prelude.{
  ℕ, Bool, true, false, List, [], ◌∷◌, ◌≡◌, refl, String, ◌==◌, nat_eq, if◌then◌else◌,
}
use garance.Errors.{Error, Sentinel, tag, errors_is}
use garance.Exec.{
  Result, World, Action, pure, raise, statement, call_at, call, continue, ◌>>=◌, handle, catch,
  wrapped, replace_error, draw,
}

-- The number of the sentinel that an error wraps, 24 where it wraps none.
abbrev pub root : Error → ℕ
root (Error.sentinel s) = tag s
root (Error.pg code) = 24
root (Error.failure message) = 24
root (Error.wrap message e) = root e

pub errors_is-root :
    (e : Error) (s : Sentinel) → (24 == tag s) ≡ false → errors_is e s ≡ (root e == tag s)
errors_is-root (Error.sentinel t) s h = refl
errors_is-root (Error.pg code) s h = rw h refl
errors_is-root (Error.failure message) s h = rw h refl
errors_is-root (Error.wrap message e) s h = errors_is-root e s h

-- The result is a value, or an error whose sentinel is in the set.
abbrev pub IsWithin : {A : Type 0} → (ℕ → Bool) → Result A → Type 0
IsWithin p (Result.ok a) = Unit
IsWithin p (Result.err e) = p (root e) ≡ true
IsWithin p Result.panic = ⊥

pub record Errs {D A : Type 0} (p : ℕ → Bool) (m : Action D A) : Type 0 where
  pub at : (w : World D) → IsWithin p (m w).0

module _ {D A : Type 0} {p : ℕ → Bool} where
  pub Errs-pure : (a : A) → Errs p (pure {D = D} a)
  Errs-pure a = record { at = λ w. tt }

  pub Errs-raise : (e : Error) → p (root e) ≡ true → Errs p (raise {D = D} {A = A} e)
  Errs-raise e h = record { at = λ w. h }

  pub Errs-if :
      (b : Bool) (m n : Action D A)
      → (b ≡ true → Errs p m)
      → (b ≡ false → Errs p n)
      → Errs p (if b then m else n)
  Errs-if true m n km kn = km refl
  Errs-if false m n km kn = kn refl

  Errs-call_at : (fs : List Bool) (m : Action D A) → p 24 ≡ true → Errs p m → Errs p (call_at fs m)
  Errs-call_at [] m anon k = k
  Errs-call_at (true ∷ fs) m anon k = record { at = λ w. anon }
  Errs-call_at (false ∷ fs) m anon k = record { at = λ w. k.at (record w { faults = fs }) }

  pub Errs-call : (m : Action D A) → p 24 ≡ true → Errs p m → Errs p (call m)
  unfolding call
  Errs-call m anon k = record { at = λ w. (Errs-call_at w.faults m anon k).at w }

  pub Errs-statement :
      (f : ℕ → D → Result A × D) → ((t : ℕ) (d : D) → IsWithin p (f t d).0) → Errs p (statement f)
  Errs-statement f k = record { at = λ w. k w.now w.db }

module _ {D A : Type 0} (p q : ℕ → Bool) where
  handle-IsWithin :
      (r : Result A) (h : Error → Action D A) (w : World D)
      → IsWithin p r
      → ((e : Error) → p (root e) ≡ true → Errs q (h e))
      → IsWithin q (handle r h w).0
  handle-IsWithin (Result.ok a) h w o k = tt
  handle-IsWithin (Result.err e) h w o k = (k e o).at w
  handle-IsWithin Result.panic h w o k = o

  pub Errs-catch :
      (m : Action D A) (h : Error → Action D A)
      → Errs p m
      → ((e : Error) → p (root e) ≡ true → Errs q (h e))
      → Errs q (catch m h)
  unfolding catch
  Errs-catch m h km kh = record { at = λ w. let (r, v) = m w in handle-IsWithin r h v (km.at w) kh }

module _ {D A : Type 0} {p : ℕ → Bool} where
  pub Errs-wrapped : (message : String) (m : Action D A) → Errs p m → Errs p (wrapped message m)
  unfolding wrapped
  Errs-wrapped message m k = Errs-catch p p m _ k λ e h. Errs-raise (Error.wrap message e) h

  -- pgx.ErrNoRows in place of which another sentinel is returned.
  pub Errs-replace_error :
      (e : Error) (s t : Sentinel)
      → (24 == tag s) ≡ false
      → ((root e == tag s) ≡ false → p (root e) ≡ true)
      → p (tag t) ≡ true
      → Errs p (replace_error {D = D} {A = A} s t e)
  Errs-replace_error e s t own other new =
      Errs-if (errors_is e s) _ _ (λ _. Errs-raise (Error.sentinel t) new)
        λ no. Errs-raise e (other (rw (← errors_is-root e s own) no))

module _ {D A B : Type 0} {p : ℕ → Bool} where
  continue-IsWithin :
      (r : Result A) (f : A → Action D B) (w : World D)
      → IsWithin p r
      → ((a : A) → Errs p (f a))
      → IsWithin p (continue r f w).0
  continue-IsWithin (Result.ok a) f w o k = (k a).at w
  continue-IsWithin (Result.err e) f w o k = o
  continue-IsWithin Result.panic f w o k = o

  pub Errs-bind :
      (m : Action D A) (f : A → Action D B) → Errs p m → ((a : A) → Errs p (f a)) → Errs p (m >>= f)
  unfolding ◌>>=◌
  Errs-bind m f km kf = record {
    at = λ w. let (r, v) = m w in continue-IsWithin r f v (km.at w) kf;
  }

module _ {D : Type 0} {p : ℕ → Bool} where
  pub Errs-draw : Errs p (draw {D = D})
  unfolding draw
  Errs-draw = record { at = λ w. tt }
