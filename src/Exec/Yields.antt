-- ===== src/Exec/Yields.antt =====
-- What an action has done where it returns a value: a precondition and a postcondition over the
-- time and the database.
use garance.Prelude.{ℕ, Bool, true, false, List, [], ◌∷◌, ◌≡◌, refl, String, if◌then◌else◌}
use mathlib.Core.Path.{subst}
use garance.Errors.{Error, Sentinel, errors_is}
use garance.Exec.{
  Result, World, Action, pure, raise, fail, crash, lift, statement, call_at, call, continue, ◌>>=◌,
  handle, catch, branch_on, either, wrapped, replace_error, ignore, draw, random_bytes,
}
use garance.Exec.Keeps.{Keeps}

pub record Yields {D A : Type 0} (P : ℕ → D → Type 0) (m : Action D A) (Q : A → ℕ → D → Type 0)
    : Type 0 where
  pub at : (w : World D) (a : A) → P w.now w.db → (m w).0 ≡ Result.ok a → Q a (m w).1.now (m w).1.db

pub ok-injective : {A : Type 0} {a b : A} → Result.ok a ≡ Result.ok b → a ≡ b
ok-injective e = cc

module _ {D A : Type 0} {Q : A → ℕ → D → Type 0} where
  Yields-handle :
      (r : Result A) (h : Error → Action D A) (w : World D) (a : A)
      → ((a : A) → r ≡ Result.ok a → Q a w.now w.db)
      → ((e : Error) → Yields (λ _ _. Unit) (h e) Q)
      → (handle r h w).0 ≡ Result.ok a
      → Q a (handle r h w).1.now (handle r h w).1.db
  Yields-handle (Result.ok b) h w a q k e = q a e
  Yields-handle (Result.err x) h w a q k e = (k x).at w a tt e
  Yields-handle Result.panic h w a q k e = cc

module _ {D A B : Type 0} {R : A → ℕ → D → Type 0} {Q : B → ℕ → D → Type 0} where
  Yields-continue :
      (r : Result A) (f : A → Action D B) (w : World D) (b : B)
      → ((a : A) → r ≡ Result.ok a → R a w.now w.db)
      → ((a : A) → Yields (R a) (f a) Q)
      → (continue r f w).0 ≡ Result.ok b
      → Q b (continue r f w).1.now (continue r f w).1.db
  Yields-continue (Result.ok a) f w b q k e = (k a).at w b (q a refl) e
  Yields-continue (Result.err x) f w b q k e = cc
  Yields-continue Result.panic f w b q k e = cc

  Yields-branch_on :
      (r : Result A) (h : Error → Action D B) (f : A → Action D B) (w : World D) (b : B)
      → ((a : A) → r ≡ Result.ok a → R a w.now w.db)
      → ((e : Error) → Yields (λ _ _. Unit) (h e) Q)
      → ((a : A) → Yields (R a) (f a) Q)
      → (branch_on r h f w).0 ≡ Result.ok b
      → Q b (branch_on r h f w).1.now (branch_on r h f w).1.db
  Yields-branch_on (Result.ok a) h f w b q kh k e = (k a).at w b (q a refl) e
  Yields-branch_on (Result.err x) h f w b q kh k e = (kh x).at w b tt e
  Yields-branch_on Result.panic h f w b q kh k e = cc

module _ {D A : Type 0} {P : ℕ → D → Type 0} {Q : A → ℕ → D → Type 0} where
  pub Yields-pure : (a : A) → ((t : ℕ) (d : D) → P t d → Q a t d) → Yields P (pure a) Q
  Yields-pure a k = record {
    at = λ w b p e. subst (λ x. Q x w.now w.db) (ok-injective e) (k w.now w.db p);
  }

  pub Yields-raise : (e : Error) → Yields P (raise e) Q
  Yields-raise e = record { at = λ w a p h. cc }

  pub Yields-fail : (s : Sentinel) → Yields P (fail s) Q
  Yields-fail s = record { at = λ w a p h. cc }

  pub Yields-crash : Yields P crash Q
  Yields-crash = record { at = λ w a p h. cc }

  Yields-call_at : (fs : List Bool) (m : Action D A) → Yields P m Q → Yields P (call_at fs m) Q
  Yields-call_at [] m k = k
  Yields-call_at (true ∷ fs) m k = record { at = λ w a p h. cc }
  Yields-call_at (false ∷ fs) m k = record { at = λ w. k.at (record w { faults = fs }) }

  pub Yields-call : (m : Action D A) → Yields P m Q → Yields P (call m) Q
  unfolding call
  Yields-call m k = record { at = λ w. (Yields-call_at w.faults m k).at w }

  pub Yields-send :
      (f : ℕ → D → Result A × D)
      → ((t : ℕ) (d : D) (a : A) → P t d → (f t d).0 ≡ Result.ok a → Q a t (f t d).1)
      → Yields P (call (statement f)) Q
  Yields-send f k = Yields-call (statement f) (record { at = λ w a p h. k w.now w.db a p h })

  pub Yields-if :
      (b : Bool) (m n : Action D A)
      → (b ≡ true → Yields P m Q)
      → (b ≡ false → Yields P n Q)
      → Yields P (if b then m else n) Q
  Yields-if true m n km kn = km refl
  Yields-if false m n km kn = kn refl

  pub Yields-catch :
      (m : Action D A) (h : Error → Action D A)
      → Yields P m Q
      → ((e : Error) → Yields (λ _ _. Unit) (h e) Q)
      → Yields P (catch m h) Q
  unfolding catch
  Yields-catch m h km kh = record {
    at = λ w a p e. let (r, w') = m w in Yields-handle r h w' a (λ b. km.at w b p) kh e;
  }

  pub Yields-replace_error : (s t : Sentinel) (e : Error) → Yields P (replace_error s t e) Q
  Yields-replace_error s t e =
      Yields-if (errors_is e s) _ _ (λ _. Yields-fail t) (λ _. Yields-raise e)

module _ {D A B : Type 0} {P : ℕ → D → Type 0} {R : A → ℕ → D → Type 0}
    {Q : B → ℕ → D → Type 0} where
  pub Yields-bind :
      (m : Action D A) (f : A → Action D B)
      → Yields P m R
      → ((a : A) → Yields (R a) (f a) Q)
      → Yields P (m >>= f) Q
  unfolding ◌>>=◌
  Yields-bind m f km kf = record {
    at = λ w b p e. let (r, w') = m w in Yields-continue r f w' b (λ a. km.at w a p) kf e;
  }

  pub Yields-either :
      (m : Action D A) (h : Error → Action D B) (f : A → Action D B)
      → Yields P m R
      → ((e : Error) → Yields (λ _ _. Unit) (h e) Q)
      → ((a : A) → Yields (R a) (f a) Q)
      → Yields P (either m h f) Q
  unfolding either
  Yields-either m h f km kh kf = record {
    at = λ w b p e. let (r, w') = m w in Yields-branch_on r h f w' b (λ a. km.at w a p) kh kf e;
  }

module _ {D A : Type 0} {P : ℕ → D → Type 0} {Q : A → ℕ → D → Type 0} where
  pub Yields-wrapped :
      (message : String) (m : Action D A) → Yields P m Q → Yields P (wrapped message m) Q
  unfolding wrapped
  Yields-wrapped message m k = Yields-catch m _ k (λ e. Yields-raise (Error.wrap message e))

module _ {D A : Type 0} where
  -- A property of the database that the action keeps whether or not it returns.
  pub Yields-of-Keeps :
      {S : D → Type 0} (m : Action D A) → Keeps S m → Yields (λ t d. S d) m (λ a t d. S d)
  Yields-of-Keeps m k = record { at = λ w a p e. k.at w p }

module _ {D A : Type 0} {P : ℕ → D → Type 0} {Q : A → ℕ → D → Type 0} where
  -- What is kept, beside what is done.
  pub Yields-and :
      {S : D → Type 0} (m : Action D A)
      → Keeps S m
      → Yields P m Q
      → Yields (λ t d. S d × P t d) m (λ a t d. S d × Q a t d)
  Yields-and m k y = record { at = λ w a p e. (k.at w p.0, y.at w a p.1 e) }

  pub Yields-weaken :
      {P' : ℕ → D → Type 0} {Q' : A → ℕ → D → Type 0} (m : Action D A)
      → ((t : ℕ) (d : D) → P' t d → P t d)
      → ((a : A) (t : ℕ) (d : D) → Q a t d → Q' a t d)
      → Yields P m Q
      → Yields P' m Q'
  Yields-weaken m f g y = record { at = λ w a p e. g a _ _ (y.at w a (f _ _ p) e) }

  pub Yields-lift :
      (r : Result A)
      → ((a : A) (t : ℕ) (d : D) → r ≡ Result.ok a → P t d → Q a t d)
      → Yields P (lift r) Q
  Yields-lift r k = record { at = λ w a p e. k a w.now w.db e p }

module _ {D A : Type 0} {P : ℕ → D → Type 0} {Q : A → ℕ → D → Type 0} where
  -- An INSERT with a fresh uuid.
  pub Yields-insert :
      (f : ℕ → ℕ → D → Result A × D)
      → ((id t : ℕ) (d : D) (a : A) → P t d → (f id t d).0 ≡ Result.ok a → Q a t (f id t d).1)
      → Yields P (call (draw >>= λ id. statement (f id))) Q
  unfolding draw
  Yields-insert f k = Yields-call _ (
      Yields-bind {R = λ _. P} draw (λ id. statement (f id)) (record { at = λ w a p e. p })
        λ id. record { at = λ w a p e. k id w.now w.db a p e })

module _ {D : Type 0} {P : ℕ → D → Type 0} where
  pub Yields-random_bytes : (n : ℕ) → Yields P (random_bytes n) (λ b. P)
  unfolding random_bytes
  Yields-random_bytes n = Yields-call _ (record { at = λ w a p e. p })

module _ {D A : Type 0} (P : ℕ → D → Type 0) where
  settle :
      (r : Result A) (w : World D)
      → P w.now w.db
      → let x = continue r (λ _. pure tt) w in
        let y = handle x.0 (λ e. pure tt) x.1 in P y.1.now y.1.db
  settle (Result.ok a) w p = p
  settle (Result.err e) w p = p
  settle Result.panic w p = p

  settle_call :
      (fs : List Bool) (f : ℕ → D → Result A × D) (w : World D)
      → ((t : ℕ) (d : D) → P t d → P t (f t d).1)
      → P w.now w.db
      → let c = call_at fs (statement f) w in
        let x = continue c.0 (λ _. pure tt) c.1 in
        let y = handle x.0 (λ e. pure tt) x.1 in P y.1.now y.1.db
  settle_call [] f w k p =
      settle (f w.now w.db).0 (record w { db = (f w.now w.db).1 }) (k w.now w.db p)
  settle_call (true ∷ fs) f w k p = p
  settle_call (false ∷ fs) f w k p =
      settle (f w.now w.db).0 (record w { db = (f w.now w.db).1; faults = fs }) (k w.now w.db p)

  -- A statement whose result and error are both dropped.
  pub Yields-ignore_send :
      (f : ℕ → D → Result A × D)
      → ((t : ℕ) (d : D) → P t d → P t (f t d).1)
      → Yields P (ignore (call (statement f))) (λ _. P)
  unfolding ignore catch ◌>>=◌ call
  Yields-ignore_send f k = record { at = λ w a p e. settle_call w.faults f w k p }
