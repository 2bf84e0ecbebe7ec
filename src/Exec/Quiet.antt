-- ===== src/Exec/Quiet.antt =====
-- Actions in which no call fails: what holds where such an action returns a value.
use garance.Prelude.{ℕ, Bool, true, false, List, [], ◌∷◌, ◌≡◌, refl, String, if◌then◌else◌}
use garance.Errors.{Error}
use garance.Exec.{
  Result, World, Action, pure, raise, statement, call_at, call, continue, ◌>>=◌, handle, catch,
  branch_on, either, wrapped,
}
use garance.Exec.Ends.{Ends}
use garance.Exec.Keeps.{Keeps}

-- No failure is left over.
pub record Calm {D A : Type 0} (m : Action D A) : Type 0 where
  pub at : (w : World D) → w.faults ≡ [] → (m w).1.faults ≡ []

module _ {D A : Type 0} where
  pub Calm-pure : (a : A) → Calm (pure {D = D} a)
  Calm-pure a = record { at = λ w h. h }

  pub Calm-raise : (e : Error) → Calm (raise {D = D} {A = A} e)
  Calm-raise e = record { at = λ w h. h }

  called :
      (fs : List Bool) (f : ℕ → D → Result A × D) (w : World D)
      → fs ≡ []
      → w.faults ≡ []
      → (call_at fs (statement f) w).1.faults ≡ []
  called [] f w none_left h = h
  called (b ∷ fs) f w none_left h = cc

  pub Calm-send : (f : ℕ → D → Result A × D) → Calm (call (statement f))
  unfolding call
  Calm-send f = record { at = λ w h. called w.faults f w h h }

  pub Calm-if : (b : Bool) (m n : Action D A) → Calm m → Calm n → Calm (if b then m else n)
  Calm-if true m n cm cn = cm
  Calm-if false m n cm cn = cn

  handled :
      (r : Result A) (message : String) (w : World D)
      → w.faults ≡ []
      → (handle r (λ e. raise (Error.wrap message e)) w).1.faults ≡ []
  handled (Result.ok a) message w h = h
  handled (Result.err e) message w h = h
  handled Result.panic message w h = h

  pub Calm-wrapped : (message : String) (m : Action D A) → Calm m → Calm (wrapped message m)
  unfolding wrapped catch
  Calm-wrapped message m c = record { at = λ w h. handled (m w).0 message (m w).1 (c.at w h) }

module _ {D A B : Type 0} where
  branched :
      (r : Result A) (h : Error → Action D B) (k : A → Action D B) (w : World D)
      → ((e : Error) → Calm (h e))
      → ((a : A) → Calm (k a))
      → w.faults ≡ []
      → (branch_on r h k w).1.faults ≡ []
  branched (Result.ok a) h k w ch ck e = (ck a).at w e
  branched (Result.err x) h k w ch ck e = (ch x).at w e
  branched Result.panic h k w ch ck e = e

  pub Calm-either :
      (m : Action D A) (h : Error → Action D B) (k : A → Action D B)
      → Calm m
      → ((e : Error) → Calm (h e))
      → ((a : A) → Calm (k a))
      → Calm (either m h k)
  unfolding either
  Calm-either m h k cm ch ck = record { at = λ w e. branched (m w).0 h k (m w).1 ch ck (cm.at w e) }

-- A value that is returned, and the database beside it, where no call fails.
pub record Quiet {D A : Type 0} (P : D → Type 0) (m : Action D A) (Q : A → D → Type 0)
    : Type 0 where
  pub at :
      (w : World D)
      → w.faults ≡ []
      → P w.db
      → (a : A) → (m w).0 ≡ Result.ok a
      → ((m w).1.faults ≡ []) × Q a (m w).1.db

module _ {D A : Type 0} {P : D → Type 0} {Q : A → D → Type 0} where
  pub Quiet-raise : (e : Error) → Quiet P (raise e) Q
  Quiet-raise e = record { at = λ w h p a done. cc }

  pub Quiet-assume :
      {R : D → Type 0} {m : Action D A} → ((d : D) → R d → P d) → Quiet P m Q → Quiet R m Q
  Quiet-assume f q = record { at = λ w h p a done. q.at w h (f w.db p) a done }

  pub Quiet-if :
      (b : Bool) (m n : Action D A) → Quiet P m Q → Quiet P n Q → Quiet P (if b then m else n) Q
  Quiet-if true m n qm qn = qm
  Quiet-if false m n qm qn = qn

module _ {D A : Type 0} {P : D → Type 0} {Q : A → D → Type 0} {E : D → Type 0} where
  pub Quiet-of-Ends : (m : Action D A) → Calm m → Ends P m Q E → Quiet P m Q
  Quiet-of-Ends m calm ends = record {
    at = λ w h p a done. (calm.at w h, rw done at (ends.at w p));
  }

-- A step beside an invariant that it keeps.
module _ {D A : Type 0} {P S : D → Type 0} {Q : A → D → Type 0} {E : D → Type 0} where
  pub Quiet-step :
      (m : Action D A)
      → Calm m
      → Ends P m Q E
      → Keeps S m
      → Quiet (λ d. P d × S d) m (λ a d. Q a d × S d)
  Quiet-step m calm ends keeps = record {
    at = λ w h p a done. (calm.at w h, ((rw done at (ends.at w p.0)), keeps.at w p.1));
  }

module _ {D A B : Type 0} {R : A → D → Type 0} {Q : B → D → Type 0} where
  continued :
      (r : Result A) (f : A → Action D B) (v : World D)
      → ((a : A) → r ≡ Result.ok a → (v.faults ≡ []) × R a v.db)
      → ((a : A) → Quiet (R a) (f a) Q)
      → (b : B) → (continue r f v).0 ≡ Result.ok b
      → ((continue r f v).1.faults ≡ []) × Q b (continue r f v).1.db
  continued (Result.ok a) f v k q b done = (q a).at v (k a refl).0 (k a refl).1 b done
  continued (Result.err e) f v k q b done = cc
  continued Result.panic f v k q b done = cc

module _ {D A B : Type 0} {P : D → Type 0} {R : A → D → Type 0} {Q : B → D → Type 0} where
  pub Quiet-bind :
      (m : Action D A) (f : A → Action D B)
      → Quiet P m R
      → ((a : A) → Quiet (R a) (f a) Q)
      → Quiet P (m >>= f) Q
  unfolding ◌>>=◌
  Quiet-bind m f qm qf = record {
    at = λ w h p b done. continued (m w).0 f (m w).1 (qm.at w h p) qf b done;
  }
