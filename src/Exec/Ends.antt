-- ===== src/Exec/Ends.antt =====
-- How an action ends: what holds of the value and the database where it returns, and what holds of
-- the database where it fails or panics.
use garance.Prelude.{ℕ, Bool, true, false, List, [], ◌∷◌, ◌≡◌, refl, String, if◌then◌else◌}
use garance.Errors.{Error}
use garance.Exec.{
  Result, World, Action, pure, raise, lift, statement, call_at, call, continue, ◌>>=◌, handle,
  catch, wrapped, read_clock,
}
use garance.Exec.Keeps.{Keeps}

module _ {D A : Type 0} where
  abbrev pub Post : (A → D → Type 0) → (D → Type 0) → Result A → D → Type 0
  Post Q E (Result.ok a) d = Q a d
  Post Q E (Result.err e) d = E d
  Post Q E Result.panic d = E d

pub record Ends {D A : Type 0} (P : D → Type 0) (m : Action D A) (Q : A → D → Type 0)
    (E : D → Type 0) : Type 0 where
  pub at : (w : World D) → P w.db → Post Q E (m w).0 (m w).1.db

module _ {D A : Type 0} (Q : A → D → Type 0) (E : D → Type 0) where
  wrap_post :
      (r : Result A) (message : String) (w : World D)
      → Post Q E r w.db
      → let x = handle r (λ e. raise (Error.wrap message e)) w in Post Q E x.0 x.1.db
  wrap_post (Result.ok a) message w q = q
  wrap_post (Result.err e) message w q = q
  wrap_post Result.panic message w q = q

  weaken_post :
      (F : D → Type 0) (r : Result A) (d : D) → ((d : D) → F d → E d) → Post Q F r d → Post Q E r d
  weaken_post F (Result.ok a) d f q = q
  weaken_post F (Result.err e) d f q = f d q
  weaken_post F Result.panic d f q = f d q

module _ {D A : Type 0} (P : D → Type 0) where
  pub keep_post : (r : Result A) (d : D) → P d → Post (λ a. P) P r d
  keep_post (Result.ok a) d p = p
  keep_post (Result.err e) d p = p
  keep_post Result.panic d p = p

  post_of : (r : Result A) (d : D) → Post (λ a. P) P r d → P d
  post_of (Result.ok a) d q = q
  post_of (Result.err e) d q = q
  post_of Result.panic d q = q

module _ {D A : Type 0} {P : D → Type 0} {Q : A → D → Type 0} {E : D → Type 0} where
  pub Ends-pure : (a : A) → ((d : D) → P d → Q a d) → Ends P (pure a) Q E
  Ends-pure a k = record { at = λ w p. k w.db p }

  pub Ends-raise : (e : Error) → ((d : D) → P d → E d) → Ends P (raise e) Q E
  Ends-raise e k = record { at = λ w p. k w.db p }

  pub Ends-statement :
      (f : ℕ → D → Result A × D)
      → ((t : ℕ) (d : D) → P d → Post Q E (f t d).0 (f t d).1)
      → Ends P (statement f) Q E
  Ends-statement f k = record { at = λ w p. k w.now w.db p }

  pub Ends-lift : (r : Result A) → ((d : D) → P d → Post Q E r d) → Ends P (lift r) Q E
  Ends-lift r k = record { at = λ w p. k w.db p }

  Ends-call_at :
      (fs : List Bool) (m : Action D A)
      → ((d : D) → P d → E d)
      → Ends P m Q E
      → Ends P (call_at fs m) Q E
  Ends-call_at [] m e k = k
  Ends-call_at (true ∷ fs) m e k = record { at = λ w p. e w.db p }
  Ends-call_at (false ∷ fs) m e k = record { at = λ w p. k.at (record w { faults = fs }) p }

  pub Ends-send :
      (f : ℕ → D → Result A × D)
      → ((d : D) → P d → E d)
      → ((t : ℕ) (d : D) → P d → Post Q E (f t d).0 (f t d).1)
      → Ends P (call (statement f)) Q E
  unfolding call
  Ends-send f e k = record {
    at = λ w p. (Ends-call_at w.faults (statement f) e (Ends-statement f k)).at w p;
  }

  pub Ends-if :
      (b : Bool) (m n : Action D A)
      → (b ≡ true → Ends P m Q E)
      → (b ≡ false → Ends P n Q E)
      → Ends P (if b then m else n) Q E
  Ends-if true m n km kn = km refl
  Ends-if false m n km kn = kn refl

  pub Ends-wrapped :
      (message : String) (m : Action D A) → Ends P m Q E → Ends P (wrapped message m) Q E
  unfolding wrapped catch
  Ends-wrapped message m k = record {
    at = λ w p. let (r, w') = m w in wrap_post Q E r message w' (k.at w p);
  }

  pub Ends-weaken :
      {F : D → Type 0} (m : Action D A) → ((d : D) → F d → E d) → Ends P m Q F → Ends P m Q E
  Ends-weaken m f k = record { at = λ w p. weaken_post Q E _ (m w).0 (m w).1.db f (k.at w p) }

  -- What the precondition says may be used to choose the proof.
  pub Ends-given : (m : Action D A) → ((d : D) → P d → Ends P m Q E) → Ends P m Q E
  Ends-given m k = record { at = λ w p. (k w.db p).at w p }

  pub Ends-assume :
      {R : D → Type 0} (m : Action D A) → ((d : D) → R d → P d) → Ends P m Q E → Ends R m Q E
  Ends-assume m f k = record { at = λ w p. k.at w (f w.db p) }

module _ {D A : Type 0} {P : D → Type 0} where
  pub Ends-of-Keeps : (m : Action D A) → Keeps P m → Ends P m (λ a. P) P
  Ends-of-Keeps m k = record { at = λ w p. keep_post P (m w).0 (m w).1.db (k.at w p) }

module _ {D A B : Type 0} (R : A → D → Type 0) (Q : B → D → Type 0) (E : D → Type 0) where
  continue_post :
      (r : Result A) (f : A → Action D B) (w : World D)
      → Post R E r w.db
      → ((a : A) → Ends (R a) (f a) Q E)
      → let x = continue r f w in Post Q E x.0 x.1.db
  continue_post (Result.ok a) f w q k = (k a).at w q
  continue_post (Result.err e) f w q k = q
  continue_post Result.panic f w q k = q

module _ {D A B : Type 0} {P : D → Type 0} {R : A → D → Type 0} {Q : B → D → Type 0}
    {E : D → Type 0} where
  pub Ends-bind :
      (m : Action D A) (f : A → Action D B)
      → Ends P m R E
      → ((a : A) → Ends (R a) (f a) Q E)
      → Ends P (m >>= f) Q E
  unfolding ◌>>=◌
  Ends-bind m f km kf = record {
    at = λ w p. let (r, w') = m w in continue_post R Q E r f w' (km.at w p) kf;
  }

-- Invariants of an action that uses what its first part has found.
module _ {D A B : Type 0} {P : D → Type 0} {R : A → D → Type 0} where
  continue_keeps :
      (r : Result A) (f : A → Action D B) (v : World D)
      → ((a : A) (d : D) → R a d → P d)
      → ((a : A) → Keeps (R a) (f a))
      → Post R P r v.db
      → P (continue r f v).1.db
  continue_keeps (Result.ok a) f v sub k q = sub a _ ((k a).at v q)
  continue_keeps (Result.err e) f v sub k q = q
  continue_keeps Result.panic f v sub k q = q

  pub Keeps-after :
      (m : Action D A) (f : A → Action D B)
      → ((a : A) (d : D) → R a d → P d)
      → Ends P m R P
      → ((a : A) → Keeps (R a) (f a))
      → Keeps P (m >>= f)
  unfolding ◌>>=◌
  Keeps-after m f sub first rest = record {
    at = λ w p. continue_keeps (m w).0 f (m w).1 sub rest (first.at w p);
  }

module _ {D A : Type 0} {P : D → Type 0} where
  -- A test whose answer may be used.
  pub Keeps-test :
      (b : Bool) (m n : Action D A)
      → (b ≡ true → Keeps P m)
      → (b ≡ false → Keeps P n)
      → Keeps P (if b then m else n)
  Keeps-test true m n km kn = km refl
  Keeps-test false m n km kn = kn refl

module _ {D A : Type 0} {E : D → Type 0} {Q : A → D → Type 0} where
  catch_post :
      (r : Result A) (h : Error → Action D A) (w : World D)
      → ((e : Error) → Ends E (h e) Q E)
      → Post Q E r w.db
      → Post Q E (handle r h w).0 (handle r h w).1.db
  catch_post (Result.ok a) h w k q = q
  catch_post (Result.err e) h w k q = (k e).at w q
  catch_post Result.panic h w k q = q

module _ {D A : Type 0} {P E : D → Type 0} {Q : A → D → Type 0} where
  pub Ends-catch :
      (m : Action D A) (h : Error → Action D A)
      → Ends P m Q E
      → ((e : Error) → Ends E (h e) Q E)
      → Ends P (catch m h) Q E
  unfolding catch
  Ends-catch m h km kh = record { at = λ w p. catch_post (m w).0 h (m w).1 kh (km.at w p) }

-- An action that always ends in P, whatever its result.
module _ {D A : Type 0} {P E : D → Type 0} where
  pub Ends-always : (m : Action D A) → Ends P m (λ a. E) E → (w : World D) → P w.db → E (m w).1.db
  Ends-always m k w p = post_of E (m w).0 (m w).1.db (k.at w p)

module _ {D : Type 0} {P E : D → Type 0} where
  pub Ends-read_clock : Ends P read_clock (λ t. P) E
  Ends-read_clock = record { at = λ w p. p }
