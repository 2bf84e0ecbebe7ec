-- ===== src/Auth/Service/Flow.antt =====
-- The state parameter of the OAuth flow: OAuthCallback of services/auth/internal/service/oauth.go.
use garance.Prelude.{
  ℕ, Str, Bool, true, false, ◌&&◌, some, List, [], ◌∷◌, ◌≡◌, ◌≢◌, refl, sym, ◌∙◌, All, All-map,
  ==_false, ◌==◌, str_eq, nat_eq, eq_of_==, arith, Bool-cases, inl, inr,
}
use mathlib.Core.Path.{subst}
use mathlib.Core.Bool.{false≢true}
use garance.Sql.{select, exists, delete}
use garance.Sql.Index.{IsUnique, IsUnique-delete, All-select}
use garance.Sql.Lookup.{
  exists-of-All, exists-delete-false, exists-of-delete, exists-of-select_and, select-eq-some,
}
use garance.Exec.{World, ok}
use garance.Exec.Yields.{
  Yields, Yields-bind, Yields-catch, Yields-send, Yields-replace_error, Yields-and, Yields-weaken,
  Yields-ignore_send, Yields-if, Yields-fail, Yields-either,
}
use garance.Auth.Packages.{Packages}
use garance.Auth.Tables.{Db, OAuthState}
use garance.Auth.Token.{Manager}
use garance.Auth.OAuth.{Remote}
use garance.Auth.Store.States.{
  has_state, is_pending, is_expired, remove_expired_states, take_state, get_and_consume_oauth_state,
}
use garance.Auth.Store.Integrity.{IsConsistent}
use garance.Auth.Service.{AuthResult}
use garance.Auth.Service.OAuth.{oauth_callback}
use garance.Auth.Service.KeepingOAuth.{finish_flow-Keeps}
use garance.Auth.Service.Reach.{Reach}
use garance.Auth.Service.Reach.States.{
  Consumed, oauth_store_keeps-Consumed, starts_no_flow, reach-Consumed,
}
use garance.Auth.Service.Rotation.{row-ok}

-- A state that was stored for this provider and has not expired.
abbrev pub is_pending_for : Str → Str → ℕ → OAuthState → Bool
is_pending_for state name t s = is_pending state t s && s.provider == name

pending-state :
    (state : Str) (t : ℕ) (s : OAuthState) → is_pending state t s ≡ true → s.state ≡ state
pending-state state t s e = eq_of_== s.state state (first _ _ e)
  where
    first : (a b : Bool) → a && b ≡ true → a ≡ true
    first a b h = ground arith

module _ (state : Str) (r : OAuthState) (rows : List OAuthState)
    (u : All (λ (s : OAuthState). s.state ≢ r.state) rows) where
  -- Of rows with distinct states, the others do not have this one.
  none_of : r.state ≡ state → exists (has_state state) rows ≡ false
  none_of same =
      exists-of-All (has_state state) rows
        (All-map _ _ rows (λ s ne. ==_false s.state state (λ same'. ne (same' ∙ sym same))) u)

  not_first :
      (t : ℕ) (found : OAuthState)
      → select (is_pending state t) rows ≡ some found
      → (r.state == state) ≡ false
  not_first t found e = ==_false r.state state λ same.
      All-select (λ (s : OAuthState). s.state ≢ r.state) (is_pending state t) rows u e
        (pending-state state t found (select-eq-some (is_pending state t) rows e) ∙ sym same)

-- Where no other row has the state, deleting the one that was found leaves none.
take-Consumed :
    (state : Str) (t : ℕ) (rows : List OAuthState) (found : OAuthState)
    → IsUnique (λ (s : OAuthState). s.state) rows
    → select (is_pending state t) rows ≡ some found
    → exists (has_state state) (delete (is_pending state t) rows) ≡ false
unfolding select exists delete
take-Consumed state t [] found u e = refl
take-Consumed state t (r ∷ rows) found u e = elim (Bool-cases (is_pending state t r)) [
  | inl first ↦ rw first (
      exists-delete-false (is_pending state t) (has_state state) rows
        (none_of state r rows u.0 (pending-state state t r first)))
  | inr later ↦
      rw (later, not_first state r rows u.0 t found (rw (later, select) at e))
        (take-Consumed state t rows found u.1 (rw (later, select) at e))
]

exists-of-pending :
    (state : Str) (t : ℕ) (rows : List OAuthState) (found : OAuthState)
    → select (is_pending state t) rows ≡ some found
    → exists (has_state state) rows ≡ true
unfolding select exists
exists-of-pending state t [] found e = cc
exists-of-pending state t (r ∷ rows) found e = ground (arith, exists-of-pending state t rows found)

-- The states of d are distinct, and were all there before.
abbrev Bounded : List OAuthState → Db → Type 0
Bounded rows d =
    IsUnique (λ (s : OAuthState). s.state) d.oauth_states
    × ((q : OAuthState → Bool) → exists q d.oauth_states ≡ true → exists q rows ≡ true)

module _ (t0 : ℕ) (rows : List OAuthState) (state : Str) where
  abbrev Before : ℕ → Db → Type 0
  Before t d = Bounded rows d × (t ≡ t0)

  abbrev Taken : OAuthState → Db → Type 0
  Taken s d =
      Consumed state d
      × ((name : Str)
          → (s.provider == name) ≡ true
          → exists (is_pending_for state name t0) rows ≡ true)

  expires : (t : ℕ) (d : Db) → Before t d → Before t (remove_expired_states t d).1
  expires t d h = (
    (
      IsUnique-delete (λ (s : OAuthState). s.state) (is_expired t) d.oauth_states h.0.0,
      λ q e. h.0.1 q (exists-of-delete (is_expired t) q d.oauth_states e),
    ),
    h.1,
  )

  takes :
      (t : ℕ) (d : Db) (s : OAuthState)
      → Before t d
      → select (is_pending state t) d.oauth_states ≡ some s
      → Taken s (take_state state t d).1
  takes t d s h e = (
    take-Consumed state t d.oauth_states s h.0.0 e,
    λ name same.
        subst (λ x. exists (is_pending_for state name x) rows ≡ true) h.1
          (h.0.1 (is_pending_for state name t) (
            exists-of-select_and (is_pending state t) (λ (x : OAuthState). x.provider == name)
              d.oauth_states e same)),
  )

  consumes : Yields Before (get_and_consume_oauth_state state) (λ s t d. Taken s d)
  unfolding get_and_consume_oauth_state
  consumes = Yields-bind _ _ (Yields-ignore_send Before remove_expired_states expires) λ _.
      Yields-catch _ _ (Yields-send _ λ t d s h e. takes t d s h (row-ok _ e))
        (λ e. Yields-replace_error _ _ e)

  module _ (pkg : Packages) (net : Remote) (tokens : Manager) where
    abbrev WasPending : Str → Type 0
    WasPending name = exists (is_pending_for state name t0) rows ≡ true

    calls_back :
        (name code base agent ip key : Str)
        → Yields Before
            (oauth_callback pkg net tokens name code state base agent ip key)
            (λ r t d. WasPending name × Consumed state d)
    unfolding oauth_callback
    calls_back name code base agent ip key =
        Yields-either _ _ _ consumes (λ e. Yields-fail _)
          λ s.
            Yields-if (s.provider == name) _ _
              (λ same.
                Yields-weaken _ (λ t d h. (h.0, h.1 name same)) (λ r t d h. (h.1, h.0))
                  (Yields-and {P = λ _ _. WasPending name} {Q = λ _ _ _. WasPending name} _
                    (finish_flow-Keeps pkg net tokens (oauth_store_keeps-Consumed state) name code
                      base agent ip key s)
                    (record { at = λ w a p e. p })))
              (λ _. Yields-fail _)

refuses_unknown :
    (state : Str)
    → Yields (λ t d. Consumed state d) (get_and_consume_oauth_state state) (λ s t d. ⊥)
unfolding get_and_consume_oauth_state
refuses_unknown state =
    Yields-bind _ _
      (Yields-ignore_send (λ t d. Consumed state d) remove_expired_states
        λ t d h. exists-delete-false (is_expired t) (has_state state) d.oauth_states h)
      λ _.
        Yields-catch _ _
          (Yields-send _ λ t d s h e.
            false≢true (sym h ∙ exists-of-pending state t d.oauth_states s (row-ok _ e)))
          (λ e. Yields-replace_error _ _ e)

module _ (pkg : Packages) (net : Remote) (tokens : Manager) where
  refuses-Consumed :
      (state name code base agent ip key : Str)
      → Yields
          (λ t d. Consumed state d)
          (oauth_callback pkg net tokens name code state base agent ip key)
          (λ r t d. ⊥)
  unfolding oauth_callback
  refuses-Consumed state name code base agent ip key =
      Yields-either _ _ _ (refuses_unknown state) (λ e. Yields-fail _)
        λ s. record { at = λ w a h e. absurd h }

  -- If OAuthCallback lets a caller in, in a consistent database, then a state was stored under its
  -- state parameter, for the provider of its path, and had not expired; and no state is stored
  -- under that parameter any more.
  pub oauth_callback-Consumed :
      (name code state base agent ip key : Str) (w : World Db) (r : AuthResult × Str)
      → IsConsistent w.db
      → (oauth_callback pkg net tokens name code state base agent ip key w).0 ≡ ok r
      → (exists (is_pending_for state name w.now) w.db.oauth_states ≡ true)
        × Consumed state (oauth_callback pkg net tokens name code state base agent ip key w).1.db
  oauth_callback-Consumed name code state base agent ip key w r h e =
      (calls_back w.now w.db.oauth_states state pkg net tokens name code base agent ip key).at w r
        ((h.states, λ q x. x), refl) e

  -- After OAuthCallback has let a caller in, in a consistent database, it never accepts the same
  -- state parameter again, after any sequence of requests other than OAuthAuthorize, at any time
  -- and with any calls failing.
  pub oauth_callback-once :
      (name code state base agent ip key name' code' base' agent' ip' key' : Str) (w v : World Db)
      (r s : AuthResult × Str)
      → IsConsistent w.db
      → (oauth_callback pkg net tokens name code state base agent ip key w).0 ≡ ok r
      → Reach pkg net tokens starts_no_flow
          (oauth_callback pkg net tokens name code state base agent ip key w).1
          v
      → (oauth_callback pkg net tokens name' code' state base' agent' ip' key' v).0 ≢ ok s
  oauth_callback-once name code state base agent ip key name' code' base' agent' ip' key' w v r s h
        e path =
      (refuses-Consumed state name' code' base' agent' ip' key').at v s (
        reach-Consumed pkg net tokens state _ v
          (oauth_callback-Consumed name code state base agent ip key w r h e).1 path)
