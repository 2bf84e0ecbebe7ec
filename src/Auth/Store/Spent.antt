-- ===== src/Auth/Store/Spent.antt =====
-- Refresh tokens that can no longer be used, in services/auth/internal/store/session.go.
use garance.Prelude.{
  ℕ, Str, Bool, true, false, ◌&&◌, ◌||◌, List, [], ◌∷◌, ◌≡◌, ◌≢◌, refl, sym, ◌∙◌, All, All-map,
  ◌==◌, nat_eq, str_eq, ==_refl, eq_of_==, inl, inr, Bool-cases, is_none, some, arith,
  if◌then◌else◌,
}
use mathlib.Core.Path.{subst}
use mathlib.Core.Option.{some-injective}
use mathlib.Core.Bool.{false≢true}
use garance.Sql.{exists, select, update}
use garance.Sql.Index.{IsUnique, All-update, All-select}
use garance.Sql.Lookup.{exists-update, exists-cons, select-eq-some}
use garance.Auth.Tables.{Db, Session}
use garance.Auth.Store.Users.{has_id}
use garance.Auth.Store.Sessions.{
  has_session_id, has_refresh_token, insert_session, is_live, revoked_at_time, set_revoked,
}

-- The session of this token, if that is the one, has been revoked.
abbrev pub IsClosed : Str → Session → Type 0
IsClosed token s = s.refresh_token ≡ token → is_none s.revoked_at ≡ false

-- The token was given out, and its session has been revoked.
abbrev pub IsSpent : Str → List Session → Type 0
IsSpent token rows = (exists (has_refresh_token token) rows ≡ true) × All (IsClosed token) rows

pub live-token :
    (token : Str) (now : ℕ) (s : Session) → is_live token now s ≡ true → s.refresh_token ≡ token
live-token token now s e = eq_of_== s.refresh_token token (first _ _ e)
  where
    first : (a b : Bool) → a && b ≡ true → a ≡ true
    first a b h = ground arith

pub live-open :
    (token : Str) (now : ℕ) (s : Session) → is_live token now s ≡ true → is_none s.revoked_at ≡ true
live-open token now s e = middle _ _ _ e
  where
    middle : (a b c : Bool) → a && (b && c) ≡ true → b ≡ true
    middle a b c h = ground arith

module _ (token : Str) (t : ℕ) where
  close : (s : Session) → IsClosed token (revoked_at_time t s)
  close s e = refl

  close_if :
      (b : Bool) (s : Session)
      → s.refresh_token ≢ token
      → IsClosed token (if b then revoked_at_time t s else s)
  close_if true s ne e = refl
  close_if false s ne e = absurd (ne e)

  close_same : (s : Session) → IsClosed token (if s.id == s.id then revoked_at_time t s else s)
  close_same s = rw (==_refl s.id) (close s)

  -- Where tokens are unique, revoking the session that was found by a token closes every session
  -- of the token.
  pub close_found :
      (rows : List Session) (now : ℕ) (found : Session)
      → IsUnique (λ (s : Session). s.refresh_token) rows
      → select (is_live token now) rows ≡ some found
      → All (IsClosed token) (update (has_session_id found.id) (revoked_at_time t) rows)
  unfolding select update
  close_found [] now found u e = cc
  close_found (r ∷ rows) now found u e = elim (Bool-cases (is_live token now r)) [
    | inl live ↦ (
      subst (λ (x : Session). IsClosed token (if r.id == x.id then revoked_at_time t r else r))
          (some-injective _ _ (rw (live, select) at e)) (close_same r),
      All-update (IsClosed token) (has_session_id found.id) (revoked_at_time t) rows
          (λ s _. close s)
          (All-map _ (IsClosed token) rows
            (λ s ne same. absurd (ne (same ∙ sym (live-token token now r live)))) u.0),
    )
    | inr other ↦ (
      close_if (r.id == found.id) r (λ same. distinct (rw (other, select) at e) same),
      close_found rows now found u.1 (rw (other, select) at e),
    )
  ]
    where
      distinct : select (is_live token now) rows ≡ some found → r.refresh_token ≢ token
      distinct e' same =
          All-select (λ (s : Session). s.refresh_token ≢ r.refresh_token) (is_live token now) rows
            u.0 e'
            (live-token token now found (select-eq-some (is_live token now) rows e') ∙ sym same)

  -- Whatever else is revoked, a spent token stays spent.
  pub update-IsSpent :
      (p : Session → Bool) (rows : List Session)
      → IsSpent token rows
      → IsSpent token (update p (revoked_at_time t) rows)
  update-IsSpent p rows h = (
    exists-update p (has_refresh_token token) (revoked_at_time t) rows (λ s. refl) ∙ h.0,
    All-update (IsClosed token) p (revoked_at_time t) rows (λ s _. close s) h.1,
  )

exists-of-live :
    (token : Str) (now : ℕ) (rows : List Session) {found : Session}
    → select (is_live token now) rows ≡ some found
    → exists (has_refresh_token token) rows ≡ true
unfolding exists select
exists-of-live token now [] e = cc
exists-of-live token now (r ∷ rows) {found = s} e =
    ground (arith, exists-of-live token now rows {found = s})

-- The token was there when its session was found.
pub found-IsSpent :
    (token : Str) (now t : ℕ) (d : Db) (found : Session)
    → IsUnique (λ (s : Session). s.refresh_token) d.sessions
    → select (is_live token now) d.sessions ≡ some found
    → IsSpent token (set_revoked found.id t d).1.sessions
found-IsSpent token now t d found u e = (
  exists-update (has_session_id found.id) (has_refresh_token token) (revoked_at_time t) d.sessions
        (λ s. refl)
      ∙ exists-of-live token now d.sessions e,
  close_found token t d.sessions now found u e,
)

-- A spent token finds no session.
pub select-IsSpent :
    (token : Str) (now : ℕ) (d : Db) (found : Session)
    → IsSpent token d.sessions
    → select (is_live token now) d.sessions ≢ some found
select-IsSpent token now d found h e = false≢true (
    sym (
      All-select (IsClosed token) (is_live token now) d.sessions h.1 e
        (live-token token now found live))
    ∙ live-open token now found live)
  where
    live : is_live token now found ≡ true
    live = select-eq-some (is_live token now) d.sessions e

-- No INSERT gives the token to another session.
pub insert_session-IsSpent :
    (token : Str) (id user_id : ℕ) (fresh agent ip : Str) (t : ℕ) (d : Db)
    → IsSpent token d.sessions
    → IsSpent token (insert_session id user_id fresh agent ip t d).1.sessions
unfolding insert_session
insert_session-IsSpent token id user_id fresh agent ip t d h =
    elim (Bool-cases
      (exists (has_session_id id) d.sessions || exists (has_refresh_token fresh) d.sessions)) [
        | inl taken ↦ rw taken h
        | inr free ↦ elim (Bool-cases (exists (has_id user_id) d.users)) [
          | inl known ↦
              rw (free, known)
                (
                  exists-cons (has_refresh_token token) _ d.sessions h.0,
                  (λ same. absurd (distinct (second _ _ free) same), h.1),
                )
          | inr unknown ↦ rw (free, unknown) h
        ]
      ]
  where
    second : (a b : Bool) → a || b ≡ false → b ≡ false
    second a b e = ground arith

    distinct : exists (has_refresh_token fresh) d.sessions ≡ false → fresh ≢ token
    distinct absent same =
        false≢true
          (sym (subst (λ x. exists (has_refresh_token x) d.sessions ≡ false) same absent) ∙ h.0)
