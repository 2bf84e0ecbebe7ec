-- ===== src/Auth/Service/Rotation.antt =====
-- A refresh token works once: RefreshToken and SignOut of services/auth/internal/service/auth.go.
use garance.Prelude.{ℕ, Str, Option, none, some, [], ◌≡◌, ◌≢◌, refl, sym}
use mathlib.Core.Path.{subst}
use garance.Sql.{select}
use garance.Sql.Index.{IsUnique}
use garance.Exec.{World, Result, ok, call, catch, either}
use garance.Exec.Keeps.{Keeps-bind}
use garance.Exec.Yields.{
  Yields, Yields-bind, Yields-catch, Yields-send, Yields-replace_error, Yields-of-Keeps,
}
use garance.Auth.Packages.{Packages}
use garance.Auth.Tables.{Db, Session}
use garance.Auth.Token.{Manager}
use garance.Auth.OAuth.{Remote}
use garance.Auth.Store.Users.{row_or_no_rows}
use garance.Auth.Store.Sessions.{is_live, get_session_by_refresh_token, revoke_session, set_revoked}
use garance.Auth.Store.Integrity.{IsConsistent}
use garance.Auth.Store.Spent.{found-IsSpent, select-IsSpent}
use garance.Auth.Service.{AuthResult, refresh_token, sign_out}
use garance.Auth.Service.Keeping.{reject_banned-Keeps, respond-Keeps, StoreKeeps}
use garance.Auth.Service.Reach.{Reach, keeps_accounts}
use garance.Auth.Service.Reach.Sessions.{Spent, store_keeps-Spent, reach-Spent}

pub row-ok : {A : Type 0} (o : Option A) {a : A} → row_or_no_rows o ≡ Result.ok a → o ≡ some a
row-ok none e = cc
row-ok (some b) e = cc

abbrev Unspent : ℕ → Db → Type 0
Unspent t d = IsUnique (λ (s : Session). s.refresh_token) d.sessions

-- The session that a token finds is a row of the table that is open.
abbrev Found : Str → Session → ℕ → Db → Type 0
Found token s t d = Unspent t d × (select (is_live token t) d.sessions ≡ some s)

finds : (token : Str) → Yields Unspent (get_session_by_refresh_token token) (Found token)
unfolding get_session_by_refresh_token
finds token =
    Yields-catch _ _
      (Yields-send _ λ t d s u e. (u, row-ok (select (is_live token t) d.sessions) e))
      (λ e. Yields-replace_error _ _ e)

finds_no-Spent :
    (token : Str) → Yields (λ t d. Spent token d) (get_session_by_refresh_token token) (λ s t d. ⊥)
unfolding get_session_by_refresh_token
finds_no-Spent token =
    Yields-catch _ _ (Yields-send _ λ t d s h e. select-IsSpent token t d s h (row-ok _ e))
      (λ e. Yields-replace_error _ _ e)

spends :
    (token : Str) (s : Session)
    → Yields (Found token s) (revoke_session s.id) (λ _ t d. Spent token d)
unfolding revoke_session
spends token s = Yields-send _ λ t d _ h _. found-IsSpent token t t d s h.0 h.1

module _ (pkg : Packages) (tokens : Manager) where
  refresh_token-spends :
      (token agent ip : Str)
      → Yields Unspent (refresh_token pkg tokens token agent ip) (λ r t d. Spent token d)
  unfolding refresh_token
  refresh_token-spends token agent ip =
      Yields-bind _ _ (Yields-catch _ _ (finds token) (λ e. Yields-replace_error _ _ e)) λ s.
        Yields-bind _ _ (spends token s) λ _. Yields-of-Keeps _ (
          Keeps-bind _ _ (k.gets_user s.user_id) λ user.
            Keeps-bind _ _ (reject_banned-Keeps pkg tokens k user)
              λ _. respond-Keeps pkg tokens k user agent ip)
    where
      k : StoreKeeps (Spent token)
      k = store_keeps-Spent token

  refuses-Spent :
      (token agent ip : Str)
      → Yields (λ t d. Spent token d) (refresh_token pkg tokens token agent ip) (λ r t d. ⊥)
  unfolding refresh_token
  refuses-Spent token agent ip =
      Yields-bind _ _ (Yields-catch _ _ (finds_no-Spent token) (λ e. Yields-replace_error _ _ e))
        λ s. record { at = λ w a h e. absurd h }

-- Where no call fails, signing out revokes the session that the token finds.
sign_out-revokes :
    (token : Str) (w : World Db) (s : Session)
    → w.faults ≡ []
    → select (is_live token w.now) w.db.sessions ≡ some s
    → (sign_out token w).1.db ≡ (set_revoked s.id w.now w.db).1
unfolding sign_out get_session_by_refresh_token revoke_session either catch call
sign_out-revokes token w s calm e = rw (calm, e) refl

module _ (pkg : Packages) (net : Remote) (tokens : Manager) where
  -- If RefreshToken accepts a refresh token in a consistent database, then it never accepts that
  -- token again, after any sequence of requests other than the deletion of an account, at any time
  -- and with any calls failing.
  pub refresh_token-once :
      (token agent ip agent' ip' : Str) (w v : World Db) (r s : AuthResult)
      → IsConsistent w.db
      → (refresh_token pkg tokens token agent ip w).0 ≡ ok r
      → Reach pkg net tokens keeps_accounts (refresh_token pkg tokens token agent ip w).1 v
      → (refresh_token pkg tokens token agent' ip' v).0 ≢ ok s
  refresh_token-once token agent ip agent' ip' w v r s h e path again =
      (refuses-Spent pkg tokens token agent' ip').at v s
        (reach-Spent pkg net tokens token _ v
          ((refresh_token-spends pkg tokens token agent ip).at w r h.refresh_tokens e) path)
        again

  -- If no call fails when SignOut is sent a refresh token that finds a session in a consistent
  -- database, then RefreshToken never accepts that token afterwards, after any sequence of
  -- requests other than the deletion of an account, at any time and with any calls failing.
  pub sign_out-refuses :
      (token agent ip : Str) (w v : World Db) (found : Session) (s : AuthResult)
      → IsConsistent w.db
      → w.faults ≡ []
      → select (is_live token w.now) w.db.sessions ≡ some found
      → Reach pkg net tokens keeps_accounts (sign_out token w).1 v
      → (refresh_token pkg tokens token agent ip v).0 ≢ ok s
  sign_out-refuses token agent ip w v found s h calm live path again =
      (refuses-Spent pkg tokens token agent ip).at v s
        (reach-Spent pkg net tokens token _ v
          (subst (Spent token) (sym (sign_out-revokes token w found calm live))
            (found-IsSpent token w.now w.now w.db found h.refresh_tokens live))
          path)
        again
