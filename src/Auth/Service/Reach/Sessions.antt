-- ===== src/Auth/Service/Reach/Sessions.antt =====
-- Spent refresh tokens (services/auth/internal/store/session.go) over everything that the service
-- does.
use garance.Prelude.{none, ℕ, Str, true, false, ◌≡◌, nat_eq, str_eq}
use garance.Sql.{exists}
use garance.Exec.{World}
use garance.Exec.Keeps.{
  Keeps, Keeps-send, Keeps-insert, Keeps-catch, Keeps-bind, Keeps-ignore, Keeps-replace_error,
}
use garance.Auth.Packages.{Packages}
use garance.Auth.Tables.{Db}
use garance.Auth.Token.{Manager}
use garance.Auth.OAuth.{Remote}
use garance.Auth.Store.Sessions.{create_session, revoke_session, has_session_id}
use garance.Auth.Store.States.{
  insert_state, create_oauth_state, get_and_consume_oauth_state, has_state,
}
use garance.Auth.Store.Spent.{IsSpent, update-IsSpent, insert_session-IsSpent}
use garance.Auth.Service.Keeping.{StoreKeeps}
use garance.Auth.Service.KeepingOAuth.{OAuthStoreKeeps}
use garance.Auth.Service.Reach.Untouched.{
  Ignores, reach-kept, either_way, creates_user, gets_user, finds_user, verifies, links,
  gets_session, gets_identity, updates_identity, gets_provider,
}
use garance.Auth.Service.Reach.{Reach, keeps_accounts}

module _ (token : Str) where
  abbrev pub Spent : Db → Type 0
  Spent d = IsSpent token d.sessions

  ignores : Ignores Spent
  ignores = record { users = λ d rows h. h; identities = λ d rows h. h; providers = λ d rows h. h }

  creates_state : (state name redirect : Str) → Keeps Spent (create_oauth_state state name redirect)
  unfolding create_oauth_state insert_state
  creates_state state name redirect =
      Keeps-send _ λ t d h. either_way ignores (exists (has_state state) d.oauth_states) _ _ h h

  consumes : (state : Str) → Keeps Spent (get_and_consume_oauth_state state)
  unfolding get_and_consume_oauth_state
  consumes state =
      Keeps-bind _ _ (Keeps-ignore _ (Keeps-send _ λ t d h. h))
        λ _. Keeps-catch _ _ (Keeps-send _ λ t d h. h) (Keeps-replace_error _ _)

  pub creates_session-Keeps :
      (id : ℕ) (fresh agent ip : Str) → Keeps Spent (create_session id fresh agent ip)
  unfolding create_session
  creates_session-Keeps id fresh agent ip =
      Keeps-insert _ λ row t d h. insert_session-IsSpent token row id fresh agent ip t d h

  pub revokes-Keeps : (id : ℕ) → Keeps Spent (revoke_session id)
  unfolding revoke_session
  revokes-Keeps id = Keeps-send _ λ t d h. update-IsSpent token t (has_session_id id) d.sessions h

  pub store_keeps-Spent : StoreKeeps Spent
  store_keeps-Spent = record {
    creates_user = λ email. creates_user ignores email none;
    gets_user = gets_user ignores;
    finds_user = finds_user ignores;
    creates_session = creates_session-Keeps;
    gets_session = gets_session ignores;
    revokes = revokes-Keeps;
  }

  oauth_store_keeps-Spent : OAuthStoreKeeps Spent
  oauth_store_keeps-Spent = record {
    store = store_keeps-Spent;
    verifies = verifies ignores;
    links = links ignores;
    gets_identity = gets_identity ignores;
    updates_identity = updates_identity ignores;
    gets_provider = gets_provider ignores;
    consumes = consumes;
  }

-- Once spent, always spent, as long as no account is deleted.
pub reach-Spent :
    (pkg : Packages) (net : Remote) (tokens : Manager) (token : Str) (w v : World Db)
    → Spent token w.db
    → Reach pkg net tokens keeps_accounts w v
    → Spent token v.db
reach-Spent pkg net tokens token w v =
    reach-kept pkg net tokens (ignores token) (oauth_store_keeps-Spent token) keeps_accounts w v
      (λ name redirect base key a state. creates_state token state name redirect)
      λ id a. absurd (refused a)
  where
    refused : false ≡ true → ⊥
    refused e = cc
