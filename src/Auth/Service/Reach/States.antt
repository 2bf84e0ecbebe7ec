-- ===== src/Auth/Service/Reach/States.antt =====
-- OAuth states (services/auth/internal/store/oauth_state.go) over everything that the service does.
use garance.Prelude.{none, ℕ, Str, Bool, true, false, ◌||◌, ◌≡◌, str_eq}
use garance.Sql.{exists}
use garance.Sql.Lookup.{exists-delete-false}
use garance.Exec.{World}
use garance.Exec.Keeps.{
  Keeps, Keeps-send, Keeps-insert, Keeps-bind, Keeps-ignore, Keeps-catch, Keeps-replace_error,
}
use garance.Auth.Packages.{Packages}
use garance.Auth.Tables.{Db}
use garance.Auth.Token.{Manager}
use garance.Auth.OAuth.{Remote}
use garance.Auth.Store.Users.{delete_user, has_id}
use garance.Auth.Store.Sessions.{
  create_session, insert_session, revoke_session, has_session_id, has_refresh_token,
}
use garance.Auth.Store.States.{get_and_consume_oauth_state, has_state, is_expired, is_pending}
use garance.Auth.Service.KeepingOAuth.{OAuthStoreKeeps}
use garance.Auth.Service.Reach.{Request, Reach}
use garance.Auth.Service.Reach.Untouched.{
  Ignores, reach-kept, either_way, creates_user, gets_user, finds_user, verifies, links,
  gets_session, gets_identity, updates_identity, gets_provider,
}

-- Requests other than OAuthAuthorize, which draws a new state.
abbrev pub starts_no_flow : Request → Bool
starts_no_flow (Request.authorize name redirect base key) = false
starts_no_flow _ = true

module _ (state : Str) where
  abbrev pub Consumed : Db → Type 0
  Consumed d = exists (has_state state) d.oauth_states ≡ false

  ignores : Ignores Consumed
  ignores = record { users = λ d rows h. h; identities = λ d rows h. h; providers = λ d rows h. h }

  creates_session :
      (id : ℕ) (token agent ip : Str) → Keeps Consumed (create_session id token agent ip)
  unfolding create_session insert_session
  creates_session id token agent ip = Keeps-insert _ λ row t d h.
      either_way ignores
        (exists (has_session_id row) d.sessions || exists (has_refresh_token token) d.sessions) _ _
        h (either_way ignores (exists (has_id id) d.users) _ _ h h)

  revokes : (id : ℕ) → Keeps Consumed (revoke_session id)
  unfolding revoke_session
  revokes id = Keeps-send _ λ t d h. h

  removes : (id : ℕ) → Keeps Consumed (delete_user id)
  unfolding delete_user
  removes id = Keeps-send _ λ t d h. h

  consumes : (other : Str) → Keeps Consumed (get_and_consume_oauth_state other)
  unfolding get_and_consume_oauth_state
  consumes other =
      Keeps-bind _ _
        (Keeps-ignore _ (
          Keeps-send _
            λ t d h. exists-delete-false (is_expired t) (has_state state) d.oauth_states h))
        λ _.
          Keeps-catch _ _
            (Keeps-send _
              λ t d h. exists-delete-false (is_pending other t) (has_state state) d.oauth_states h)
            (Keeps-replace_error _ _)

  pub oauth_store_keeps-Consumed : OAuthStoreKeeps Consumed
  oauth_store_keeps-Consumed = record {
    store = record {
      creates_user = λ email. creates_user ignores email none;
      gets_user = gets_user ignores;
      finds_user = finds_user ignores;
      creates_session = creates_session;
      gets_session = gets_session ignores;
      revokes = revokes;
    };
    verifies = verifies ignores;
    links = links ignores;
    gets_identity = gets_identity ignores;
    updates_identity = updates_identity ignores;
    gets_provider = gets_provider ignores;
    consumes = consumes;
  }

-- A consumed state stays consumed, until OAuthAuthorize may draw it again.
pub reach-Consumed :
    (pkg : Packages) (net : Remote) (tokens : Manager) (state : Str) (w v : World Db)
    → Consumed state w.db
    → Reach pkg net tokens starts_no_flow w v
    → Consumed state v.db
reach-Consumed pkg net tokens state w v =
    reach-kept pkg net tokens (ignores state) (oauth_store_keeps-Consumed state) starts_no_flow w v
      (λ name redirect base key a s. absurd (refused a)) λ id a. removes state id
  where
    refused : false ≡ true → ⊥
    refused e = cc
