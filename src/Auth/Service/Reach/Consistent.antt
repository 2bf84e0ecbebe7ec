-- ===== src/Auth/Service/Reach/Consistent.antt =====
-- The constraints of the tables, over everything that the service does.
use garance.Prelude.{none, some, Bool}
use garance.Exec.{World}
use garance.Auth.Packages.{Packages}
use garance.Auth.Tables.{Db}
use garance.Auth.Token.{Manager}
use garance.Auth.OAuth.{Remote}
use garance.Auth.Store.Integrity.{IsConsistent}
use garance.Auth.Store.Integrity.Actions.{
  create_user-Keeps, get_user_by_id-Keeps, get_user_by_email-Keeps, verify_user_email-Keeps,
  delete_user-Keeps, create_session-Keeps, get_session_by_refresh_token-Keeps, revoke_session-Keeps,
  create_identity-Keeps, get_identity_by_provider-Keeps, update_identity_provider_data-Keeps,
  create_oauth_state-Keeps, get_and_consume_oauth_state-Keeps, create_provider-Keeps,
  get_provider-Keeps, update_provider-Keeps, delete_provider-Keeps,
}
use garance.Auth.Service.{get_user, delete_user}
use garance.Auth.Service.Keeping.{
  StoreKeeps, sign_up-Keeps, sign_in-Keeps, refresh_token-Keeps, sign_out-Keeps,
}
use garance.Auth.Service.KeepingOAuth.{OAuthStoreKeeps, oauth_authorize-Keeps, oauth_callback-Keeps}
use garance.Auth.Service.Reach.{Request, after, Reach}

store_keeps : StoreKeeps IsConsistent
store_keeps = record {
  creates_user = λ email. create_user-Keeps email none;
  gets_user = get_user_by_id-Keeps;
  finds_user = get_user_by_email-Keeps;
  creates_session = create_session-Keeps;
  gets_session = get_session_by_refresh_token-Keeps;
  revokes = revoke_session-Keeps;
}

oauth_store_keeps : OAuthStoreKeeps IsConsistent
oauth_store_keeps = record {
  store = store_keeps;
  verifies = verify_user_email-Keeps;
  links = create_identity-Keeps;
  gets_identity = get_identity_by_provider-Keeps;
  updates_identity = update_identity_provider_data-Keeps;
  gets_provider = get_provider-Keeps;
  consumes = get_and_consume_oauth_state-Keeps;
}

module _ (pkg : Packages) (net : Remote) (tokens : Manager) where
  pub after-IsConsistent :
      (r : Request) (w : World Db) → IsConsistent w.db → IsConsistent (after pkg net tokens r w).db
  unfolding get_user delete_user
  after-IsConsistent (Request.signup email password agent ip) w h =
      (sign_up-Keeps pkg tokens store_keeps (λ e hash. create_user-Keeps e (some hash)) email
          password agent ip).at
        w h
  after-IsConsistent (Request.signin email password agent ip) w h =
      (sign_in-Keeps pkg tokens store_keeps email password agent ip).at w h
  after-IsConsistent (Request.refresh token agent ip) w h =
      (refresh_token-Keeps pkg tokens store_keeps token agent ip).at w h
  after-IsConsistent (Request.signout token) w h = (sign_out-Keeps store_keeps token).at w h
  after-IsConsistent (Request.read_user id) w h = (get_user_by_id-Keeps id).at w h
  after-IsConsistent (Request.remove_account id) w h = (delete_user-Keeps id).at w h
  after-IsConsistent (Request.authorize name redirect base key) w h =
      (oauth_authorize-Keeps pkg net tokens oauth_store_keeps name redirect base key
          λ state. create_oauth_state-Keeps state name redirect).at
        w h
  after-IsConsistent (Request.callback name code state base agent ip key) w h =
      (oauth_callback-Keeps pkg net tokens oauth_store_keeps name code state base agent ip key).at w
        h
  after-IsConsistent (Request.add_provider name client_id secret scopes) w h =
      (create_provider-Keeps name client_id secret scopes).at w h
  after-IsConsistent (Request.change_provider name client_id secret on scopes) w h =
      (update_provider-Keeps name client_id secret on scopes).at w h
  after-IsConsistent (Request.drop_provider name) w h = (delete_provider-Keeps name).at w h

  -- From a database that satisfies the constraints of the migrations (primary keys, unique columns,
  -- foreign keys), every sequence of requests, with calls failing and time passing in any way,
  -- leads to a database that satisfies them, also after requests that failed halfway.
  pub reach-IsConsistent :
      (allowed : Request → Bool) (w v : World Db)
      → IsConsistent w.db
      → Reach pkg net tokens allowed w v
      → IsConsistent v.db
  reach-IsConsistent allowed w _ h Reach.start = h
  reach-IsConsistent allowed w _ h (Reach.request r _ before) =
      after-IsConsistent r _ (reach-IsConsistent allowed w _ h before)
  reach-IsConsistent allowed w _ h (Reach.meanwhile now faults before) =
      reach-IsConsistent allowed w _ h before
