-- ===== src/Auth/Service/KeepingOAuth.antt =====
-- Whatever the store's methods keep, the OAuth methods of the service keep.
use garance.Prelude.{Str, ℕ, [], ◌==◌, str_eq}
use garance.Errors.{Sentinel, errors_is}
use garance.Exec.{Result}
use garance.Exec.Keeps.{
  Keeps, Keeps-bind, Keeps-if, Keeps-fail, Keeps-pure, Keeps-crash, Keeps-lift, Keeps-raise,
  Keeps-catch, Keeps-either, Keeps-wrapped, Keeps-ignore, Keeps-random_bytes, keeps_rules,
}
use garance.Auth.Packages.{Packages}
use garance.Auth.Tables.{Db, OAuthState}
use garance.Auth.Token.{Manager}
use garance.Auth.OAuth.{OAuthProfile, Remote, Provider, Object, HttpRequest}
use garance.Auth.OAuth.Client.{
  request, exchange_code, github_email, get_user_profile, fetch_primary_email, public_email,
}
use garance.Auth.Store.Users.{verify_user_email}
use garance.Auth.Store.Identities.{
  create_identity, get_identity_by_provider, update_identity_provider_data,
}
use garance.Auth.Store.States.{create_oauth_state, get_and_consume_oauth_state}
use garance.Auth.Store.Providers.{get_provider}
use garance.Auth.Service.Keeping.{StoreKeeps, respond-Keeps, reject_banned-Keeps}
use garance.Auth.Service.OAuth.{
  is_valid_redirect_uri, enabled_provider, start_flow, oauth_authorize, create_or_get,
  create_oauth_user, link_or_create, find_or_create_oauth_user, fetch_profile, finish_flow,
  oauth_callback,
}

-- The further methods of the store that the OAuth methods call, but the creation of a state, which
-- a later module looks at more closely.
pub record OAuthStoreKeeps (P : Db → Type 0) : Type 0 where
  pub store : StoreKeeps P
  pub verifies : (id : ℕ) → Keeps P (verify_user_email id)
  pub links :
      (id : ℕ) (provider account raw : Str) → Keeps P (create_identity id provider account raw)
  pub gets_identity : (provider account : Str) → Keeps P (get_identity_by_provider provider account)
  pub updates_identity :
      (provider account raw : Str) → Keeps P (update_identity_provider_data provider account raw)
  pub gets_provider : (name : Str) → Keeps P (get_provider name)
  pub consumes : (state : Str) → Keeps P (get_and_consume_oauth_state state)

module _ (net : Remote) {P : Db → Type 0} where
  request-Keeps : (r : HttpRequest) → Keeps P (request net {D = Db} r)
  unfolding request
  request-Keeps r = search keeps_rules

  exchange_code-Keeps :
      (p : Provider) (code redirect : Str) → Keeps P (exchange_code net {D = Db} p code redirect)
  unfolding exchange_code
  exchange_code-Keeps (Provider.google c) code redirect = search keeps_rules
  exchange_code-Keeps (Provider.github c) code redirect = search keeps_rules
  exchange_code-Keeps (Provider.gitlab c) code redirect = search keeps_rules

  fetch_primary_email-Keeps : (token : Str) → Keeps P (fetch_primary_email net {D = Db} token)
  unfolding fetch_primary_email
  fetch_primary_email-Keeps token = search keeps_rules

  github_email-Keeps : (token : Str) (raw : Object) → Keeps P (github_email net {D = Db} token raw)
  github_email-Keeps token raw =
      Keeps-if (public_email net raw == []) _ _
        (Keeps-catch _ _ (fetch_primary_email-Keeps token) (λ e. Keeps-pure _)) (Keeps-pure _)

  get_user_profile-Keeps :
      (p : Provider) (token : Str) → Keeps P (get_user_profile net {D = Db} p token)
  unfolding get_user_profile
  get_user_profile-Keeps (Provider.google c) token = search keeps_rules
  get_user_profile-Keeps (Provider.github c) token = search (keeps_rules, github_email-Keeps)
  get_user_profile-Keeps (Provider.gitlab c) token = search keeps_rules

module _ (pkg : Packages) {P : Db → Type 0} (k : OAuthStoreKeeps P) where
  enabled_provider-Keeps : (name : Str) → Keeps P (enabled_provider pkg name)
  unfolding enabled_provider
  enabled_provider-Keeps name =
      Keeps-either _ _ _ (k.gets_provider name) (λ e. Keeps-fail _)
        λ p. Keeps-if p.enabled _ _ (Keeps-pure p) (Keeps-fail _)

  start_flow-Keeps :
      (name redirect base : Str) (p : Provider)
      → ((state : Str) → Keeps P (create_oauth_state state name redirect))
      → Keeps P (start_flow pkg name redirect base p)
  unfolding start_flow
  start_flow-Keeps name redirect base p creates =
      Keeps-bind _ _ (Keeps-catch _ _ (Keeps-random_bytes 32) (λ e. Keeps-pure _))
        λ b. Keeps-bind _ _ (Keeps-wrapped "failed to create state" _ (creates _)) λ _. Keeps-pure _

module _ (net : Remote) {P : Db → Type 0} (k : OAuthStoreKeeps P) where
  create_or_get-Keeps : (email : Str) → Keeps P (create_or_get net email)
  unfolding create_or_get
  create_or_get-Keeps email = Keeps-catch _ _ (k.store.creates_user email) λ e.
      Keeps-if (errors_is e Sentinel.email_already_taken) _ _ (k.store.finds_user email)
        (Keeps-raise e)

  link_or_create-Keeps :
      (name : Str) (profile : OAuthProfile) → Keeps P (link_or_create net name profile)
  unfolding link_or_create create_oauth_user
  link_or_create-Keeps name profile =
      Keeps-either _ _ _ (k.store.finds_user profile.email)
        (λ e. Keeps-bind _ _ (create_or_get-Keeps profile.email) λ user.
          Keeps-bind _ _ (Keeps-ignore _ (k.verifies user.id))
            λ _. Keeps-bind _ _ (Keeps-ignore _ (k.links _ _ _ _)) λ _. k.store.gets_user user.id)
        λ user. Keeps-bind _ _ (Keeps-ignore _ (k.links _ _ _ _)) λ _. Keeps-pure user

  find_or_create_oauth_user-Keeps :
      (name : Str) (profile : OAuthProfile) → Keeps P (find_or_create_oauth_user net name profile)
  unfolding find_or_create_oauth_user
  find_or_create_oauth_user-Keeps name profile =
      Keeps-either _ _ _ (k.gets_identity _ _) (λ e. link_or_create-Keeps name profile)
        λ identity.
          Keeps-bind _ _ (Keeps-ignore _ (k.updates_identity _ _ _))
            λ _. k.store.gets_user identity.user_id

  fetch_profile-Keeps :
      (r : Result Provider) (code callback : Str) → Keeps P (fetch_profile net r code callback)
  fetch_profile-Keeps (Result.ok p) code callback =
      Keeps-bind _ _ (Keeps-wrapped _ _ (exchange_code-Keeps net p code callback))
        λ token. Keeps-wrapped _ _ (get_user_profile-Keeps net p token.access_token)
  fetch_profile-Keeps (Result.err e) code callback = Keeps-crash
  fetch_profile-Keeps Result.panic code callback = Keeps-crash

module _ (pkg : Packages) (net : Remote) (tokens : Manager) {P : Db → Type 0}
    (k : OAuthStoreKeeps P) where
  -- The state that the flow stores is the only row that depends on the call.
  pub oauth_authorize-Keeps :
      (name redirect base key : Str)
      → ((state : Str) → Keeps P (create_oauth_state state name redirect))
      → Keeps P (oauth_authorize pkg name redirect base key)
  unfolding oauth_authorize
  oauth_authorize-Keeps name redirect base key creates =
      Keeps-if (is_valid_redirect_uri pkg redirect base) _ _
        (Keeps-bind _ _ (enabled_provider-Keeps pkg k name) λ p.
          Keeps-bind _ _ (Keeps-wrapped "failed to decrypt client secret" _ (Keeps-lift _))
            λ secret.
              Keeps-bind _ _ (Keeps-lift _)
                λ provider. start_flow-Keeps pkg k name redirect base provider creates)
        (Keeps-fail _)

  pub finish_flow-Keeps :
      (name code base agent ip key : Str) (s : OAuthState)
      → Keeps P (finish_flow pkg net tokens name code base agent ip key s)
  unfolding finish_flow
  finish_flow-Keeps name code base agent ip key s =
      Keeps-bind _ _ (enabled_provider-Keeps pkg k name) λ p.
        Keeps-bind _ _ (Keeps-wrapped "failed to decrypt" _ (Keeps-lift _)) λ secret.
          Keeps-bind _ _ (fetch_profile-Keeps net k _ code _) λ profile.
            Keeps-if (profile.email == []) _ _ (Keeps-fail _) (
              Keeps-bind _ _ (find_or_create_oauth_user-Keeps net k name _) λ user.
                Keeps-bind _ _ (reject_banned-Keeps pkg tokens k.store user) λ _.
                  Keeps-bind _ _ (respond-Keeps pkg tokens k.store user agent ip) λ r. Keeps-pure _)

  pub oauth_callback-Keeps :
      (name code state base agent ip key : Str)
      → Keeps P (oauth_callback pkg net tokens name code state base agent ip key)
  unfolding oauth_callback
  oauth_callback-Keeps name code state base agent ip key =
      Keeps-either _ _ _ (k.consumes state) (λ e. Keeps-fail _)
        λ s.
          Keeps-if (s.provider == name) _ _ (finish_flow-Keeps name code base agent ip key s)
            (Keeps-fail _)
