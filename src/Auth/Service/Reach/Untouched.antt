-- ===== src/Auth/Service/Reach/Untouched.antt =====
-- What the methods of services/auth/internal/store that work on users, identities and providers,
-- and those that only read, leave alone.
use garance.Prelude.{
  some, ℕ, Str, Bool, true, false, ◌||◌, Option, List, ◌≡◌, nat_eq, str_eq, if◌then◌else◌,
}
use garance.Sql.{exists, update}
use garance.Errors.{Error, Sentinel}
use garance.Exec.{World, Result, ok, err, statement, call, catch, replace_error}
use garance.Exec.Keeps.{
  Keeps, Keeps-send, Keeps-insert, Keeps-catch, Keeps-bind, Keeps-replace_error, keeps_rules,
}
use garance.Auth.Packages.{Packages}
use garance.Auth.Tables.{Db, User, Identity, OAuthProvider}
use garance.Auth.Token.{Manager}
use garance.Auth.OAuth.{Remote}
use garance.Auth.Store.Users.{
  insert_user, create_user, get_user_by_id, get_user_by_email, verify_user_email, has_id, has_email,
}
use garance.Auth.Store.Sessions.{get_session_by_refresh_token}
use garance.Auth.Store.Identities.{
  has_identity_id, has_account, insert_identity, create_identity, get_identity_by_provider,
  update_identity_provider_data,
}
use garance.Auth.Store.States.{create_oauth_state}
use garance.Auth.Store.Providers.{
  insert_provider, run_update, build_update, is_target, placeholder, apply_update, create_provider,
  get_provider, update_provider, delete_provider, is_well_typed, UpdateQuery, has_name,
  has_provider_id,
}
use garance.Auth.Store.Users.{delete_user}
use garance.Auth.Service.{get_user, delete_user as service_delete}
use garance.Auth.Service.Keeping.{sign_up-Keeps, sign_in-Keeps, refresh_token-Keeps, sign_out-Keeps}
use garance.Auth.Service.KeepingOAuth.{OAuthStoreKeeps, oauth_authorize-Keeps, oauth_callback-Keeps}
use garance.Auth.Service.Reach.{Request, after, Reach}

-- What does not depend on the users, the identities and the providers.
pub record Ignores (P : Db → Type 0) : Type 0 where
  pub users : (d : Db) (rows : List User) → P d → P (record d { users = rows })
  pub identities : (d : Db) (rows : List Identity) → P d → P (record d { identities = rows })
  pub providers : (d : Db) (rows : List OAuthProvider) → P d → P (record d { providers = rows })

module _ {P : Db → Type 0} (i : Ignores P) where
  module _ {A : Type 0} where
    pub either_way : (b : Bool) (x y : Result A × Db) → P x.1 → P y.1 → P (if b then x else y).1
    either_way true x y hx hy = hx
    either_way false x y hx hy = hy

    pub query :
        (f : ℕ → Db → Result A) (from to : Sentinel)
        → Keeps P (catch (call (statement λ t d. (f t d, d))) (replace_error from to))
    query f from to = Keeps-catch _ _ (Keeps-send _ λ t d h. h) (Keeps-replace_error from to)

  pub creates_user : (email : Str) (pw : Option Str) → Keeps P (create_user email pw)
  unfolding create_user insert_user
  creates_user email pw =
      Keeps-catch _ _
        (Keeps-insert _ λ id t d h.
          either_way (exists (has_id id) d.users || exists (has_email email) d.users) _ _ h
            (i.users d _ h))
        (λ e. search keeps_rules)

  pub gets_user : (id : ℕ) → Keeps P (get_user_by_id id)
  unfolding get_user_by_id
  gets_user id = query _ _ _

  pub finds_user : (email : Str) → Keeps P (get_user_by_email email)
  unfolding get_user_by_email
  finds_user email = query _ _ _

  pub verifies : (id : ℕ) → Keeps P (verify_user_email id)
  unfolding verify_user_email
  verifies id = Keeps-send _ λ t d h. i.users d _ h

  pub links : (id : ℕ) (name account raw : Str) → Keeps P (create_identity id name account raw)
  unfolding create_identity insert_identity
  links id name account raw = Keeps-insert _ λ row t d h.
      either_way
        (exists (has_identity_id row) d.identities
          || exists (has_account name account) d.identities)
        _ _ h (either_way (exists (has_id id) d.users) _ _ (i.identities d _ h) h)

  pub gets_session : (token : Str) → Keeps P (get_session_by_refresh_token token)
  unfolding get_session_by_refresh_token
  gets_session token = query _ _ _

  pub gets_identity : (name account : Str) → Keeps P (get_identity_by_provider name account)
  unfolding get_identity_by_provider
  gets_identity name account = query _ _ _

  pub updates_identity :
      (name account raw : Str) → Keeps P (update_identity_provider_data name account raw)
  unfolding update_identity_provider_data
  updates_identity name account raw = Keeps-send _ λ t d h. i.identities d _ h

  pub creates_provider :
      (name client secret scopes : Str) → Keeps P (create_provider name client secret scopes)
  unfolding create_provider insert_provider
  creates_provider name client secret scopes =
      Keeps-catch _ _
        (Keeps-insert _ λ id t d h.
          either_way (exists (has_provider_id id) d.providers || exists (has_name name) d.providers)
            _ _ h (i.providers d _ h))
        (λ e. search keeps_rules)

  pub gets_provider : (name : Str) → Keeps P (get_provider name)
  unfolding get_provider
  gets_provider name = query _ _ _

  provider_rows :
      (b : Bool) (r e : Result Bool × List OAuthProvider) (d : Db)
      → P d
      → P (if◌then◌else◌ {A = Result Bool × Db} b (r.0, record d { providers = r.1 }) (e.0, d)).1
  provider_rows true r e d h = i.providers d r.1 h
  provider_rows false r e d h = h

  runs_update : (q : UpdateQuery) (t : ℕ) (d : Db) → P d → P (run_update q t d).1
  runs_update q t d h =
      provider_rows (is_well_typed q)
        (
          ok (exists (is_target (placeholder q.arg_idx q.args)) d.providers),
          update (is_target (placeholder q.arg_idx q.args)) (apply_update q t) d.providers,
        )
        (err (Error.pg "42804"), d.providers) d h

  pub updates_provider :
      (name : Str) (id secret : Option Str) (on : Option Bool) (scope : Option Str)
      → Keeps P (update_provider name id secret on scope)
  unfolding update_provider
  updates_provider name id secret on scope =
      Keeps-bind _ _
        (Keeps-send _ λ t d h. runs_update (build_update name id secret on scope) t d h)
        (λ affected. search keeps_rules)

  pub deletes_provider : (name : Str) → Keeps P (delete_provider name)
  unfolding delete_provider
  deletes_provider name =
      Keeps-bind _ _ (Keeps-send _ λ t d h. i.providers d _ h) (λ affected. search keeps_rules)

-- What a request keeps: the store's methods that the service calls keep it, and those that only
-- some requests call keep it under the requests that are allowed.
module _ (pkg : Packages) (net : Remote) (tokens : Manager) {P : Db → Type 0} (i : Ignores P)
    (k : OAuthStoreKeeps P) (allowed : Request → Bool) where
  -- The two kinds of requests that Ignores does not speak of.
  abbrev pub Authorizes : Type 0
  Authorizes =
      (name redirect base key : Str)
      → allowed (Request.authorize name redirect base key) ≡ true
      → (state : Str) → Keeps P (create_oauth_state state name redirect)

  abbrev pub Removes : Type 0
  Removes = (id : ℕ) → allowed (Request.remove_account id) ≡ true → Keeps P (delete_user id)

  pub after-kept :
      (r : Request) (w : World Db)
      → Authorizes
      → Removes
      → allowed r ≡ true
      → P w.db
      → P (after pkg net tokens r w).db
  unfolding get_user service_delete
  after-kept (Request.signup email password agent ip) w starts removes a h =
      (sign_up-Keeps pkg tokens k.store (λ e hash. creates_user i e (some hash)) email password
          agent ip).at
        w h
  after-kept (Request.signin email password agent ip) w starts removes a h =
      (sign_in-Keeps pkg tokens k.store email password agent ip).at w h
  after-kept (Request.refresh other agent ip) w starts removes a h =
      (refresh_token-Keeps pkg tokens k.store other agent ip).at w h
  after-kept (Request.signout other) w starts removes a h = (sign_out-Keeps k.store other).at w h
  after-kept (Request.read_user id) w starts removes a h = (gets_user i id).at w h
  after-kept (Request.remove_account id) w starts removes a h = (removes id a).at w h
  after-kept (Request.authorize name redirect base key) w starts removes a h =
      (oauth_authorize-Keeps pkg net tokens k name redirect base key
          (starts name redirect base key a)).at
        w h
  after-kept (Request.callback name code state base agent ip key) w starts removes a h =
      (oauth_callback-Keeps pkg net tokens k name code state base agent ip key).at w h
  after-kept (Request.add_provider name client_id secret scopes) w starts removes a h =
      (creates_provider i name client_id secret scopes).at w h
  after-kept (Request.change_provider name client_id secret on scopes) w starts removes a h =
      (updates_provider i name client_id secret on scopes).at w h
  after-kept (Request.drop_provider name) w starts removes a h = (deletes_provider i name).at w h

  pub reach-kept :
      (w v : World Db) → Authorizes → Removes → P w.db → Reach pkg net tokens allowed w v → P v.db
  reach-kept w _ starts removes h Reach.start = h
  reach-kept w _ starts removes h (Reach.request r a before) =
      after-kept r _ starts removes a (reach-kept w _ starts removes h before)
  reach-kept w _ starts removes h (Reach.meanwhile now faults before) =
      reach-kept w _ starts removes h before
