-- ===== src/Auth/Store/Hashed.antt =====
-- The form of the passwords that services/auth/internal/store/user.go stores, which the methods of the
-- store keep.
use garance.Prelude.{
  ℕ, Str, Bool, true, false, ◌||◌, ◌≡◌, Option, none, some, All, ltb, length, nat_eq, str_eq,
  if◌then◌else◌,
}
use garance.Errors.{Sentinel}
use garance.Sql.{exists}
use garance.Sql.Index.{All-update, All-delete}
use garance.Exec.{Result, call, statement, catch, replace_error}
use garance.Exec.Keeps.{
  Keeps, Keeps-send, Keeps-insert, Keeps-catch, Keeps-bind, Keeps-ignore, Keeps-replace_error,
  keeps_rules,
}
use garance.Auth.Packages.{Packages}
use garance.Auth.Tables.{Db, User}
use garance.Auth.Crypto.Encoded.{default_params, encode_hash}
use garance.Auth.Store.Users.{
  has_id, has_email, verified_at, insert_user, create_user, get_user_by_id, get_user_by_email,
  verify_user_email, delete_user,
}
use garance.Auth.Store.Sessions.{
  has_session_id, has_refresh_token, insert_session, create_session, get_session_by_refresh_token,
  revoke_session,
}
use garance.Auth.Store.Identities.{
  has_identity_id, has_account, insert_identity, create_identity, get_identity_by_provider,
  update_identity_provider_data,
}
use garance.Auth.Store.States.{
  insert_state, create_oauth_state, get_and_consume_oauth_state, has_state,
}
use garance.Auth.Store.Providers.{
  has_provider_id, has_name, insert_provider, create_provider, get_provider, update_provider,
  delete_provider, is_well_typed, build_update,
}

module _ (pkg : Packages) where
  -- The argon2 hash of a password with the default parameters and some salt.
  abbrev pub IsHashOf : Str → Str → Type 0
  IsHashOf password text =
      (salt : Str) × (hash : Str) × ((pkg.argon2_id_key password salt default_params.iterations
            default_params.memory default_params.parallelism default_params.key_length
          ≡ some hash)
        × (text ≡ encode_hash default_params salt hash))

  -- What may stand in the column encrypted_password.
  abbrev pub IsHashed : Option Str → Type 0
  IsHashed none = Unit
  IsHashed (some text) =
      (password : Str) × ((ltb (length password) 8 ≡ false) × IsHashOf password text)

  abbrev pub AllHashed : Db → Type 0
  AllHashed d = All (λ (u : User). IsHashed u.encrypted_password) d.users

  either_way :
      {A : Type 0} (b : Bool) (x y : Result A × Db)
      → AllHashed x.1
      → AllHashed y.1
      → AllHashed (if b then x else y).1
  either_way true x y hx hy = hx
  either_way false x y hx hy = hy

  query :
      {A : Type 0} (f : ℕ → Db → Result A) (from to : Sentinel)
      → Keeps AllHashed (catch (call (statement λ t d. (f t d, d))) (replace_error from to))
  query f from to = Keeps-catch _ _ (Keeps-send _ λ t d h. h) (Keeps-replace_error from to)

  pub creates_user :
      (email : Str) (pw : Option Str) → IsHashed pw → Keeps AllHashed (create_user email pw)
  unfolding create_user insert_user
  creates_user email pw hashed =
      Keeps-catch _ _
        (Keeps-insert _ λ id t d h.
          either_way (exists (has_id id) d.users || exists (has_email email) d.users) _ _ h
            (hashed, h))
        (λ e. search keeps_rules)

  pub gets_user : (id : ℕ) → Keeps AllHashed (get_user_by_id id)
  unfolding get_user_by_id
  gets_user id = query _ _ _

  pub deletes_user : (id : ℕ) → Keeps AllHashed (delete_user id)
  unfolding delete_user
  deletes_user id = Keeps-send _ λ t d h. All-delete _ (has_id id) d.users h

  pub creates_session :
      (id : ℕ) (token agent ip : Str) → Keeps AllHashed (create_session id token agent ip)
  unfolding create_session insert_session
  creates_session id token agent ip = Keeps-insert _ λ row t d h.
      either_way
        (exists (has_session_id row) d.sessions || exists (has_refresh_token token) d.sessions) _ _
        h (either_way (exists (has_id id) d.users) _ _ h h)

  pub finds_user : (email : Str) → Keeps AllHashed (get_user_by_email email)
  unfolding get_user_by_email
  finds_user email = query _ _ _

  pub gets_session : (token : Str) → Keeps AllHashed (get_session_by_refresh_token token)
  unfolding get_session_by_refresh_token
  gets_session token = query _ _ _

  pub revokes : (id : ℕ) → Keeps AllHashed (revoke_session id)
  unfolding revoke_session
  revokes id = Keeps-send _ λ t d h. h

  pub verifies : (id : ℕ) → Keeps AllHashed (verify_user_email id)
  unfolding verify_user_email
  verifies id = Keeps-send _ λ t d h. All-update _ (has_id id) (verified_at t) d.users (λ u k. k) h

  pub links :
      (id : ℕ) (name account raw : Str) → Keeps AllHashed (create_identity id name account raw)
  unfolding create_identity insert_identity
  links id name account raw = Keeps-insert _ λ row t d h.
      either_way
        (exists (has_identity_id row) d.identities
          || exists (has_account name account) d.identities)
        _ _ h (either_way (exists (has_id id) d.users) _ _ h h)

  pub gets_identity : (name account : Str) → Keeps AllHashed (get_identity_by_provider name account)
  unfolding get_identity_by_provider
  gets_identity name account = query _ _ _

  pub updates_identity :
      (name account raw : Str) → Keeps AllHashed (update_identity_provider_data name account raw)
  unfolding update_identity_provider_data
  updates_identity name account raw = Keeps-send _ λ t d h. h

  pub gets_provider : (name : Str) → Keeps AllHashed (get_provider name)
  unfolding get_provider
  gets_provider name = query _ _ _

  pub consumes : (state : Str) → Keeps AllHashed (get_and_consume_oauth_state state)
  unfolding get_and_consume_oauth_state
  consumes state =
      Keeps-bind _ _ (Keeps-ignore _ (Keeps-send _ λ t d h. h))
        λ _. Keeps-catch _ _ (Keeps-send _ λ t d h. h) (Keeps-replace_error _ _)

  pub creates_state :
      (state name redirect : Str) → Keeps AllHashed (create_oauth_state state name redirect)
  unfolding create_oauth_state insert_state
  creates_state state name redirect =
      Keeps-send _ λ t d h. either_way (exists (has_state state) d.oauth_states) _ _ h h

  pub creates_provider :
      (name client secret scopes : Str)
      → Keeps AllHashed (create_provider name client secret scopes)
  unfolding create_provider insert_provider
  creates_provider name client secret scopes =
      Keeps-catch _ _
        (Keeps-insert _ λ id t d h.
          either_way (exists (has_provider_id id) d.providers || exists (has_name name) d.providers)
            _ _ h h)
        (λ e. search keeps_rules)

  pub updates_provider :
      (name : Str) (id secret : Option Str) (on : Option Bool) (scope : Option Str)
      → Keeps AllHashed (update_provider name id secret on scope)
  unfolding update_provider
  updates_provider name id secret on scope =
      Keeps-bind _ _
        (Keeps-send _
          λ t d h. either_way (is_well_typed (build_update name id secret on scope)) _ _ h h)
        (λ affected. search keeps_rules)

  pub deletes_provider : (name : Str) → Keeps AllHashed (delete_provider name)
  unfolding delete_provider
  deletes_provider name = Keeps-bind _ _ (Keeps-send _ λ t d h. h) (λ affected. search keeps_rules)
