-- ===== src/Auth/Service/OAuth.antt =====
-- services/auth/internal/service/oauth.go
use garance.Prelude.{
  Str, bytes, [], ◌++◌, Bool, false, ◌&&◌, ◌||◌, Option, none, some, ◌==◌, str_eq, zero, suc, ℕ,
  ◌∷◌, if◌then◌else◌,
}
use garance.Errors.{Sentinel, errors_is}
use garance.Exec.{
  Result, Action, pure, raise, fail, crash, lift, ◌>>=◌, ◌>>◌, catch, either, wrapped, ignore,
  random_bytes,
}
use garance.Encoding.Hex
use garance.Auth.Packages.{Packages, Url}
use garance.Auth.Tables.{Db, User, OAuthProvider, OAuthState}
use garance.Auth.Token.{Manager}
use garance.Auth.Crypto.Encrypt.{decrypt}
use garance.Auth.OAuth.{OAuthProfile, Remote, Provider, new_provider, authorize_url}
use garance.Auth.OAuth.Client.{exchange_code, get_user_profile}
use garance.Auth.Store.Users.{create_user, get_user_by_email, get_user_by_id, verify_user_email}
use garance.Auth.Store.Identities.{
  create_identity, get_identity_by_provider, update_identity_provider_data,
}
use garance.Auth.Store.States.{create_oauth_state, get_and_consume_oauth_state}
use garance.Auth.Store.Providers.{get_provider}
use garance.Auth.Service.{AuthResult, respond, reject_banned}

abbrev is_local : Str → Bool
is_local hostname = hostname == bytes "localhost" || hostname == bytes "127.0.0.1"

abbrev same_origin : Option Url → Option Url → Bool
same_origin none base = false
same_origin (some r) none = false
same_origin (some r) (some base) =
    if is_local base.hostname
    then is_local r.hostname
    else r.scheme == base.scheme && r.host == base.host

-- fmt.Sprintf("%s/auth/v1/oauth/%s/callback", baseURL, providerName)
abbrev callback_uri : Str → Str → Str
callback_uri base name = base ++ (bytes "/auth/v1/oauth/" ++ (name ++ bytes "/callback"))

abbrev zeros : ℕ → Str
zeros zero = []
zeros (suc n) = 0 ∷ zeros n

-- `rand.Read(stateBytes)`: its error is dropped, and then the buffer is as it was made.
state_bytes : Action Db Str
state_bytes = catch (random_bytes 32) (λ e. pure (zeros 32))

module _ (pkg : Packages) where
  open pkg use {parse_url}

  unfoldable pub is_valid_redirect_uri : Str → Str → Bool
  is_valid_redirect_uri redirect base =
      if redirect == [] then false else same_origin (parse_url redirect) (parse_url base)

  -- `if err != nil || !providerConfig.Enabled`
  unfoldable pub enabled_provider : Str → Action Db OAuthProvider
  enabled_provider name =
      either (get_provider name) (λ e. fail Sentinel.oauth_provider_not_configured)
        λ p. if p.enabled then pure p else fail Sentinel.oauth_provider_not_configured

  unfoldable pub start_flow : Str → Str → Str → Provider → Action Db Str
  unfolding state_bytes
  start_flow name redirect base provider = state_bytes >>= λ b.
      wrapped "failed to create state" (create_oauth_state (Hex.encode b) name redirect)
      >> pure (authorize_url provider (Hex.encode b) (callback_uri base name))

  unfoldable pub oauth_authorize : Str → Str → Str → Str → Action Db Str
  oauth_authorize name redirect base key =
      if is_valid_redirect_uri redirect base
      then (enabled_provider name >>= λ p.
          wrapped "failed to decrypt client secret"
            (lift (decrypt pkg p.client_secret_encrypted key))
          >>= λ secret. lift (new_provider name p.client_id secret p.scopes) >>= λ provider.
              start_flow name redirect base provider)
      else fail Sentinel.invalid_redirect_uri

module _ (net : Remote) where
  open net use {marshal}

  -- A new user; where the address was taken in the meantime, the user that took it.
  unfoldable pub create_or_get : Str → Action Db User
  create_or_get email =
      catch (create_user email none)
        λ e. if errors_is e Sentinel.email_already_taken then get_user_by_email email else raise e

  unfoldable pub create_oauth_user : Str → OAuthProfile → Action Db User
  create_oauth_user name profile = create_or_get profile.email >>= λ user.
      ignore (verify_user_email user.id)
      >> (ignore (create_identity user.id name profile.provider_user_id (marshal profile.raw))
          >> get_user_by_id user.id)

  unfoldable pub link_or_create : Str → OAuthProfile → Action Db User
  link_or_create name profile =
      either (get_user_by_email profile.email) (λ e. create_oauth_user name profile)
        λ user.
          ignore (create_identity user.id name profile.provider_user_id (marshal profile.raw))
          >> pure user

  unfoldable pub find_or_create_oauth_user : Str → OAuthProfile → Action Db User
  find_or_create_oauth_user name profile =
      either (get_identity_by_provider name profile.provider_user_id)
        (λ e. link_or_create name profile)
        λ identity.
          ignore (update_identity_provider_data name profile.provider_user_id (marshal profile.raw))
          >> get_user_by_id identity.user_id

  abbrev lowered : OAuthProfile → OAuthProfile
  lowered profile = record profile { email = net.to_lower profile.email }

  -- From the provider's answers to the profile; `provider, _ := NewProvider(...)` may be nil.
  abbrev pub fetch_profile : Result Provider → Str → Str → Action Db OAuthProfile
  fetch_profile (Result.ok provider) code callback =
      wrapped "code exchange failed" (exchange_code net provider code callback) >>= λ token.
      wrapped "failed to get profile" (get_user_profile net provider token.access_token)
  fetch_profile (Result.err e) code callback = crash
  fetch_profile Result.panic code callback = crash

module _ (pkg : Packages) (net : Remote) (tokens : Manager) where
  -- The rest of the callback for a state that was found for this provider.
  unfoldable pub finish_flow :
      Str → Str → Str → Str → Str → Str → OAuthState → Action Db (AuthResult × Str)
  finish_flow name code base agent ip key s = enabled_provider pkg name >>= λ p.
      wrapped "failed to decrypt" (lift (decrypt pkg p.client_secret_encrypted key)) >>= λ secret.
      fetch_profile net (new_provider name p.client_id secret p.scopes) code
        (callback_uri base name)
      >>= λ profile.
          if profile.email == []
          then fail Sentinel.oauth_no_email
          else (find_or_create_oauth_user net name (lowered net profile) >>= λ user.
              reject_banned pkg tokens user
              >> (respond pkg tokens user agent ip >>= λ r. pure (r, s.redirect_uri)))

  unfoldable pub oauth_callback :
      Str → Str → Str → Str → Str → Str → Str → Action Db (AuthResult × Str)
  oauth_callback name code state base agent ip key =
      either (get_and_consume_oauth_state state) (λ e. fail Sentinel.invalid_oauth_state)
        λ s.
          if s.provider == name
          then finish_flow name code base agent ip key s
          else fail Sentinel.invalid_oauth_state
