-- ===== src/Auth/Store/Integrity/Actions.antt =====
-- Every method of the store keeps the constraints, also where it fails.
use garance.Prelude.{ℕ, Str, Bool, Option}
use garance.Errors.{Sentinel}
use garance.Exec.{Result, statement, call, catch, replace_error}
use garance.Exec.Keeps.{
  Keeps, Keeps-send, Keeps-insert, Keeps-catch, Keeps-bind, Keeps-ignore, Keeps-replace_error,
  keeps_rules,
}
use garance.Auth.Tables.{Db}
use garance.Auth.Store.Users.{
  create_user, get_user_by_id, get_user_by_email, verify_user_email, update_user_password,
  delete_user,
}
use garance.Auth.Store.Sessions.{
  create_session, get_session_by_refresh_token, revoke_session, revoke_all_user_sessions,
}
use garance.Auth.Store.Identities.{
  create_identity, get_identity_by_provider, update_identity_provider_data,
}
use garance.Auth.Store.Verification.{
  create_verification_token, get_verification_token, mark_token_used,
}
use garance.Auth.Store.States.{create_oauth_state, get_and_consume_oauth_state}
use garance.Auth.Store.Providers.{create_provider, get_provider, update_provider, delete_provider}
use garance.Auth.Store.Integrity.{IsConsistent}
use garance.Auth.Store.Integrity.Accounts.{
  insert_user-IsConsistent, set_email_verified-IsConsistent, set_password-IsConsistent,
  remove_user-IsConsistent,
}
use garance.Auth.Store.Integrity.Rows.{
  insert_session-IsConsistent, set_revoked-IsConsistent, set_all_revoked-IsConsistent,
  insert_identity-IsConsistent, set_provider_data-IsConsistent, insert_token-IsConsistent,
  set_used-IsConsistent, insert_state-IsConsistent, remove_expired_states-IsConsistent,
  take_state-IsConsistent,
}
use garance.Auth.Store.Integrity.Providers.{
  insert_provider-IsConsistent, run_update-IsConsistent, remove_provider-IsConsistent,
}

module _ {A : Type 0} where
  -- A query that leaves the database as it is, with one error replaced by another.
  Keeps-query :
      (f : ℕ → Db → Result A) (from to : Sentinel)
      → Keeps IsConsistent (catch (call (statement λ t d. (f t d, d))) (replace_error from to))
  Keeps-query f from to = Keeps-catch _ _ (Keeps-send _ λ t d h. h) (Keeps-replace_error from to)

pub create_user-Keeps : (email : Str) (pw : Option Str) → Keeps IsConsistent (create_user email pw)
unfolding create_user
create_user-Keeps email pw =
    Keeps-catch _ _ (Keeps-insert _ λ id t d h. insert_user-IsConsistent h id email pw t)
      (λ e. search keeps_rules)

pub get_user_by_id-Keeps : (id : ℕ) → Keeps IsConsistent (get_user_by_id id)
unfolding get_user_by_id
get_user_by_id-Keeps id = Keeps-query _ _ _

pub get_user_by_email-Keeps : (email : Str) → Keeps IsConsistent (get_user_by_email email)
unfolding get_user_by_email
get_user_by_email-Keeps email = Keeps-query _ _ _

pub verify_user_email-Keeps : (id : ℕ) → Keeps IsConsistent (verify_user_email id)
unfolding verify_user_email
verify_user_email-Keeps id = Keeps-send _ λ t d h. set_email_verified-IsConsistent h id t

pub update_user_password-Keeps :
    (id : ℕ) (pw : Str) → Keeps IsConsistent (update_user_password id pw)
unfolding update_user_password
update_user_password-Keeps id pw = Keeps-send _ λ t d h. set_password-IsConsistent h id pw t

pub delete_user-Keeps : (id : ℕ) → Keeps IsConsistent (delete_user id)
unfolding delete_user
delete_user-Keeps id = Keeps-send _ λ t d h. remove_user-IsConsistent h id t

pub create_session-Keeps :
    (user_id : ℕ) (token agent ip : Str)
    → Keeps IsConsistent (create_session user_id token agent ip)
unfolding create_session
create_session-Keeps user_id token agent ip =
    Keeps-insert _ λ id t d h. insert_session-IsConsistent h id user_id token agent ip t

pub get_session_by_refresh_token-Keeps :
    (token : Str) → Keeps IsConsistent (get_session_by_refresh_token token)
unfolding get_session_by_refresh_token
get_session_by_refresh_token-Keeps token = Keeps-query _ _ _

pub revoke_session-Keeps : (id : ℕ) → Keeps IsConsistent (revoke_session id)
unfolding revoke_session
revoke_session-Keeps id = Keeps-send _ λ t d h. set_revoked-IsConsistent h id t

pub revoke_all_user_sessions-Keeps :
    (user_id : ℕ) → Keeps IsConsistent (revoke_all_user_sessions user_id)
unfolding revoke_all_user_sessions
revoke_all_user_sessions-Keeps user_id =
    Keeps-send _ λ t d h. set_all_revoked-IsConsistent h user_id t

pub create_identity-Keeps :
    (user_id : ℕ) (provider name raw : Str)
    → Keeps IsConsistent (create_identity user_id provider name raw)
unfolding create_identity
create_identity-Keeps user_id provider name raw =
    Keeps-insert _ λ id t d h. insert_identity-IsConsistent h id user_id provider name raw t

pub get_identity_by_provider-Keeps :
    (provider name : Str) → Keeps IsConsistent (get_identity_by_provider provider name)
unfolding get_identity_by_provider
get_identity_by_provider-Keeps provider name = Keeps-query _ _ _

pub update_identity_provider_data-Keeps :
    (provider name raw : Str) → Keeps IsConsistent (update_identity_provider_data provider name raw)
unfolding update_identity_provider_data
update_identity_provider_data-Keeps provider name raw =
    Keeps-send _ λ t d h. set_provider_data-IsConsistent h provider name raw t

pub create_verification_token-Keeps :
    (user_id : Option ℕ) (email token type : Str) (ttl : ℕ)
    → Keeps IsConsistent (create_verification_token user_id email token type ttl)
unfolding create_verification_token
create_verification_token-Keeps user_id email token type ttl =
    Keeps-insert _ λ id t d h. insert_token-IsConsistent h id user_id email token type ttl t

pub get_verification_token-Keeps : (token : Str) → Keeps IsConsistent (get_verification_token token)
unfolding get_verification_token
get_verification_token-Keeps token = Keeps-query _ _ _

pub mark_token_used-Keeps : (id : ℕ) → Keeps IsConsistent (mark_token_used id)
unfolding mark_token_used
mark_token_used-Keeps id = Keeps-send _ λ t d h. set_used-IsConsistent h id t

pub create_oauth_state-Keeps :
    (state provider redirect : Str)
    → Keeps IsConsistent (create_oauth_state state provider redirect)
unfolding create_oauth_state
create_oauth_state-Keeps state provider redirect =
    Keeps-send _ λ t d h. insert_state-IsConsistent h state provider redirect t

pub get_and_consume_oauth_state-Keeps :
    (state : Str) → Keeps IsConsistent (get_and_consume_oauth_state state)
unfolding get_and_consume_oauth_state
get_and_consume_oauth_state-Keeps state =
    Keeps-bind _ _ (Keeps-ignore _ (Keeps-send _ λ t d h. remove_expired_states-IsConsistent h t))
      λ _.
        Keeps-catch _ _ (Keeps-send _ λ t d h. take_state-IsConsistent h state t)
          (Keeps-replace_error _ _)

pub create_provider-Keeps :
    (name client secret scopes : Str)
    → Keeps IsConsistent (create_provider name client secret scopes)
unfolding create_provider
create_provider-Keeps name client secret scopes =
    Keeps-catch _ _
      (Keeps-insert _ λ id t d h. insert_provider-IsConsistent h id name client secret scopes t)
      (λ e. search keeps_rules)

pub get_provider-Keeps : (name : Str) → Keeps IsConsistent (get_provider name)
unfolding get_provider
get_provider-Keeps name = Keeps-query _ _ _

pub update_provider-Keeps :
    (name : Str) (id secret : Option Str) (on : Option Bool) (scope : Option Str)
    → Keeps IsConsistent (update_provider name id secret on scope)
unfolding update_provider
update_provider-Keeps name id secret on scope =
    Keeps-bind _ _ (Keeps-send _ λ t d h. run_update-IsConsistent h name id secret on scope t)
      (λ affected. search keeps_rules)

pub delete_provider-Keeps : (name : Str) → Keeps IsConsistent (delete_provider name)
unfolding delete_provider
delete_provider-Keeps name =
    Keeps-bind _ _ (Keeps-send _ λ t d h. remove_provider-IsConsistent h name t)
      (λ affected. search keeps_rules)
