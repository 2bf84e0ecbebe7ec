-- ===== src/Auth/Store/Integrity.antt =====
-- The constraints that services/auth/migrations declare, as an invariant of the database.
pub mod Accounts
pub mod Rows
pub mod Providers
pub mod Actions
use garance.Prelude.{ℕ, Str, Bool, true, List, ◌≡◌, All}
use garance.Sql.{exists}
use garance.Sql.Index.{IsUnique}
use garance.Auth.Tables.{User, Session, Identity, VerificationToken, OAuthProvider, OAuthState, Db}
use garance.Auth.Store.Users.{has_id}
use garance.Auth.Store.Verification.{is_null_or_user}

abbrev pub account : Identity → Str × Str
account i = (i.provider, i.provider_user_id)

-- REFERENCES garance_auth.users(id)
abbrev pub IsUser : List User → ℕ → Type 0
IsUser users id = exists (has_id id) users ≡ true

-- Primary keys, unique columns and foreign keys.
pub record IsConsistent (d : Db) : Type 0 where
  pub user_ids : IsUnique (λ (u : User). u.id) d.users
  pub emails : IsUnique (λ (u : User). u.email) d.users
  pub session_ids : IsUnique (λ (s : Session). s.id) d.sessions
  pub refresh_tokens : IsUnique (λ (s : Session). s.refresh_token) d.sessions
  pub session_users : All (λ (s : Session). IsUser d.users s.user_id) d.sessions
  pub identity_ids : IsUnique (λ (i : Identity). i.id) d.identities
  pub accounts : IsUnique account d.identities
  pub identity_users : All (λ (i : Identity). IsUser d.users i.user_id) d.identities
  pub token_ids : IsUnique (λ (v : VerificationToken). v.id) d.verification_tokens
  pub tokens : IsUnique (λ (v : VerificationToken). v.token) d.verification_tokens
  pub token_users :
      All
        (λ (v : VerificationToken). is_null_or_user v.user_id d.users ≡ true)
        d.verification_tokens
  pub provider_ids : IsUnique (λ (p : OAuthProvider). p.id) d.providers
  pub provider_names : IsUnique (λ (p : OAuthProvider). p.provider) d.providers
  pub states : IsUnique (λ (s : OAuthState). s.state) d.oauth_states
