-- ===== src/Auth/Tables.antt =====
-- The rows of the auth service's tables (services/auth/migrations, and the structs of
-- services/auth/internal/store that the statements scan them into), and the whole database.
-- A uuid is a number, a time a number of seconds.
use garance.Prelude.{ℕ, Str, Bool, Option, List}

pub record User : Type 0 where
  pub id : ℕ
  pub email : Str
  pub encrypted_password : Option Str
  pub email_verified : Bool
  pub role : Str
  pub metadata : Str
  pub created_at : ℕ
  pub updated_at : ℕ
  pub banned_at : Option ℕ

pub record Session : Type 0 where
  pub id : ℕ
  pub user_id : ℕ
  pub refresh_token : Str
  pub user_agent : Option Str
  pub ip_address : Option Str
  pub created_at : ℕ
  pub expires_at : ℕ
  pub revoked_at : Option ℕ

pub record Identity : Type 0 where
  pub id : ℕ
  pub user_id : ℕ
  pub provider : Str
  pub provider_user_id : Str
  pub provider_data : Str
  pub created_at : ℕ
  pub updated_at : ℕ

pub record VerificationToken : Type 0 where
  pub id : ℕ
  pub user_id : Option ℕ
  pub email : Str
  pub token : Str
  pub type : Str
  pub created_at : ℕ
  pub expires_at : ℕ
  pub used_at : Option ℕ

pub record OAuthProvider : Type 0 where
  pub id : ℕ
  pub provider : Str
  pub client_id : Str
  pub client_secret_encrypted : Str
  pub enabled : Bool
  pub scopes : Str
  pub created_at : ℕ
  pub updated_at : ℕ

pub record OAuthState : Type 0 where
  pub state : Str
  pub provider : Str
  pub redirect_uri : Str
  pub created_at : ℕ
  pub expires_at : ℕ

pub record Db : Type 0 where
  pub users : List User
  pub sessions : List Session
  pub identities : List Identity
  pub verification_tokens : List VerificationToken
  pub providers : List OAuthProvider
  pub oauth_states : List OAuthState

abbrev pub empty_db : Db
empty_db = record {
  users = List.[];
  sessions = List.[];
  identities = List.[];
  verification_tokens = List.[];
  providers = List.[];
  oauth_states = List.[];
}
