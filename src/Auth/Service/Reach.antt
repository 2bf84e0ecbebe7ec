-- ===== src/Auth/Service/Reach.antt =====
-- The auth service as a state machine: a step is a request to one of the methods of
-- services/auth/internal/service, or a change of its surroundings.
pub mod Consistent
pub mod Hashed
pub mod Untouched
pub mod Sessions
pub mod States
use garance.Prelude.{ℕ, Str, Bool, true, false, Option, List, ◌≡◌}
use garance.Exec.{World}
use garance.Auth.Packages.{Packages}
use garance.Auth.Tables.{Db}
use garance.Auth.Token.{Manager}
use garance.Auth.OAuth.{Remote}
use garance.Auth.Store.Providers.{create_provider, update_provider, delete_provider}
use garance.Auth.Service.{sign_up, sign_in, refresh_token, sign_out, get_user, delete_user}
use garance.Auth.Service.OAuth.{oauth_authorize, oauth_callback}

-- The methods of the gRPC service that change the database or hand out tokens.
pub data Request : Type 0 where
  signup : (email password agent ip : Str) → Request
  signin : (email password agent ip : Str) → Request
  refresh : (token agent ip : Str) → Request
  signout : (token : Str) → Request
  read_user : (id : ℕ) → Request
  remove_account : (id : ℕ) → Request
  authorize : (name redirect base key : Str) → Request
  callback : (name code state base agent ip key : Str) → Request
  add_provider : (name client_id secret scopes : Str) → Request
  change_provider :
      (name : Str) (client_id secret : Option Str) (on : Option Bool) (scopes : Option Str)
      → Request
  drop_provider : (name : Str) → Request

module _ (pkg : Packages) (net : Remote) (tokens : Manager) where
  -- The world that a request leaves, whatever it answers.
  abbrev pub after : Request → World Db → World Db
  after (Request.signup email password agent ip) w =
      (sign_up pkg tokens email password agent ip w).1
  after (Request.signin email password agent ip) w =
      (sign_in pkg tokens email password agent ip w).1
  after (Request.refresh token agent ip) w = (refresh_token pkg tokens token agent ip w).1
  after (Request.signout token) w = (sign_out token w).1
  after (Request.read_user id) w = (get_user id w).1
  after (Request.remove_account id) w = (delete_user id w).1
  after (Request.authorize name redirect base key) w =
      (oauth_authorize pkg name redirect base key w).1
  after (Request.callback name code state base agent ip key) w =
      (oauth_callback pkg net tokens name code state base agent ip key w).1
  after (Request.add_provider name client_id secret scopes) w =
      (create_provider name client_id secret scopes w).1
  after (Request.change_provider name client_id secret on scopes) w =
      (update_provider name client_id secret on scopes w).1
  after (Request.drop_provider name) w = (delete_provider name w).1

  -- The worlds that come after w by requests of some kind, as time passes and calls fail.
  pub data Reach (allowed : Request → Bool) (w : World Db) : World Db → Type 0 where
    start : Reach allowed w w
    request :
        {v : World Db} (r : Request)
        → allowed r ≡ true
        → Reach allowed w v
        → Reach allowed w (after r v)
    meanwhile :
        {v : World Db} (now : ℕ) (faults : List Bool)
        → Reach allowed w v
        → Reach allowed w (record v { now = now; faults = faults })

abbrev pub any_request : Request → Bool
any_request r = true

abbrev pub keeps_accounts : Request → Bool
keeps_accounts (Request.remove_account id) = false
keeps_accounts _ = true
