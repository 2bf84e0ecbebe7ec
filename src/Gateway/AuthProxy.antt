-- ===== src/Gateway/AuthProxy.antt =====
-- services/gateway/internal/proxy/auth.go: the gRPC calls. A handler takes what the JSON decoder
-- makes of the body, none where it fails. Gateway.Passage has the OAuth routes.
use garance.Prelude.{ℕ, Str, bytes, [], Option, none, some, ◌==◌, str_eq, if◌then◌else◌}
use garance.Http.{Response, Handler, write_error}
use garance.Auth.Packages.{Packages}
use garance.Auth.Tables.{Db}
use garance.Auth.Token.{Manager}
use garance.Auth.Grpc
use garance.Auth.Grpc.{AuthResponse, UserResponse}
use garance.Gateway.Errors.{Transit, forward}

abbrev invalid_body : {B : Type 0} → Handler Db B
invalid_body = write_error (bytes "VALIDATION_ERROR") (bytes "invalid request body") 400

module _ (call : Transit) (pkg : Packages) (print_time : ℕ → Str) (tokens : Manager) where
  unfoldable pub sign_up : Option (Str × Str) → Str → Str → Handler Db AuthResponse
  sign_up none agent ip = invalid_body
  sign_up (some (email, password)) agent ip =
      forward call (Grpc.sign_up pkg print_time tokens email password agent ip) (Response.json 201)

  unfoldable pub sign_in : Option (Str × Str) → Str → Str → Handler Db AuthResponse
  sign_in none agent ip = invalid_body
  sign_in (some (email, password)) agent ip =
      forward call (Grpc.sign_in pkg print_time tokens email password agent ip) (Response.json 200)

  unfoldable pub refresh_token : Option Str → Str → Str → Handler Db AuthResponse
  refresh_token none agent ip = invalid_body
  refresh_token (some token) agent ip =
      forward call (Grpc.refresh_token pkg print_time tokens token agent ip) (Response.json 200)

unfoldable pub sign_out : Transit → Option Str → Handler Db (Unit {0})
sign_out call none = invalid_body
sign_out call (some token) = forward call (Grpc.sign_out token) (λ u. Response.empty 204)

-- `if !ok || uid == ""`
abbrev pub authenticated : {B : Type 0} → Option Str → (Str → Handler Db B) → Handler Db B
authenticated none next = write_error (bytes "UNAUTHORIZED") (bytes "authentication required") 401
authenticated (some uid) next =
    if uid == []
    then write_error (bytes "UNAUTHORIZED") (bytes "authentication required") 401
    else next uid

module _ (call : Transit) (pkg : Packages) (print_time : ℕ → Str) where
  unfoldable pub get_user : Option Str → Handler Db UserResponse
  get_user context =
      authenticated context
        λ uid. forward call (Grpc.get_user pkg print_time uid) (Response.json 200)

  unfoldable pub delete_user : Option Str → Handler Db (Unit {0})
  delete_user context =
      authenticated context
        λ uid. forward call (Grpc.delete_user pkg print_time uid) (λ u. Response.empty 204)
