-- ===== src/Gateway/Agreement.antt =====
-- The gateway over gRPC (services/gateway, services/auth/internal/grpcserver) beside the HTTP
-- handlers of the auth service (services/auth/internal/handler).
use garance.Prelude.{
  ℕ, ◌+◌, ◌<◌, Str, bytes, [], ◌++◌, Option, some, ◌≡◌, ◌≢◌, refl, str_eq, ==_false, arith,
}
use garance.Errors.{Error}
use garance.Exec.{Result, World, ok}
use garance.Http.{Response, Handler, serve, finish, status_of}
use garance.Http.Status.{answer, conclude}
use garance.Auth.Packages.{Packages, Claims, TokenLaws}
use garance.Auth.Tables.{Db}
use garance.Auth.Token.{Manager, claims_for, key_for, generate_access_token, validate_access_token}
use garance.Auth.Token.RoundTrip.{from_some}
use garance.Auth.Service
use garance.Auth.Service.{AuthResult}
use garance.Auth.Grpc.{map_auth_error, to_auth_response}
use garance.Auth.Grpc
use garance.Auth.Handler
use garance.Auth.Handler.{handle_auth_error}
use garance.Auth.Handler.Middleware.{auth_middleware}
use garance.Gateway.Errors.{Transit, write_grpc_error, forward, render}
use garance.Gateway.AuthProxy
use garance.Gateway.Jwt.{extract_jwt}

-- An error of the auth service reaches a client of the gateway with the same HTTP status and the same
-- code as it would a client of the service's own HTTP handlers.
pub write_grpc_error-map_auth_error :
    (e : Error)
    → ((write_grpc_error (map_auth_error e)).status ≡ (handle_auth_error e).status)
      × ((write_grpc_error (map_auth_error e)).code ≡ (handle_auth_error e).code)
unfolding write_grpc_error map_auth_error handle_auth_error
write_grpc_error-map_auth_error e = (ground arith, ground arith)

module _ (pkg : Packages) (print_time : ℕ → Str) (tokens : Manager) where
  -- Where SignUp does not panic, the address is not empty and the gRPC call gets through, the gateway answers a sign-up with the
  -- same HTTP status as the service's own handler, and leaves the same world.
  pub sign_up-agrees :
      (email password agent ip : Str) (w : World Db)
      → email ≢ []
      → (Service.sign_up pkg tokens email password agent ip w).0 ≢ Result.panic
      → (status_of
            (AuthProxy.sign_up Transit.through pkg print_time tokens
              (some (email, password))
              agent
              ip
              w).0
          ≡ status_of (Handler.sign_up pkg tokens (some (email, password)) agent ip w).0)
        × ((AuthProxy.sign_up Transit.through pkg print_time tokens
              (some (email, password))
              agent
              ip
              w).1
            ≡ (Handler.sign_up pkg tokens (some (email, password)) agent ip w).1)
  unfolding AuthProxy.sign_up Handler.sign_up Grpc.sign_up forward answer serve
  sign_up-agrees email password agent ip w named calm = rw (==_false email [] named) (
      go (Service.sign_up pkg tokens email password agent ip w).0
        (Service.sign_up pkg tokens email password agent ip w).1 calm)
    where
      go :
          (r : Result AuthResult) (v : World Db)
          → r ≢ Result.panic
          → (status_of (
                render
                  (conclude r map_auth_error (to_auth_response pkg print_time) v).0
                  (Response.json 201))
              ≡ status_of (finish {D = Db} r handle_auth_error (Response.json 201) v).0)
            × ((conclude r map_auth_error (to_auth_response pkg print_time) v).1
                ≡ (finish r handle_auth_error (Response.json 201) v).1)
      go (Result.ok a) v h = (refl, refl)
      go (Result.err e) v h = ((write_grpc_error-map_auth_error e).0, refl)
      go Result.panic v h = absurd (h refl)

module _ {D B : Type 0} (pkg : Packages) (tokens : Manager) (laws : TokenLaws pkg) where
  -- If a signed token parses to its claims, then an access token that GenerateAccessToken has issued,
  -- sent as `Bearer` and the token, takes a request past the auth service's middleware and past the
  -- gateway's, for the same secret, at every time before the end of the token's lifetime, and both
  -- hand the next handler the claims that were asked for.
  pub bearer-generate_access_token :
      (user_id : ℕ) (project role token : Str) (w v : World D) (next : Claims → Handler D B)
      (forwarded : Option Claims → Handler D B)
      → (generate_access_token pkg tokens user_id project role w).0 ≡ ok token
      → v.now < w.now + tokens.access_expiry
      → (auth_middleware pkg tokens (bytes "Bearer " ++ token) next v
          ≡ next (claims_for pkg tokens user_id project role w.now) v)
        × (extract_jwt pkg tokens.secret (bytes "Bearer " ++ token) forwarded v
            ≡ forwarded (some (claims_for pkg tokens user_id project role w.now)) v)
  unfolding auth_middleware extract_jwt generate_access_token validate_access_token
  bearer-generate_access_token user_id project role token w v next forwarded e early =
      rw
        (laws.parse-sign (claims_for pkg tokens user_id project role w.now) tokens.secret token
          (key_for tokens.secret) v.now (from_some _ e) refl early)
        (refl, refl)
