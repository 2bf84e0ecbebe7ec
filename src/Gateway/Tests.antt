-- ===== src/Gateway/Tests.antt =====
-- Examples that exercise the gateway beside the auth service.
use garance.Prelude.{Str, bytes, [], ◌++◌, Option, none, some, ◌≡◌, ◌≢◌, refl, arith}
use garance.Errors.{Error, Sentinel}
use garance.Exec.{World, Result, ok}
use garance.Http.{Response, Handler, status_of}
use garance.Auth.Packages.{Claims}
use garance.Auth.Tables.{Db, empty_db}
use garance.Auth.Token.{claims_for, generate_access_token}
use garance.Auth.Service
use garance.Auth.Grpc.{map_auth_error}
use garance.Auth.Handler
use garance.Auth.Handler.{handle_auth_error}
use garance.Auth.Handler.Middleware.{auth_middleware}
use garance.Auth.Toy.{toy, toy_tokens, toy-TokenLaws, calm, value_or}
use garance.Gateway.Errors.{Transit, write_grpc_error}
use garance.Gateway.AuthProxy
use garance.Gateway.Jwt.{extract_jwt}
use garance.Gateway.Agreement.{
  write_grpc_error-map_auth_error, sign_up-agrees, bearer-generate_access_token,
}

abbrev banned : Error
banned = Error.wrap "sign in" (Error.sentinel Sentinel.user_banned)

write_grpc_error-map_auth_error_example :
    ((write_grpc_error (map_auth_error banned)).status ≡ (handle_auth_error banned).status)
    × ((write_grpc_error (map_auth_error banned)).code ≡ (handle_auth_error banned).code)
write_grpc_error-map_auth_error_example = write_grpc_error-map_auth_error banned

abbrev email : Str
email = bytes "ann@x.org"

abbrev start : World Db
start = calm empty_db

named : email ≢ []
named e = cc

no_panic : (Service.sign_up toy toy_tokens email (bytes "short") [] [] start).0 ≢ Result.panic
unfolding Service.sign_up
no_panic e = cc

sign_up-agrees_example :
    (status_of
        (AuthProxy.sign_up Transit.through toy
          (λ t. [])
          toy_tokens
          (some (email, bytes "short"))
          []
          []
          start).0
      ≡ status_of (Handler.sign_up toy toy_tokens (some (email, bytes "short")) [] [] start).0)
    × ((AuthProxy.sign_up Transit.through toy
          (λ t. [])
          toy_tokens
          (some (email, bytes "short"))
          []
          []
          start).1
        ≡ (Handler.sign_up toy toy_tokens (some (email, bytes "short")) [] [] start).1)
sign_up-agrees_example =
    sign_up-agrees toy (λ t. []) toy_tokens email (bytes "short") [] [] start named no_panic

abbrev token : Str
token = value_or [] (generate_access_token toy toy_tokens {D = Db} 16 [] (bytes "user") start).0

issues : (generate_access_token toy toy_tokens {D = Db} 16 [] (bytes "user") start).0 ≡ ok token
unfolding generate_access_token
issues = refl

abbrev later : World Db
later = record start { now = 1600 }

-- Handlers that write the id of the user.
abbrev show_id : Claims → Handler Db Str
show_id c w = (Response.json 200 c.user_id, w)

abbrev show_any : Option Claims → Handler Db Str
show_any none w = (Response.empty 401, w)
show_any (some c) w = (Response.json 200 c.user_id, w)

bearer-generate_access_token_example :
    (auth_middleware toy toy_tokens (bytes "Bearer " ++ token) show_id later
      ≡ show_id (claims_for toy toy_tokens 16 [] (bytes "user") 1000) later)
    × (extract_jwt toy toy_tokens.secret (bytes "Bearer " ++ token) show_any later
        ≡ show_any (some (claims_for toy toy_tokens 16 [] (bytes "user") 1000)) later)
bearer-generate_access_token_example =
    bearer-generate_access_token toy toy_tokens toy-TokenLaws 16 [] (bytes "user") token start later
      show_id show_any issues (omega arith)
