-- ===== src/Auth/Handler/Flow.antt =====
-- The OAuth flow in services/auth/internal/handler/handler.go. The query of a URL, and what
-- url.Parse, Query, Set, Encode and String make of one, are parameters.
use garance.Prelude.{
  Str, bytes, [], ◌||◌, ◌∷◌, List, Option, none, some, ◌==◌, str_eq, if◌then◌else◌,
}
use garance.Errors.{Error, Sentinel, errors_is, message}
use garance.Encoding.Decimal.{format}
use garance.Http.{Response, Problem, problem_of, Handler, write_error, serve}
use garance.Auth.Packages.{Packages}
use garance.Auth.Tables.{Db}
use garance.Auth.Token.{Manager}
use garance.Auth.OAuth.{Remote}
use garance.Auth.Service.{AuthResult}
use garance.Auth.Service.OAuth.{oauth_authorize}
use garance.Auth.Service.OAuth as OAuth

abbrev pub initiate_error : Error → Problem
initiate_error e =
    if errors_is e Sentinel.oauth_provider_not_configured
    then problem_of (bytes "NOT_FOUND") (message e) 404
    else if errors_is e Sentinel.invalid_redirect_uri
    then problem_of (bytes "VALIDATION_ERROR") (message e) 400
    else problem_of (bytes "INTERNAL_ERROR") (bytes "failed to initiate OAuth") 500

abbrev pub callback_error : Error → Problem
callback_error e =
    if errors_is e Sentinel.invalid_oauth_state
    then problem_of (bytes "UNAUTHORIZED") (message e) 401
    else if errors_is e Sentinel.oauth_provider_not_configured
    then problem_of (bytes "NOT_FOUND") (message e) 404
    else if errors_is e Sentinel.oauth_no_email
    then problem_of (bytes "VALIDATION_ERROR") (message e) 400
    else if errors_is e Sentinel.user_banned
    then problem_of (bytes "PERMISSION_DENIED") (message e) 403
    else problem_of (bytes "INTERNAL_ERROR") (bytes "OAuth callback failed") 500

abbrev pub token_values : AuthResult → List (Str × Str)
token_values r =
    (bytes "access_token", r.token_pair.access_token)
    ∷ (bytes "refresh_token", r.token_pair.refresh_token)
    ∷ (bytes "expires_in", format r.token_pair.expires_in)
    ∷ (bytes "token_type", r.token_pair.token_type)
    ∷ []

abbrev pub landing : Option Str → Response (Unit {0})
landing none =
    Response.problem (problem_of (bytes "INTERNAL_ERROR") (bytes "invalid redirect URI") 500)
landing (some url) = Response.redirect url

module _ (pkg : Packages) (net : Remote) (tokens : Manager) (base key : Str)
    (with_values : Str → List (Str × Str) → Option Str) where
  unfoldable pub oauth_initiate : Str → Str → Handler Db (Unit {0})
  oauth_initiate provider redirect =
      if redirect == []
      then write_error (bytes "VALIDATION_ERROR") (bytes "redirect_uri is required") 400
      else serve (oauth_authorize pkg provider redirect base key) initiate_error Response.redirect

  unfoldable pub oauth_callback : Str → Str → Str → Str → Str → Handler Db (Unit {0})
  oauth_callback provider code state agent ip =
      if code == [] || state == []
      then write_error (bytes "VALIDATION_ERROR") (bytes "code and state are required") 400
      else serve (OAuth.oauth_callback pkg net tokens provider code state base agent ip key)
          callback_error (λ r. landing (with_values r.1 (token_values r.0)))
