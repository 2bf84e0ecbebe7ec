-- ===== src/Auth/Handler/Admin.antt =====
-- The administration of OAuth providers in services/auth/internal/handler/handler.go.
use garance.Prelude.{
  ℕ, Str, bytes, [], Bool, not, ◌||◌, Option, none, some, ◌==◌, str_eq, if◌then◌else◌,
}
use garance.Errors.{Error, Sentinel, errors_is}
use garance.Exec.{Result, World, Action}
use garance.Http.{Response, Problem, problem_of, Handler, write_error, serve}
use garance.Auth.Packages.{Packages}
use garance.Auth.Tables.{Db, OAuthProvider}
use garance.Auth.Crypto.Encrypt.{encrypt}
use garance.Auth.Store.Providers
use garance.Auth.Handler.{invalid_body}

-- providerResponse, which hides the secret
pub record ProviderResponse : Type 0 where
  pub id : ℕ
  pub provider : Str
  pub client_id : Str
  pub has_secret : Bool
  pub enabled : Bool
  pub scopes : Str
  pub created_at : Str
  pub updated_at : Str

pub record CreateProviderRequest : Type 0 where
  pub provider : Str
  pub client_id : Str
  pub client_secret : Str
  pub scopes : Str

pub record UpdateProviderRequest : Type 0 where
  pub client_id : Option Str
  pub client_secret : Option Str
  pub enabled : Option Bool
  pub scopes : Option Str

abbrev pub internal : Str → Error → Problem
internal message e = problem_of (bytes "INTERNAL_ERROR") message 500

abbrev pub or_not_found : Str → Error → Problem
or_not_found message e =
    if errors_is e Sentinel.provider_not_found
    then problem_of (bytes "NOT_FOUND") (bytes "provider not found") 404
    else internal message e

abbrev pub create_error : Error → Problem
create_error e =
    if errors_is e Sentinel.provider_already_exists
    then problem_of (bytes "CONFLICT") (bytes "provider already exists") 409
    else internal (bytes "failed to create provider") e

-- `x, err := m; if err != nil { writeError(f(err)); return }; next(x)`
abbrev pub and_then :
    {A B : Type 0} → Action Db A → (Error → Problem) → (A → Handler Db B) → Handler Db B
and_then {A = A} {B = B} m f next w = go (m w)
  where
    go : Result A × World Db → Response B × World Db
    go (Result.ok a, v) = next a v
    go (Result.err e, v) = (Response.problem (f e), v)
    go (Result.panic, v) = (Response.closed, v)

module _ (pkg : Packages) (print_time : ℕ → Str) (key : Str) where
  abbrev pub to_provider_response : OAuthProvider → ProviderResponse
  to_provider_response p = record {
    id = p.id;
    provider = p.provider;
    client_id = p.client_id;
    has_secret = not (p.client_secret_encrypted == []);
    enabled = p.enabled;
    scopes = p.scopes;
    created_at = print_time p.created_at;
    updated_at = print_time p.updated_at;
  }

  unfoldable pub create_provider : Option CreateProviderRequest → Handler Db ProviderResponse
  create_provider none = invalid_body
  create_provider (some q) =
      if q.provider == [] || (q.client_id == [] || q.client_secret == [])
      then write_error (bytes "VALIDATION_ERROR")
          (bytes "provider, client_id, and client_secret are required") 400
      else and_then (encrypt pkg q.client_secret key) (internal (bytes "failed to encrypt secret"))
          λ secret.
            serve (Providers.create_provider q.provider q.client_id secret q.scopes) create_error
              (λ p. Response.json 201 (to_provider_response p))

  abbrev pub update_with : Str → UpdateProviderRequest → Option Str → Handler Db (Unit {0})
  update_with name q secret =
      serve (Providers.update_provider name q.client_id secret q.enabled q.scopes)
        (or_not_found (bytes "failed to update provider")) (λ u. Response.empty 204)

  abbrev pub update_sealed : Str → UpdateProviderRequest → Option Str → Handler Db (Unit {0})
  update_sealed name q none = update_with name q none
  update_sealed name q (some secret) =
      and_then (encrypt pkg secret key) (internal (bytes "failed to encrypt secret"))
        λ sealed. update_with name q (some sealed)

  unfoldable pub update_provider : Str → Option UpdateProviderRequest → Handler Db (Unit {0})
  update_provider name none = invalid_body
  update_provider name (some q) = update_sealed name q q.client_secret

unfoldable pub delete_provider : Str → Handler Db (Unit {0})
delete_provider name =
    serve (Providers.delete_provider name) (or_not_found (bytes "failed to delete provider"))
      (λ u. Response.empty 204)
