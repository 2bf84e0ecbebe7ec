-- ===== src/Auth/OAuth.antt =====
-- services/auth/internal/oauth: provider.go, and the constructors and authorize URLs of the three
-- providers (github.go, gitlab.go, google.go). The HTTP client and the JSON decoder are
-- parameters; Client has what the providers do with them.
pub mod Client
use garance.Prelude.{
  ℕ, Str, bytes, [], ◌∷◌, ◌++◌, List, Bool, true, false, ◌&&◌, Option, none, some, ◌==◌, str_eq,
  if◌then◌else◌,
}
use garance.Errors.{Error}
use garance.Exec.{Result, ok, err}
use garance.Encoding.Query.{encode_values}

-- OAuthToken; of its fields the services use the access token only.
pub record OAuthToken : Type 0 where
  pub access_token : Str

-- A decoded JSON value that is not null: the string that it is, if it is one, and what
-- fmt.Sprintf prints for it with %v and with %.0f.
pub record Json : Type 0 where
  pub as_string : Option Str
  pub printed : Str
  pub rounded : Str

abbrev pub Object : Type 0
Object = List (Str × Json)

pub record OAuthProfile : Type 0 where
  pub provider_user_id : Str
  pub email : Str
  pub name : Str
  pub avatar_url : Str
  pub raw : Object

pub record HttpRequest : Type 0 where
  pub method : Str
  pub url : Str
  pub headers : List (Str × Str)
  pub body : Str

pub record GitHubEmail : Type 0 where
  pub email : Str
  pub primary : Bool
  pub verified : Bool

-- The network and the decoders of encoding/json, each on the bytes of a body.
pub record Remote : Type 0 where
  -- the body of the response at a time; none where there is no response
  pub send : ℕ → HttpRequest → Option Str
  -- what a failed decoding has left in the struct counts too
  pub decode_token : Str → OAuthToken × Bool
  -- into a map, where null and a missing key read alike; none where it fails
  pub decode_object : Str → Option Object
  pub decode_emails : Str → List GitHubEmail
  -- json.Marshal of the map
  pub marshal : Object → Str
  -- strings.ToLower
  pub to_lower : Str → Str

pub record Credentials : Type 0 where
  pub client_id : Str
  pub client_secret : Str
  pub scopes : Str

pub data Provider : Type 0 where
  google github gitlab : Credentials → Provider

-- NewGoogleProvider and so on: default scopes where none are given.
abbrev pub make_client : Str → Str → Str → Str → Credentials
make_client id secret scopes default = record {
  client_id = id;
  client_secret = secret;
  scopes = if scopes == [] then default else scopes;
}

unfoldable pub new_provider : Str → Str → Str → Str → Result Provider
new_provider name id secret scopes =
    if name == bytes "google"
    then ok (Provider.google (make_client id secret scopes (bytes "email profile")))
    else if name == bytes "github"
    then ok (Provider.github (make_client id secret scopes (bytes "user:email")))
    else if name == bytes "gitlab"
    then ok (Provider.gitlab (make_client id secret scopes (bytes "read_user")))
    else err (Error.failure "unknown provider")

unfoldable pub authorize_url : Provider → Str → Str → Str
authorize_url (Provider.google c) state redirect =
    bytes "https://accounts.google.com/o/oauth2/v2/auth?"
    ++ encode_values (
        (bytes "client_id", c.client_id)
        ∷ (bytes "redirect_uri", redirect)
        ∷ (bytes "response_type", bytes "code")
        ∷ (bytes "scope", c.scopes)
        ∷ (bytes "state", state)
        ∷ (bytes "access_type", bytes "offline")
        ∷ [])
authorize_url (Provider.github c) state redirect =
    bytes "https://github.com/login/oauth/authorize?"
    ++ encode_values (
        (bytes "client_id", c.client_id)
        ∷ (bytes "redirect_uri", redirect)
        ∷ (bytes "scope", c.scopes)
        ∷ (bytes "state", state)
        ∷ [])
authorize_url (Provider.gitlab c) state redirect =
    bytes "https://gitlab.com/oauth/authorize?"
    ++ encode_values (
        (bytes "client_id", c.client_id)
        ∷ (bytes "redirect_uri", redirect)
        ∷ (bytes "response_type", bytes "code")
        ∷ (bytes "scope", c.scopes)
        ∷ (bytes "state", state)
        ∷ [])
