-- ===== src/Auth/OAuth/Client.antt =====
-- ExchangeCode and GetUserProfile of the three providers (services/auth/internal/oauth/github.go,
-- gitlab.go and google.go).
use garance.Prelude.{
  Str, bytes, [], ◌∷◌, ◌++◌, List, Bool, ◌&&◌, Option, none, some, ◌==◌, str_eq, if◌then◌else◌,
}
use garance.Errors.{Error}
use garance.Exec.{Result, ok, err, Action, pure, lift, ◌>>=◌, catch, wrapped, read_clock}
use garance.Encoding.Query.{encode_values}
use garance.Auth.OAuth.{
  OAuthToken, Json, Object, OAuthProfile, HttpRequest, GitHubEmail, Remote, Credentials, Provider,
}

abbrev pub form : Str × Str
form = (bytes "Content-Type", bytes "application/x-www-form-urlencoded")

abbrev pub accept_json : Str × Str
accept_json = (bytes "Accept", bytes "application/json")

abbrev pub bearer : Str → Str × Str
bearer token = (bytes "Authorization", bytes "Bearer " ++ token)

abbrev pub post : Str → List (Str × Str) → List (Str × Str) → HttpRequest
post url headers values = record {
  method = bytes "POST";
  url = url;
  headers = headers;
  body = encode_values values;
}

abbrev pub get : Str → List (Str × Str) → HttpRequest
get url headers = record { method = bytes "GET"; url = url; headers = headers; body = [] }

abbrev pub code_values : Credentials → Str → Str → List (Str × Str)
code_values c code redirect =
    (bytes "code", code)
    ∷ (bytes "client_id", c.client_id)
    ∷ (bytes "client_secret", c.client_secret)
    ∷ (bytes "redirect_uri", redirect)
    ∷ []

abbrev pub grant_values : Credentials → Str → Str → List (Str × Str)
grant_values c code redirect =
    code_values c code redirect ++ (bytes "grant_type", bytes "authorization_code") ∷ []

abbrev pub response {ℓ} : {A : Type ℓ} → Option A → Result A
response none = err (Error.failure "no response")
response (some a) = ok a

-- raw[key]
abbrev pub field : Str → Object → Option Json
field key [] = none
field key ((k, v) ∷ raw) = if k == key then some v else field key raw

-- fmt.Sprintf("%v", raw[key]) and fmt.Sprintf("%.0f", raw[key])
abbrev pub print_v : Option Json → Str
print_v none = bytes "<nil>"
print_v (some v) = v.printed

abbrev pub print_0f : Option Json → Str
print_0f none = bytes "%!f(<nil>)"
print_0f (some v) = v.rounded

module _ (net : Remote) where
  open net use {send, decode_token, decode_object, decode_emails, to_lower}

  -- http.DefaultClient.Do, and its body
  unfoldable pub request : {D : Type 0} → HttpRequest → Action D Str
  unfolding ◌>>=◌
  request r = read_clock >>= λ now. lift (response (send now r))

  -- The error of the decoder is reported, or dropped.
  abbrev pub checked_token : OAuthToken × Bool → Result OAuthToken
  checked_token (t, failed) = if failed then err (Error.failure "failed to decode token") else ok t

  unfoldable pub exchange_code : {D : Type 0} → Provider → Str → Str → Action D OAuthToken
  unfolding request wrapped
  exchange_code (Provider.google c) code redirect =
      wrapped "token exchange failed" (
        request (
          post (bytes "https://oauth2.googleapis.com/token") (form ∷ [])
            (grant_values c code redirect)))
      >>= λ body. lift (checked_token (decode_token body))
  exchange_code (Provider.github c) code redirect =
      wrapped "token exchange failed" (
        request (
          post (bytes "https://github.com/login/oauth/access_token") (accept_json ∷ form ∷ [])
            (code_values c code redirect)))
      >>= λ body. lift (checked_token (decode_token body))
  exchange_code (Provider.gitlab c) code redirect =
      wrapped "token exchange failed" (
        request (
          post (bytes "https://gitlab.com/oauth/token") (form ∷ []) (grant_values c code redirect)))
      >>= λ body. pure (decode_token body).0

  -- The map that a decoding whose error is dropped leaves.
  abbrev pub or_nil : Option Object → Object
  or_nil none = []
  or_nil (some raw) = raw

  abbrev pub google_profile : Object → OAuthProfile
  google_profile raw = record {
    provider_user_id = print_v (field (bytes "id") raw);
    email = to_lower (print_v (field (bytes "email") raw));
    name = print_v (field (bytes "name") raw);
    avatar_url = print_v (field (bytes "picture") raw);
    raw = raw;
  }

  abbrev pub gitlab_profile : Object → OAuthProfile
  gitlab_profile raw = record {
    provider_user_id = print_0f (field (bytes "id") raw);
    email = to_lower (print_v (field (bytes "email") raw));
    name = print_v (field (bytes "name") raw);
    avatar_url = print_v (field (bytes "avatar_url") raw);
    raw = raw;
  }

  -- `if e, ok := raw["email"].(string); ok && e != ""`
  abbrev pub string_of : Option Json → Str
  string_of none = []
  string_of (some v) = elim v.as_string [ none ↦ [] | some s ↦ s ]

  abbrev pub public_email : Object → Str
  public_email raw = to_lower_nonempty (string_of (field (bytes "email") raw))
    where
      to_lower_nonempty : Str → Str
      to_lower_nonempty e = if e == [] then [] else to_lower e

  -- The loop of fetchPrimaryEmail.
  abbrev pub primary_email : List GitHubEmail → Option Str
  primary_email [] = none
  primary_email (e ∷ es) =
      if e.primary && e.verified then some (to_lower e.email) else primary_email es

  unfoldable pub fetch_primary_email : {D : Type 0} → Str → Action D Str
  unfolding request
  fetch_primary_email token =
      request (get (bytes "https://api.github.com/user/emails") (bearer token ∷ accept_json ∷ []))
      >>= λ body. lift (response (primary_email (decode_emails body)))

  abbrev pub github_profile : Object → Str → OAuthProfile
  github_profile raw email = record {
    provider_user_id = print_0f (field (bytes "id") raw);
    email = email;
    name = print_v (field (bytes "name") raw);
    avatar_url = print_v (field (bytes "avatar_url") raw);
    raw = raw;
  }

  abbrev pub google_result : Option Object → Result OAuthProfile
  google_result none = err (Error.failure "failed to decode profile")
  google_result (some raw) = ok (google_profile raw)

  -- The error of fetchPrimaryEmail is dropped.
  abbrev pub github_email : {D : Type 0} → Str → Object → Action D Str
  github_email token raw =
      if public_email raw == []
      then catch (fetch_primary_email token) (λ e. pure [])
      else pure (public_email raw)

  unfoldable pub get_user_profile : {D : Type 0} → Provider → Str → Action D OAuthProfile
  unfolding request wrapped fetch_primary_email
  get_user_profile (Provider.google c) token =
      wrapped "failed to fetch profile"
        (request (get (bytes "https://www.googleapis.com/oauth2/v2/userinfo") (bearer token ∷ [])))
      >>= λ body. lift (google_result (decode_object body))
  get_user_profile (Provider.github c) token =
      wrapped "failed to fetch profile"
        (request (get (bytes "https://api.github.com/user") (bearer token ∷ accept_json ∷ [])))
      >>= λ body. github_email token (or_nil (decode_object body)) >>= λ email.
          pure (github_profile (or_nil (decode_object body)) email)
  get_user_profile (Provider.gitlab c) token =
      wrapped "failed to fetch profile"
        (request (get (bytes "https://gitlab.com/api/v4/user") (bearer token ∷ [])))
      >>= λ body. pure (gitlab_profile (or_nil (decode_object body)))
