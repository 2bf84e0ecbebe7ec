-- ===== src/Gateway/Passage.antt =====
-- The OAuth routes of services/gateway/internal/proxy/auth.go, which pass a request on over HTTP. The
-- client of net/http, which follows no redirects, is a parameter.
use garance.Prelude.{
  ℕ, Str, bytes, [], ◌∷◌, ◌++◌, Bool, not, List, Option, none, some, map, ◌==◌, str_eq,
  if◌then◌else◌,
}
use garance.Errors.{message}
use garance.Exec.{Result, World}
use garance.Http.{Response, Handler, problem_of, write_error}

-- The request that goes out; X-Forwarded-For is not set where it is empty.
pub record Outgoing : Type 0 where
  pub url : Str
  pub user_agent : Str
  pub forwarded_for : Option Str

-- The answer of the auth service.
pub record Answer : Type 0 where
  pub status : ℕ
  pub header : List (Str × List Str)
  pub body : Str

pub record Client (E : Type 0) : Type 0 where
  -- whether http.NewRequestWithContext accepts the URL
  pub is_url : Str → Bool
  -- client.Do
  pub send : Outgoing → World E → Result Answer × World E

-- What the gateway writes below its status: the lines that it adds to the header, and the body.
pub record Passed : Type 0 where
  pub header : List (Str × Str)
  pub body : Str

-- The two loops over the header.
unfoldable pub header_lines : List (Str × List Str) → List (Str × Str)
header_lines [] = []
header_lines ((k, vals) ∷ header) = map (λ v. (k, v)) vals ++ header_lines header

-- `if fwd := ...; fwd != ""`
abbrev pub unless_empty : Str → Option Str
unless_empty text = if text == [] then none else some text

module _ {E : Type 0} (client : Client E) where
  abbrev pub pass : Result Answer × World E → Response Passed × World E
  pass (Result.ok a, w) =
      (Response.json a.status (record { header = header_lines a.header; body = a.body }), w)
  pass (Result.err e, w) = (
    Response.problem (
        problem_of (bytes "PROXY_ERROR") (bytes "failed to reach Auth service: " ++ message e) 502),
    w,
  )
  pass (Result.panic, w) = (Response.closed, w)

  -- proxyToAuthHTTP, with the variable AUTH_HTTP_URL and the headers User-Agent and X-Forwarded-For
  unfoldable pub proxy_to_auth_http : Str → Str → Str → Str → Handler E Passed
  unfolding header_lines
  proxy_to_auth_http env agent forwarded path =
      let url : Str = (if env == [] then bytes "http://auth:4001" else env) ++ path in
      if not (client.is_url url)
      then write_error (bytes "PROXY_ERROR") (bytes "failed to create request") 500
      else λ w. pass (
          client.send
            (record { url = url; user_agent = agent; forwarded_for = unless_empty forwarded }) w)

  -- The name of the provider in the path, and the raw query.
  unfoldable pub oauth_initiate : Str → Str → Str → Str → Str → Handler E Passed
  unfolding proxy_to_auth_http
  oauth_initiate env agent forwarded provider query =
      proxy_to_auth_http env agent forwarded
        (bytes "/auth/v1/oauth/" ++ (provider ++ (bytes "?" ++ query)))

  unfoldable pub oauth_callback : Str → Str → Str → Str → Str → Handler E Passed
  unfolding proxy_to_auth_http
  oauth_callback env agent forwarded provider query =
      proxy_to_auth_http env agent forwarded
        (bytes "/auth/v1/oauth/" ++ (provider ++ (bytes "/callback?" ++ query)))
