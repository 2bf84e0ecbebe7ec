-- ===== src/Http.antt =====
-- What the HTTP handlers of the services write: services/auth/internal/handler/response.go,
-- services/storage/internal/handler/response.go and services/gateway/internal/handler/response.go.
pub mod Status
use garance.Prelude.{ℕ, Str, bytes, Option, Bool, if◌then◌else◌}
use garance.Errors.{Error}
use garance.Exec.{Result, World, Action}

-- ErrorBody
pub record Problem : Type 0 where
  pub code : Str
  pub message : Str
  pub status : ℕ

pub data Response (A : Type 0) : Type 0 where
  -- writeJSON
  json : ℕ → A → Response A
  -- writeError
  problem : Problem → Response A
  -- WriteHeader alone
  empty : ℕ → Response A
  -- http.Redirect with 302
  redirect : Str → Response A
  -- a panic, after which net/http closes the connection
  closed : Response A

-- The status that goes out; a closed connection has none.
abbrev pub status_of : {A : Type 0} → Response A → ℕ
status_of (Response.json n a) = n
status_of (Response.problem p) = p.status
status_of (Response.empty n) = n
status_of (Response.redirect url) = 302
status_of Response.closed = 0

-- A handler for one request.
abbrev pub Handler : Type 0 → Type 0 → Type 0
Handler D A = World D → Response A × World D

abbrev pub problem_of : Str → Str → ℕ → Problem
problem_of code message status = record { code = code; message = message; status = status }

module _ {D B : Type 0} where
  abbrev pub write : Response B → Handler D B
  write r w = (r, w)

  abbrev pub write_error : Str → Str → ℕ → Handler D B
  write_error code message status w = (Response.problem (problem_of code message status), w)

module _ {D A B : Type 0} where
  abbrev pub finish : Result A → (Error → Problem) → (A → Response B) → Handler D B
  finish (Result.ok a) f g w = (g a, w)
  finish (Result.err e) f g w = (Response.problem (f e), w)
  finish Result.panic f g w = (Response.closed, w)

  -- `result, err := m; if err != nil { write f(err); return }; write g(result)`
  unfoldable pub serve : Action D A → (Error → Problem) → (A → Response B) → Handler D B
  serve m f g w = let (r, v) = m w in finish r f g v
