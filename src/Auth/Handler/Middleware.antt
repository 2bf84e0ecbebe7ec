-- ===== src/Auth/Handler/Middleware.antt =====
-- services/auth/internal/handler/middleware.go
use garance.Prelude.{
  ℕ, Str, bytes, [], ◌∷◌, ◌+◌, Bool, ◌&&◌, Option, none, some, ◌==◌, nat_eq, str_eq, leb, map,
  if◌then◌else◌,
}
use garance.Exec.{Result, World}
use garance.Http.{Response, Handler, write_error}
use garance.Auth.Packages.{Packages, Claims}
use garance.Auth.Token.{Manager, validate_access_token}

-- strings.SplitN(s, " ", 2): the parts before and after the first space, none where there is none
abbrev pub split_space : Str → Option (Str × Str)
split_space [] = none
split_space (c ∷ s) = let rest = split_space s in if c == 32 then some ([], s) else push c rest
  where
    push : ℕ → Option (Str × Str) → Option (Str × Str)
    push c none = none
    push c (some (a, b)) = some (c ∷ a, b)

-- strings.EqualFold with "bearer", whose letters fold to ASCII letters only
abbrev pub lower : ℕ → ℕ
lower c = if leb 65 c && leb c 90 then c + 32 else c

abbrev pub is_bearer : Str → Bool
is_bearer s = map lower s == bytes "bearer"

abbrev pub bearer_of : Option (Str × Str) → Option Str
bearer_of none = none
bearer_of (some (scheme, token)) = if is_bearer scheme then some token else none

module _ {D : Type 0} (pkg : Packages) (tokens : Manager) where
  abbrev pub check_token : {B : Type 0} → Option Str → (Claims → Handler D B) → Handler D B
  check_token none next w =
      write_error (bytes "UNAUTHORIZED") (bytes "invalid authorization format") 401 w
  check_token {B = B} (some token) next w = go (validate_access_token pkg tokens token w)
    where
      go : Result Claims × World D → Response B × World D
      go (Result.ok claims, v) = next claims v
      go (Result.err e, v) =
          write_error (bytes "UNAUTHORIZED") (bytes "invalid or expired token") 401 v
      go (Result.panic, v) = (Response.closed, v)

  -- AuthMiddleware: the header Authorization, empty where it is missing, and the handler, which
  -- reads the user id and the role of the claims in its context.
  unfoldable pub auth_middleware : {B : Type 0} → Str → (Claims → Handler D B) → Handler D B
  auth_middleware header next =
      if header == []
      then write_error (bytes "UNAUTHORIZED") (bytes "missing authorization header") 401
      else check_token (bearer_of (split_space header)) next
