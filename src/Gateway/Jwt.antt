-- ===== src/Gateway/Jwt.antt =====
-- services/gateway/internal/middleware/jwt.go
use garance.Prelude.{ℕ, Str, [], Option, none, some, ◌==◌, str_eq, if◌then◌else◌}
use garance.Http.{Handler}
use garance.Auth.Packages.{Packages, Claims}
use garance.Auth.Token.{key_for}
use garance.Auth.Handler.Middleware.{split_space, bearer_of}

module _ (pkg : Packages) (secret : Str) where
  abbrev pub parse : Option Str → ℕ → Option Claims
  parse none now = none
  parse (some token) now = pkg.parse_token token (key_for secret) now

  -- ExtractJWT: the next handler runs in every case, with the claims of a valid token.
  unfoldable pub extract_jwt : {D B : Type 0} → Str → (Option Claims → Handler D B) → Handler D B
  extract_jwt header next =
      if header == [] then next none else λ w. next (parse (bearer_of (split_space header)) w.now) w
