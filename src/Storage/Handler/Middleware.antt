-- ===== src/Storage/Handler/Middleware.antt =====
-- services/storage/internal/handler/middleware.go. A handler takes the user id of its context.
use garance.Prelude.{Str, bytes, [], Option, none, some, ◌==◌, str_eq, if◌then◌else◌}
use garance.Http.{Handler, write_error}
use garance.Auth.Packages.{Packages, Claims}
use garance.Auth.Token.{key_for}
use garance.Auth.Handler.Middleware.{split_space, bearer_of}

module _ {D B : Type 0} (pkg : Packages) (secret : Str) where
  abbrev unauthorized : Str → Handler D B
  unauthorized message = write_error (bytes "UNAUTHORIZED") message 401

  abbrev pub with_claims : Option Claims → (Option Str → Handler D B) → Handler D B
  with_claims none next = next none
  with_claims (some claims) next = next (some claims.user_id)

  abbrev pub optional_token : Option Str → (Option Str → Handler D B) → Handler D B
  optional_token none next w = next none w
  optional_token (some token) next w =
      with_claims (pkg.parse_token token (key_for secret) w.now) next w

  -- OptionalAuth: the next handler runs in every case.
  unfoldable pub optional_auth : Str → (Option Str → Handler D B) → Handler D B
  optional_auth header next =
      if header == [] then next none else optional_token (bearer_of (split_space header)) next

  abbrev checked_claims : Option Claims → (Str → Handler D B) → Handler D B
  checked_claims none next = unauthorized (bytes "invalid or expired token")
  checked_claims (some claims) next = next claims.user_id

  abbrev pub required_token : Option Str → (Str → Handler D B) → Handler D B
  required_token none next w = unauthorized (bytes "invalid authorization format") w
  required_token (some token) next w =
      checked_claims (pkg.parse_token token (key_for secret) w.now) next w

  -- RequireAuth
  unfoldable pub require_auth : Str → (Str → Handler D B) → Handler D B
  require_auth header next =
      if header == []
      then unauthorized (bytes "missing authorization header")
      else required_token (bearer_of (split_space header)) next
