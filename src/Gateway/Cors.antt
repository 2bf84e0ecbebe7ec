-- ===== src/Gateway/Cors.antt =====
-- services/gateway/internal/middleware/cors.go
pub mod Origins
use garance.Prelude.{
  ℕ, Str, bytes, [], ◌∷◌, List, Bool, false, ◌||◌, Option, none, some, ◌==◌, str_eq, nat_eq,
  if◌then◌else◌,
}
use garance.Encoding.Split.{split}

-- strings.TrimSpace, on ASCII
abbrev pub is_space : ℕ → Bool
is_space c = c == 32 || (c == 9 || (c == 10 || (c == 11 || (c == 12 || c == 13))))

abbrev pub trim_left : Str → Str
trim_left [] = []
trim_left (c ∷ s) = let rest = trim_left s in if is_space c then rest else c ∷ s

-- c in front of what is left of the rest, unless both are blank
abbrev pub trim_right : Str → Str
trim_right [] = []
trim_right (c ∷ s) = let rest = trim_right s in if is_space c then keep c rest else c ∷ rest
  where
    keep : ℕ → Str → Str
    keep c [] = []
    keep c (d ∷ t) = c ∷ d ∷ t

-- The loop of containsOrigin.
abbrev pub any_origin : List Str → Str → Bool
any_origin [] origin = false
any_origin (o ∷ rest) origin = trim_right (trim_left o) == origin || any_origin rest origin

unfoldable pub contains_origin : Str → Str → Bool
contains_origin allowed origin = any_origin (split 44 allowed) origin

pub record Outcome : Type 0 where
  -- Access-Control-Allow-Origin, with the other Access-Control headers
  pub allow_origin : Option Str
  -- answered with 204, instead of by the next handler
  pub answered : Bool

-- CORS: the headers Origin, empty where it is missing, and the method.
unfoldable pub cors : Str → Str → Str → Outcome
cors allowed origin method =
    if origin == [] then record { allow_origin = none; answered = false } else record {
      allow_origin =
          if allowed == bytes "*" || contains_origin allowed origin then some origin else none;
      answered = method == bytes "OPTIONS";
    }
