-- ===== src/Gateway/Cors/Origins/Tests.antt =====
-- Examples of origins.
use garance.Prelude.{bytes, [], ◌∷◌, none, some, ◌≡◌, ◌==◌, str_eq, refl, All, if◌then◌else◌, arith}
use garance.Gateway.Cors.{cors}
use garance.Gateway.Cors.Origins.{Entry, IsEntry, is_listed, cors-is_listed}

abbrev first : Entry
first = record { before = []; origin = bytes "h:1"; after = [] }

abbrev second : Entry
second = record { before = bytes " "; origin = bytes "h:2"; after = [] }

entries-IsEntry : All IsEntry (first ∷ second ∷ [])
entries-IsEntry = (
  (
    tt,
    (
      (refl, λ e. omega (arith, e)),
      ((refl, λ e. omega (arith, e)), ((refl, λ e. omega (arith, e)), tt)),
    ),
    tt,
  ),
  (
    (
      (refl, tt),
      (
        (refl, λ e. omega (arith, e)),
        ((refl, λ e. omega (arith, e)), ((refl, λ e. omega (arith, e)), tt)),
      ),
      tt,
    ),
    tt,
  ),
)

-- The list `h:1, h:2`.
cors-is_listed_example :
    ((cors (bytes "h:1, h:2") (bytes "h:2") (bytes "GET")).allow_origin
      ≡ (if is_listed (first ∷ second ∷ []) (bytes "h:2") then some (bytes "h:2") else none))
    × ((cors (bytes "h:1, h:2") (bytes "h:2") (bytes "GET")).answered
        ≡ (bytes "GET" == bytes "OPTIONS"))
cors-is_listed_example =
    cors-is_listed first (second ∷ []) (bytes "h:2") (bytes "GET") entries-IsEntry (λ e. cc)
      (λ e. cc)
