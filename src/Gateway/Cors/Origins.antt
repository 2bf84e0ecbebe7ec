-- ===== src/Gateway/Cors/Origins.antt =====
-- Which origins services/gateway/internal/middleware/cors.go admits.
mod Tests
use garance.Prelude.{
  ℕ, Str, bytes, [], ◌∷◌, ◌++◌, List, Bool, true, false, ◌||◌, Option, none, some, ◌≡◌, ◌≢◌, refl,
  sym, ap, ◌∙◌, All, All-append, All-map, ◌==◌, str_eq, ==_false, if◌then◌else◌, Bool-cases, inl,
  inr, arith,
}
use mathlib.Core.Path.{subst}
use garance.Encoding.Split.{split, split-append, split-last}
use garance.Gateway.Cors.{is_space, trim_left, trim_right, any_origin, contains_origin, cors}

-- An entry of the list ALLOWED_ORIGINS: an origin with blanks before and after it.
pub record Entry : Type 0 where
  pub before : Str
  pub origin : Str
  pub after : Str

abbrev IsBlank : ℕ → Type 0
IsBlank c = is_space c ≡ true

abbrev IsPlain : ℕ → Type 0
IsPlain c = (is_space c ≡ false) × (c ≢ 44)

abbrev pub IsEntry : Entry → Type 0
IsEntry e = All IsBlank e.before × All IsPlain e.origin × All IsBlank e.after

abbrev pub entry_text : Entry → Str
entry_text e = e.before ++ (e.origin ++ e.after)

-- The list, with a comma between two entries.
abbrev pub written : Entry → List Entry → Str
written e [] = entry_text e
written e (f ∷ entries) = entry_text e ++ 44 ∷ written f entries

abbrev pub is_listed : List Entry → Str → Bool
is_listed [] origin = false
is_listed (e ∷ entries) origin = e.origin == origin || is_listed entries origin

trim_left_blanks : (before s : Str) → All IsBlank before → trim_left (before ++ s) ≡ trim_left s
trim_left_blanks [] s h = refl
trim_left_blanks (c ∷ before) s h = rw h.0 (trim_left_blanks before s h.1)

trim_left_only : (after : Str) → All IsBlank after → trim_left after ≡ []
trim_left_only [] h = refl
trim_left_only (c ∷ after) h = rw h.0 (trim_left_only after h.1)

trim_right_blanks : (after : Str) → All IsBlank after → trim_right after ≡ []
trim_right_blanks [] h = refl
trim_right_blanks (c ∷ after) h = rw (h.0, trim_right_blanks after h.1) refl

trim_right_origin :
    (origin after : Str)
    → All IsPlain origin
    → All IsBlank after
    → trim_right (origin ++ after) ≡ origin
trim_right_origin [] after h k = trim_right_blanks after k
trim_right_origin (c ∷ origin) after h k =
    rw h.0.0 (ap (λ s. c ∷ s) (trim_right_origin origin after h.1 k))

trim_left_plain : (c : ℕ) (s : Str) → is_space c ≡ false → trim_left (c ∷ s) ≡ c ∷ s
trim_left_plain c s h = rw h refl

trims_origin :
    (origin after : Str)
    → All IsPlain origin
    → All IsBlank after
    → trim_right (trim_left (origin ++ after)) ≡ origin
trims_origin [] after h k = rw (trim_left_only after k) refl
trims_origin (c ∷ origin) after h k =
    ap trim_right (trim_left_plain c (origin ++ after) h.0.0)
    ∙ trim_right_origin (c ∷ origin) after h k

trims : (e : Entry) → IsEntry e → trim_right (trim_left (entry_text e)) ≡ e.origin
trims e h =
    rw (trim_left_blanks e.before (e.origin ++ e.after) h.0) (trims_origin e.origin e.after h.1 h.2)

no_comma : (e : Entry) → IsEntry e → All (λ c. c ≢ 44) (entry_text e)
no_comma e h = All-append _ e.before (e.origin ++ e.after) (All-map _ _ e.before blank h.0) (
    All-append _ e.origin e.after (All-map _ _ e.origin (λ c p. p.1) h.1)
      (All-map _ _ e.after blank h.2))
  where
    blank : (c : ℕ) → IsBlank c → c ≢ 44
    blank c b e = let comma : is_space 44 ≡ true = subst (λ x. is_space x ≡ true) e b in cc

any_origin-written :
    (e : Entry) (entries : List Entry) (origin : Str)
    → All IsEntry (e ∷ entries)
    → any_origin (split 44 (written e entries)) origin ≡ is_listed (e ∷ entries) origin
any_origin-written e [] origin h =
    rw (split-last 44 (entry_text e) (no_comma e h.0), trims e h.0) refl
any_origin-written e (f ∷ entries) origin h =
    rw (split-append 44 (entry_text e) (written f entries) (no_comma e h.0), trims e h.0)
      (ap (λ b. e.origin == origin || b) (any_origin-written f entries origin h.1))

-- If ALLOWED_ORIGINS is a list of origins without blanks or commas, with blanks around them and commas
-- between them, and is not `*`, then a request with an origin gets the CORS headers exactly if its
-- origin is one of the list, and a preflight is answered in both cases.
pub cors-is_listed :
    (e : Entry) (entries : List Entry) (origin method : Str)
    → All IsEntry (e ∷ entries)
    → origin ≢ []
    → written e entries ≢ bytes "*"
    → ((cors (written e entries) origin method).allow_origin
        ≡ (if is_listed (e ∷ entries) origin then some origin else none))
      × ((cors (written e entries) origin method).answered ≡ (method == bytes "OPTIONS"))
unfolding cors contains_origin
cors-is_listed e entries origin method h named star =
    rw
      (
        ==_false origin [] named,
        ==_false (written e entries) (bytes "*") star,
        any_origin-written e entries origin h,
      )
      (refl, refl)
