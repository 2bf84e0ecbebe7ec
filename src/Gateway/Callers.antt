-- ===== src/Gateway/Callers.antt =====
-- Who asks the Engine: the tokens of services/auth/internal/token/jwt.go through the gateway's
-- middleware (services/gateway/internal/middleware/jwt.go) and its proxy of the Engine
-- (services/gateway/internal/proxy/engine.go).
mod Tests
use garance.Prelude.{
  ℕ, ◌+◌, ◌<◌, ◌^◌, Str, bytes, [], ◌∷◌, ◌++◌, Bool, true, false, List, Option, none, some, ◌≡◌,
  refl, ap, ◌==◌, ◌||◌, str_eq, if◌then◌else◌, eq_of_==, Bool-cases, inl, inr, arith,
}
use garance.Exec.{World, ok}
use garance.Http.{Response, Handler}
use garance.Auth.Packages.{Packages, Claims, TokenLaws}
use garance.Auth.Token.{Manager, claims_for, key_for, generate_access_token}
use garance.Auth.Token.RoundTrip.{from_some}
use garance.Encoding.Decimal.{format}
use garance.Encoding.Integer.{ℤ, sscanf_int}
use garance.Encoding.Integer.RoundTrip.{sscanf_int-format}
use garance.Gateway.Errors.{Transit, forward}
use garance.Gateway.Jwt.{parse, extract_jwt}
use garance.Gateway.EngineProxy.{
  Engine, Caller, Query, first, get, is_reserved, list_request, filters_of, number_of, RowRequest,
  row_or_404, deleted_or_404, list_rows, get_row, insert_row, update_row, delete_row,
}

abbrev pub lookup : Str → List (Str × Str) → Option Str
lookup key [] = none
lookup key ((k, v) ∷ filters) = if k == key then some v else lookup key filters

-- The first value of a parameter.
abbrev head : List Str → Str
head [] = []
head (v ∷ vals) = v

abbrev pub first_value : Str → Query → Option Str
first_value key [] = none
first_value key ((k, vals) ∷ query) = if k == key then some (head vals) else first_value key query

abbrev pub is_among : List Str → Str → Bool
is_among [] key = false
is_among (p ∷ names) key = key == p || is_among names key

-- The parameters of the query that are no filters.
abbrev pub controls : List Str
controls = bytes "select" ∷ bytes "order" ∷ bytes "limit" ∷ bytes "offset" ∷ []

is_reserved-controls : (key : Str) → is_reserved key ≡ is_among controls key
is_reserved-controls key = ground arith

lookup-filters_of :
    (key : Str) (query : Query)
    → lookup key (filters_of query) ≡ (if is_reserved key then none else first_value key query)
unfolding filters_of
lookup-filters_of key [] = elim (Bool-cases (is_reserved key)) [
  | inl reserved ↦ rw reserved refl
  | inr free ↦ rw free refl
]
lookup-filters_of key ((k, vals) ∷ query) = elim (Bool-cases (k == key)) [
  | inl found ↦
      let alike : is_reserved k ≡ is_reserved key = ap is_reserved (eq_of_== k key found) in
      let rest : lookup key (filters_of query)
          ≡ (if is_reserved key then none else first_value key query) =
        lookup-filters_of key query in
      elim (Bool-cases (is_reserved key)) [
        | inl reserved ↦ rw (alike, reserved) (rw reserved at rest)
        | inr free ↦ rw (alike, free, found) refl
      ]
  | inr other ↦ elim (Bool-cases (is_reserved k)) [
    | inl reserved ↦ rw (reserved, other) (lookup-filters_of key query)
    | inr free ↦ rw (free, other) (lookup-filters_of key query)
  ]
]

abbrev pub or_empty : Option Str → Str
or_empty none = []
or_empty (some v) = v

get-first_value : (key : Str) (query : Query) → get key query ≡ or_empty (first_value key query)
unfolding get
get-first_value key [] = refl
get-first_value key ((k, vals) ∷ query) = elim (Bool-cases (k == key)) [
  | inl found ↦ rw found (first-head vals)
  | inr other ↦ rw other (get-first_value key query)
]
  where
    first-head : (vals : List Str) → first vals ≡ head vals
    first-head [] = refl
    first-head (v ∷ vals) = refl

number_of-format :
    (key : Str) (query : Query) (n : ℕ)
    → n < 2 ^ 63
    → first_value key query ≡ some (format n)
    → number_of (get key query) ≡ ℤ.pos n
unfolding sscanf_int
number_of-format key query n small e =
    rw (get-first_value key query, e) (go (format n) (sscanf_int-format n small))
  where
    go : (text : Str) → sscanf_int text ≡ ℤ.pos n → number_of text ≡ ℤ.pos n
    go [] h = h
    go (c ∷ text) h = h

-- The request that ListRows sends to the Engine for a query whose limit and offset are numbers of 63
-- bits, as %d prints them: its filters are the parameters other than select, order, limit and offset,
-- each with its first value; select and order are the first values of these parameters, or empty; and
-- limit and offset are the two numbers.
pub list_request-query :
    (table key : Str) (query : Query) (context : Option Claims) (limit offset : ℕ)
    → limit < 2 ^ 63
    → offset < 2 ^ 63
    → first_value (bytes "limit") query ≡ some (format limit)
    → first_value (bytes "offset") query ≡ some (format offset)
    → (lookup key (list_request table query context).filters
        ≡ (if is_among controls key then none else first_value key query))
      × ((list_request table query context).select ≡ or_empty (first_value (bytes "select") query))
      × ((list_request table query context).order ≡ or_empty (first_value (bytes "order") query))
      × ((list_request table query context).limit ≡ ℤ.pos limit)
      × ((list_request table query context).offset ≡ ℤ.pos offset)
list_request-query table key query context limit offset small_limit small_offset some_limit
      some_offset =
    (
      rw⁻¹ (is_reserved-controls key) (lookup-filters_of key query),
      get-first_value (bytes "select") query,
      get-first_value (bytes "order") query,
      number_of-format (bytes "limit") query limit small_limit some_limit,
      number_of-format (bytes "offset") query offset small_offset some_offset,
    )

-- The request of a row handler, with the three fields that say who asks.
abbrev pub row_of : Str → Str → Str → Caller → RowRequest
row_of table id body caller = record { table = table; id = id; body_json = body; caller = caller }

-- The caller that a token was issued for.
abbrev pub issued_to : Packages → ℕ → Str → Str → Caller
issued_to pkg user_id project role = record {
  user_id = pkg.uuid_string user_id;
  project_id = project;
  role = role;
}

module _ {D E : Type 0} (pkg : Packages) (tokens : Manager) (laws : TokenLaws pkg)
    (engine : Engine E) (call : Transit) where
  -- If a signed token parses to its claims, then a request with a token that the auth service's
  -- GenerateAccessToken has issued, sent through the gateway before the token ends, reads, inserts,
  -- changes and deletes rows in the Engine as the user, in the project and with the role that the
  -- token was issued for, whatever its query and its body say and whatever becomes of the gRPC call.
  pub rows-generate_access_token :
      (user_id : ℕ) (project role token table id body : Str) (query : Query) (w : World D)
      (v : World E)
      → (generate_access_token pkg tokens user_id project role w).0 ≡ ok token
      → v.now < w.now + tokens.access_expiry
      → (extract_jwt pkg tokens.secret
            (bytes "Bearer " ++ token)
            (list_rows engine call table query)
            v
          ≡ forward call
              (engine.list_rows (record {
                table = table;
                filters = filters_of query;
                select = get (bytes "select") query;
                order = get (bytes "order") query;
                limit = number_of (get (bytes "limit") query);
                offset = number_of (get (bytes "offset") query);
                caller = issued_to pkg user_id project role;
              }))
              (Response.json 200)
              v)
        × (extract_jwt pkg tokens.secret (bytes "Bearer " ++ token) (get_row engine call table id) v
            ≡ forward call
                (engine.get_row (row_of table id [] (issued_to pkg user_id project role)))
                (row_or_404 200)
                v)
        × (extract_jwt pkg tokens.secret
              (bytes "Bearer " ++ token)
              (insert_row engine call table (some body))
              v
            ≡ forward call
                (engine.insert_row (row_of table [] body (issued_to pkg user_id project role)))
                (λ r. Response.json 201 r.row_json)
                v)
        × (extract_jwt pkg tokens.secret
              (bytes "Bearer " ++ token)
              (update_row engine call table id (some body))
              v
            ≡ forward call
                (engine.update_row (row_of table id body (issued_to pkg user_id project role)))
                (row_or_404 200)
                v)
        × (extract_jwt pkg tokens.secret
              (bytes "Bearer " ++ token)
              (delete_row engine call table id)
              v
            ≡ forward call
                (engine.delete_row (row_of table id [] (issued_to pkg user_id project role)))
                deleted_or_404
                v)
  unfolding extract_jwt generate_access_token list_rows get_row insert_row update_row delete_row
  rows-generate_access_token user_id project role token table id body query w v e early =
      rw
        (laws.parse-sign (claims_for pkg tokens user_id project role w.now) tokens.secret token
          (key_for tokens.secret) v.now (from_some _ e) refl early)
        (refl, refl, refl, refl, refl)
