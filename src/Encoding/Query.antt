-- ===== src/Encoding/Query.antt =====
-- url.Values.Encode of net/url: the pairs sorted by key, escaped and joined by `&`.
use garance.Prelude.{
  ℕ, ◌+◌, ◌/◌, ◌%◌, Str, List, [], ◌∷◌, ◌++◌, Bool, true, false, ◌||◌, ◌&&◌, ltb, leb, ◌==◌, nat_eq,
  if◌then◌else◌,
}

-- Bytes that url.QueryEscape leaves alone: letters, digits and - _ . ~
is_unreserved : ℕ → Bool
is_unreserved c =
    (leb b'a' c && leb c b'z')
    || (leb b'A' c && leb c b'Z')
    || (leb b'0' c && leb c b'9')
    || (c == b'-' || c == b'_' || c == b'.' || c == b'~')

-- "0123456789ABCDEF"[v]
upper_digit : ℕ → ℕ
upper_digit v = if ltb v 10 then b'0' + v else b'7' + v

escape_byte : ℕ → Str
unfolding is_unreserved upper_digit
escape_byte c =
    if is_unreserved c
    then c ∷ []
    else if c == 32
    then b'+' ∷ []
    else b'%' ∷ upper_digit (c / 16) ∷ upper_digit (c % 16) ∷ []

-- url.QueryEscape
unfoldable pub escape : Str → Str
unfolding escape_byte
escape [] = []
escape (c ∷ s) = escape_byte c ++ escape s

-- The order of Go strings, by bytes.
is_before : Str → Str → Bool
is_before [] t = true
is_before (_ ∷ _) [] = false
is_before (a ∷ s) (b ∷ t) =
    let rest = is_before s t in if ltb a b then true else if a == b then rest else false

abbrev Pair : Type 0
Pair = Str × Str

insert_pair : Pair → List Pair → List Pair
unfolding is_before
insert_pair p [] = p ∷ []
insert_pair p (q ∷ qs) = if is_before p.0 q.0 then p ∷ q ∷ qs else q ∷ insert_pair p qs

sort_pairs : List Pair → List Pair
unfolding insert_pair
sort_pairs [] = []
sort_pairs (p ∷ ps) = insert_pair p (sort_pairs ps)

abbrev escape_pair : Pair → Str
escape_pair (k, v) = escape k ++ b'=' ∷ escape v

join_pairs : List Pair → Str
unfolding escape
join_pairs [] = []
join_pairs (p ∷ []) = escape_pair p
join_pairs (p ∷ q ∷ ps) = escape_pair p ++ b'&' ∷ join_pairs (q ∷ ps)

-- Each key of the program's values has one value.
unfoldable pub encode_values : List (Str × Str) → Str
unfolding sort_pairs join_pairs
encode_values ps = join_pairs (sort_pairs ps)
