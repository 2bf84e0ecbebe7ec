-- ===== src/Cli/Lines/Env.antt =====
-- .env.local as lines that end in "\n" or "\r\n", read back by GetDatabaseURL.
use garance.Prelude.{
  ℕ, ◌<◌, ◌≡◌, ◌≢◌, refl, sym, ap, ◌∙◌, Bool, true, false, List, [], ◌∷◌, ◌++◌, map, Str, some,
  bytes, All, All-append, All-map, ◌==◌, nat_eq, str_eq, ==_false, ltb, ◌&&◌, length, length-append,
  take-append, drop-append, arith,
}
use mathlib.Core.List.{append_assoc, map-append}
use garance.Exec.{Result, World, ◌>>=◌, call_at}
use garance.Cli.Machine.{Machine, Node, find, join}
use garance.Cli.Db.{slice, byte_at, trim_cr, split_lines, url_of_lines, get_database_url}
use garance.Cli.Lines.{
  trim_cr_lem, trim_cr-without_cr, without_cr, split_lines-split, finish-newline,
}

-- A line of text, and whether a '\r' stands before its newline.
abbrev pub Line : Type 0
Line = Str × Bool

abbrev ending : Bool → Str
ending true = 0x0D ∷ 0x0A ∷ []
ending false = 0x0A ∷ []

abbrev pub render : List Line → Str
render [] = []
render ((line, cr) ∷ lines) = line ++ (ending cr ++ render lines)

-- No '\n' and no '\r' inside the line.
abbrev pub IsPlain : Line → Type 0
IsPlain l = All (λ c. (c ≢ 0x0A) × (c ≢ 0x0D)) l.0

byte_at-last : (c : ℕ) (s : Str) (P : ℕ → Type 0) → All P (c ∷ s) → P (byte_at (c ∷ s) (length s))
byte_at-last c [] P h = h.0
byte_at-last c (d ∷ s) P h = byte_at-last d s P h.1

trim_cr-plain : (line : Str) → All (λ c. c ≢ 0x0D) line → trim_cr line ≡ line
unfolding trim_cr
trim_cr-plain [] h = refl
trim_cr-plain (c ∷ s) h =
    trim_cr_lem (c ∷ s) (length s) refl
    ∙ rw (==_false _ 0x0D (byte_at-last c s (λ d. d ≢ 0x0D) h)) refl

trim_cr-append : (line : Str) → trim_cr (line ++ 0x0D ∷ []) ≡ line
trim_cr-append line =
    trim_cr_lem (line ++ 0x0D ∷ []) (length line) (omega (arith, length-append line (0x0D ∷ [])))
    ∙ rw (drop-append line (0x0D ∷ []) refl) (take-append line (0x0D ∷ []) refl)

no_newline : (l : Line) → IsPlain l → All (λ c. c ≢ 0x0A) l.0
no_newline l h = All-map _ _ l.0 (λ c k. k.0) h

split_lines-newline :
    (line rest : Str)
    → All (λ c. c ≢ 0x0A) line
    → split_lines (line ++ 0x0A ∷ rest) ≡ trim_cr line ∷ split_lines rest
split_lines-newline line rest h =
    split_lines-split (line ++ 0x0A ∷ rest)
    ∙ finish-newline line rest h
    ∙ rw (trim_cr-without_cr line) (ap (◌∷◌ (without_cr line)) (sym (split_lines-split rest)))

split_lines-cons :
    (l : Line) (rest : Str)
    → IsPlain l
    → split_lines (l.0 ++ (ending l.1 ++ rest)) ≡ l.0 ∷ split_lines rest
split_lines-cons (line, true) rest h =
    ap split_lines (sym (append_assoc line (0x0D ∷ []) (0x0A ∷ rest)))
    ∙ split_lines-newline (line ++ 0x0D ∷ []) rest
        (All-append _ line (0x0D ∷ []) (no_newline (line, true) h) (omega arith))
    ∙ ap (λ t. t ∷ split_lines rest) (trim_cr-append line)
split_lines-cons (line, false) rest h =
    split_lines-newline line rest (no_newline (line, false) h)
    ∙ ap (λ t. t ∷ split_lines rest) (trim_cr-plain line (All-map _ _ line (λ c k. k.1) h))

-- Lines that contain no '\n' and no '\r' are read back, whichever of "\n" and "\r\n" ends each.
pub split_lines-render :
    (lines : List Line)
    → All IsPlain lines
    → split_lines (render lines) ≡ map (λ (l : Line). l.0) lines
unfolding split_lines
split_lines-render [] h = refl
split_lines-render (l ∷ lines) h =
    split_lines-cons l (render lines) h.0 ∙ ap (◌∷◌ l.0) (split_lines-render lines h.1)

abbrev pub key : Str
key = bytes "DATABASE_URL="

-- A line that gives no URL: another text before the URL, or no URL after it.
abbrev pub IsOther : Line → Type 0
IsOther l = (ltb 13 (length l.0) && (slice l.0 0 13 == key)) ≡ false

url_of_lines-append :
    (before : List Line) (rest : List Str)
    → All IsOther before
    → url_of_lines (map (λ (l : Line). l.0) before ++ rest) ≡ url_of_lines rest
unfolding url_of_lines
url_of_lines-append [] rest h = refl
url_of_lines-append (l ∷ before) rest h = rw h.0 (url_of_lines-append before rest h.1)

url_of_lines-key :
    (url : Str) (rest : List Str) → 0 < length url → url_of_lines ((key ++ url) ∷ rest) ≡ url
unfolding url_of_lines
url_of_lines-key [] rest h = absurd (omega arith)
url_of_lines-key (c ∷ url) rest h = ground arith

env_file-url :
    (before after : List Line) (url : Str) (cr : Bool)
    → All IsPlain (before ++ (key ++ url, cr) ∷ after)
    → All IsOther before
    → 0 < length url
    → url_of_lines (split_lines (render (before ++ (key ++ url, cr) ∷ after))) ≡ url
env_file-url before after url cr plain others long =
    rw (split_lines-render (before ++ (key ++ url, cr) ∷ after) plain) (
      rw map-append (
        url_of_lines-append before _ others
        ∙ url_of_lines-key url (map (λ (l : Line). l.0) after) long))

module _ {S : Type 0} where
  -- Without DATABASE_URL in the environment, GetDatabaseURL finds the first line of .env.local that
  -- gives a URL, whatever lines stand before and after it, if every line, the last one included, ends
  -- in "\n" or "\r\n" and contains neither character before its end.
  pub get_database_url-env_file :
      (w : World (Machine S)) (before after : List Line) (url : Str) (cr : Bool)
      → w.faults ≡ []
      → w.db.env (bytes "DATABASE_URL") ≡ []
      → find (join w.db.dir (bytes ".env.local")) w.db.disk
        ≡ some (Node.file (render (before ++ (key ++ url, cr) ∷ after)))
      → All IsPlain (before ++ (key ++ url, cr) ∷ after)
      → All IsOther before
      → 0 < length url
      → get_database_url w.db.dir w ≡ (Result.ok url, w)
  unfolding get_database_url
  get_database_url-env_file w before after url cr calm unset found plain others long =
      rw (unset, ◌>>=◌, call_at, calm, found)
        (ap (λ u. (Result.ok u, record w { faults = [] }))
          (env_file-url before after url cr plain others long))
