-- ===== src/Cli/Change/Order.antt =====
-- A saved migration is the last that db.Migrate applies.
use garance.Prelude.{
  All-map, ltb, sort_by, insert_by, ℕ, ◌≡◌, ◌≢◌, refl, sym, ap, ◌∙◌, Bool, true, false, List, [],
  ◌∷◌, ◌++◌, Str, Option, some, none, bytes, All, ◌==◌, str_eq, str_beq_iff, nat_eq, Bool-cases,
  inl, inr, if◌then◌else◌, arith,
}
use garance.Exec.{Result}
use garance.Cli.Machine.{
  FilePath, Node, Disk, Outside, Preview, find, put, join, written, entry_name, add_entry,
  entries_of, str_leb, entry_leb, sort_entries, ext, path_eq, or_rest,
}
use garance.Cli.Machine.Rules.{written-put}
use garance.Cli.Migrate.{is_script, scripts, text_of, migrations, folder_scripts}
use garance.Cli.Change.{migration_name, generate_description}

put-fresh :
    (p : FilePath) (n : Node) (disk : Disk)
    → find p disk ≡ none
    → put p n disk ≡ disk ++ (p, n) ∷ []
unfolding put find
put-fresh p n [] h = refl
put-fresh p n ((q, m) ∷ disk) h = elim (Bool-cases (q == p)) [
  | inl same ↦ let bad = rw same at h in cc
  | inr other ↦ rw other (ap (◌∷◌ (q, m)) (put-fresh p n disk (rw other at h)))
]

entry_name-join : (dir : FilePath) (name : Str) → entry_name dir (join dir name) ≡ some name
entry_name-join [] name = refl
entry_name-join (a ∷ dir) name = ground (arith, str_beq_iff a a, entry_name-join dir name)

add_entry-append :
    (name : Option Str) (n : Node) (es fs : List (Str × Node))
    → add_entry name n es ++ fs ≡ add_entry name n (es ++ fs)
add_entry-append none n es fs = refl
add_entry-append (some name) n es fs = refl

entries_of-append :
    (dir : FilePath) (disk : Disk) (name : Str) (n : Node)
    → entries_of dir (disk ++ (join dir name, n) ∷ []) ≡ entries_of dir disk ++ (name, n) ∷ []
unfolding entries_of
entries_of-append dir [] name n = rw (entry_name-join dir name) refl
entries_of-append dir ((p, m) ∷ disk) name n =
    ap (add_entry (entry_name dir p) m) (entries_of-append dir disk name n)
    ∙ sym (add_entry-append (entry_name dir p) m _ _)

insert_by-append :
    (e f : Str × Node) (es : List (Str × Node))
    → str_leb e.0 f.0 ≡ true
    → insert_by entry_leb e (es ++ f ∷ []) ≡ insert_by entry_leb e es ++ f ∷ []
unfolding insert_by
insert_by-append e f [] h = rw h refl
insert_by-append e f (g ∷ es) h = elim (Bool-cases (str_leb e.0 g.0)) [
  | inl le ↦ rw le refl
  | inr gt ↦ rw gt (ap (◌∷◌ g) (insert_by-append e f es h))
]

sort_entries-append :
    (es : List (Str × Node)) (f : Str × Node)
    → All (λ e. str_leb e.0 f.0 ≡ true) es
    → sort_entries (es ++ f ∷ []) ≡ sort_entries es ++ f ∷ []
unfolding sort_by insert_by
sort_entries-append [] f h = refl
sort_entries-append (e ∷ es) f h =
    ap (insert_by entry_leb e) (sort_entries-append es f h.1)
    ∙ insert_by-append e f (sort_entries es) h.0

scripts-append : (es fs : List (Str × Node)) → scripts (es ++ fs) ≡ scripts es ++ scripts fs
scripts-append [] fs = refl
scripts-append (e ∷ es) fs = rw (scripts-append es fs) (prepend (is_script e) (text_of e.1))
  where
    prepend :
        (b : Bool) (sql : Str)
        → (if b then sql ∷ scripts es ++ scripts fs else scripts es ++ scripts fs)
          ≡ (if b then sql ∷ scripts es else scripts es) ++ scripts fs
    prepend true sql = refl
    prepend false sql = refl

or_rest-ne : (s t : Str) → s ≢ [] → or_rest s t ≡ s
or_rest-ne [] t h = absurd (h refl)
or_rest-ne (c ∷ s) t h = refl

-- The extension of a text is that of its end, if this has one.
ext-append : (s t : Str) → ext t ≢ [] → ext (s ++ t) ≡ ext t
unfolding ext
ext-append [] t h = refl
ext-append (c ∷ s) t h = rw (ext-append s t h) (or_rest-ne (ext t) _ h)

-- A file of migrations/ whose name follows those that are there is applied last.
folder_scripts-put :
    (dir : FilePath) (disk : Disk) (name sql : Str)
    → find (join (migrations dir) name) disk ≡ none
    → All (λ (e : Str × Node). str_leb e.0 name ≡ true) (entries_of (migrations dir) disk)
    → ext name ≡ bytes ".sql"
    → folder_scripts dir (put (join (migrations dir) name) (Node.file sql) disk)
      ≡ folder_scripts dir disk ++ sql ∷ []
folder_scripts-put dir disk name sql fresh later script =
    rw
      (
        put-fresh (join (migrations dir) name) (Node.file sql) disk fresh,
        entries_of-append (migrations dir) disk name (Node.file sql),
      )
      (ap scripts
          (sort_entries-append (entries_of (migrations dir) disk) (name, Node.file sql) later)
        ∙ scripts-append (sort_entries (entries_of (migrations dir) disk))
            ((name, Node.file sql) ∷ [])
        ∙ rw script refl)

ext-migration_name :
    (O : Outside) (now : ℕ) (p : Preview) → ext (migration_name O now p) ≡ bytes ".sql"
unfolding ext
ext-migration_name O now p = ext-append (O.timestamp now) _ (rw step (λ e. cc)) ∙ step
  where
    step : ext (b'_' ∷ generate_description O.visit p.operations ++ bytes ".sql") ≡ bytes ".sql"
    step = ext-append (b'_' ∷ generate_description O.visit p.operations) (bytes ".sql") (λ e. cc)

-- The first character in which two texts differ is smaller in the first text.
abbrev pub is_before : Str → Str → Bool
is_before [] t = false
is_before (a ∷ s) [] = false
is_before (a ∷ s) (b ∷ t) = if a == b then is_before s t else ltb a b

str_leb-is_before : (s t x y : Str) → is_before s t ≡ true → str_leb (s ++ x) (t ++ y) ≡ true
str_leb-is_before [] t x y h = cc
str_leb-is_before (a ∷ s) [] x y h = cc
str_leb-is_before (a ∷ s) (b ∷ t) x y h = ground (arith, str_leb-is_before s t x y)

-- A file that an earlier `garance db migrate` has saved: its timestamp is before the one of now.
abbrev pub IsEarlier : Outside → ℕ → Str × Node → Type 0
IsEarlier O now e =
    (t : ℕ) × (q : Preview) × ((e.0 ≡ migration_name O t q)
      × (is_before (O.timestamp t) (O.timestamp now) ≡ true))

earlier-str_leb :
    (O : Outside) (now : ℕ) (p : Preview) (e : Str × Node)
    → IsEarlier O now e
    → str_leb e.0 (migration_name O now p) ≡ true
earlier-str_leb O now p e (t, q, h) =
    rw h.0 (str_leb-is_before (O.timestamp t) (O.timestamp now) _ _ h.1)

-- If all that stands in migrations/ was saved by `garance db migrate` with earlier timestamps, then a
-- migration that it saves under a new name, whatever the operations say, is the last that Migrate
-- applies: the scripts before it are those from before.
pub folder_scripts-written :
    (O : Outside) (dir : FilePath) (disk : Disk) (now : ℕ) (p : Preview)
    → find (join (migrations dir) (migration_name O now p)) disk ≡ none
    → All (IsEarlier O now) (entries_of (migrations dir) disk)
    → (written (join (migrations dir) (migration_name O now p)) p.sql disk).0 ≡ Result.ok tt
    → folder_scripts dir (written (join (migrations dir) (migration_name O now p)) p.sql disk).1
      ≡ folder_scripts dir disk ++ p.sql ∷ []
folder_scripts-written O dir disk now p fresh earlier done =
    rw (written-put (join (migrations dir) (migration_name O now p)) p.sql disk done) (
      folder_scripts-put dir disk (migration_name O now p) p.sql fresh
        (All-map _ _ (entries_of (migrations dir) disk) (earlier-str_leb O now p) earlier)
        (ext-migration_name O now p))
