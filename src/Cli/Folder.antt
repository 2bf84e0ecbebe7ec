-- ===== src/Cli/Folder.antt =====
-- What os.ReadDir shows of a disk: its entries are on the disk, and sorted by name.
use garance.Prelude.{
  sort_by-All, sort_by-IsSorted, IsSorted, ◌≡◌, refl, true, false, List, [], ◌∷◌, Str, Option, some,
  none, All, All-map, ◌==◌, Bool-cases, if◌then◌else◌, arith, inl, inr, str_beq_iff, nat_eq,
  ==_refl, eq_of_==,
}
use garance.Cli.Machine.{
  FilePath, Node, Disk, find, put, join, path_eq, path_beq_iff, entry_name, add_entry, entries_of,
  str_leb, entry_leb, sort_entries,
}

-- One node at most for each path.
abbrev pub IsDisk : Disk → Type 0
IsDisk [] = Unit
IsDisk ((p, n) ∷ disk) = (find p disk ≡ none) × IsDisk disk

-- An entry as the disk has it.
abbrev pub IsEntry : FilePath → Disk → Str × Node → Type 0
IsEntry dir disk e = find (join dir e.0) disk ≡ some e.1

pub find-put :
    (p q : FilePath) (n : Node) (disk : Disk)
    → find q (put p n disk) ≡ (if p == q then some n else find q disk)
unfolding find put
find-put p q n [] = refl
find-put p q n ((r, m) ∷ disk) =
    ground (arith, path_beq_iff r p, path_beq_iff r q, path_beq_iff p q, find-put p q n disk)

-- Writing a node keeps the paths apart.
pub put-IsDisk : (p : FilePath) (n : Node) (disk : Disk) → IsDisk disk → IsDisk (put p n disk)
unfolding put find
put-IsDisk p n [] h = (refl, tt)
put-IsDisk p n ((q, m) ∷ disk) h = elim (Bool-cases (q == p)) [
  | inl same ↦ rw (same, ← eq_of_== q p same) h
  | inr other ↦ rw other (
    ground (arith, find-put p q n disk, path_beq_iff q p, path_beq_iff p q, h.0),
    put-IsDisk p n disk h.1,
  )
]

find-cons_other :
    (p q : FilePath) (m n : Node) (disk : Disk)
    → find p disk ≡ none
    → find q disk ≡ some n
    → find q ((p, m) ∷ disk) ≡ some n
unfolding find
find-cons_other p q m n disk fresh there = elim (Bool-cases (p == q)) [
  | inl same ↦ cc (eq_of_== p q same)
  | inr other ↦ rw other there
]

find-cons : (p : FilePath) (n : Node) (disk : Disk) → find p ((p, n) ∷ disk) ≡ some n
unfolding find
find-cons p n disk = rw (==_refl p) refl

pub IsDisk-All :
    (disk : Disk) → IsDisk disk → All (λ (x : FilePath × Node). find x.0 disk ≡ some x.1) disk
IsDisk-All [] h = tt
IsDisk-All ((p, n) ∷ disk) h = (
  find-cons p n disk,
  All-map _ _ disk (λ x k. find-cons_other p x.0 n x.1 disk h.0 k) (IsDisk-All disk h.1),
)

entry_name-join : (dir p : FilePath) (name : Str) → entry_name dir p ≡ some name → p ≡ join dir name
entry_name-join [] [] name e = cc
entry_name-join [] (a ∷ []) name e = cc
entry_name-join [] (a ∷ b ∷ p) name e = cc
entry_name-join (a ∷ dir) [] name e = cc
entry_name-join (a ∷ dir) (b ∷ p) name e =
    ground (arith, str_beq_iff a b, entry_name-join dir p name)

add_entry-IsEntry :
    (dir p : FilePath) (n : Node) (all : Disk) (name : Option Str) (entries : List (Str × Node))
    → entry_name dir p ≡ name
    → find p all ≡ some n
    → All (IsEntry dir all) entries
    → All (IsEntry dir all) (add_entry name n entries)
add_entry-IsEntry dir p n all none entries e there h = h
add_entry-IsEntry dir p n all (some name) entries e there h =
    (rw (← entry_name-join dir p name e) there, h)

entries_of-IsEntry :
    (dir : FilePath) (disk all : Disk)
    → All (λ (x : FilePath × Node). find x.0 all ≡ some x.1) disk
    → All (IsEntry dir all) (entries_of dir disk)
unfolding entries_of
entries_of-IsEntry dir [] all h = tt
entries_of-IsEntry dir ((p, n) ∷ disk) all h =
    add_entry-IsEntry dir p n all _ _ refl h.0 (entries_of-IsEntry dir disk all h.1)

-- The entries that ReadDir gives are on the disk.
pub listed-IsEntry :
    (dir : FilePath) (disk : Disk)
    → IsDisk disk
    → All (IsEntry dir disk) (sort_entries (entries_of dir disk))
listed-IsEntry dir disk h =
    sort_by-All _ entry_leb (entries_of dir disk)
      (entries_of-IsEntry dir disk disk (IsDisk-All disk h))

str_leb_total : (s t : Str) → str_leb s t ≡ false → str_leb t s ≡ true
str_leb_total [] t h = cc
str_leb_total (a ∷ s) [] h = refl
str_leb_total (a ∷ s) (b ∷ t) h = ground (arith, str_leb_total s t)

str_leb_trans : (s t u : Str) → str_leb s t ≡ true → str_leb t u ≡ true → str_leb s u ≡ true
str_leb_trans [] t u h k = refl
str_leb_trans (a ∷ s) [] u h k = cc
str_leb_trans (a ∷ s) (b ∷ t) [] h k = cc
str_leb_trans (a ∷ s) (b ∷ t) (c ∷ u) h k = ground (arith, str_leb_trans s t u)

-- Each name stands before those that follow it.
abbrev pub IsAscending : List (Str × Node) → Type 0
IsAscending = IsSorted entry_leb

pub sort_entries-IsAscending : (entries : List (Str × Node)) → IsAscending (sort_entries entries)
sort_entries-IsAscending entries =
    sort_by-IsSorted entry_leb (λ e f. str_leb_total e.0 f.0) (λ e f g. str_leb_trans e.0 f.0 g.0)
      entries
