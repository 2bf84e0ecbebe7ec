-- ===== src/Cli/Project/Files.antt =====
-- What os.WriteFile and os.MkdirAll leave on the disk, beside what stood there.
use garance.Prelude.{
  ◌≡◌, refl, ap, ◌∙◌, false, List, [], ◌∷◌, ◌++◌, Str, String, Option, some, none, All, All-map,
  str_beq, ◌==◌, str_eq, str_beq_iff, nat_eq, Bool-cases, inl, inr, arith, ==_refl, eq_of_==,
}
use mathlib.Core.List.{append_assoc}
use garance.Exec.{Result, wrapped}
use garance.Exec.Keeps.{Keeps, Keeps-send, Keeps-wrapped}
use garance.Exec.Ends.{Ends, Post, Ends-wrapped}
use garance.Cli.Machine.{
  Machine, Node, Disk, FilePath, find, put, join, path_beq, path_eq, written, made_all, make_next,
  is_folder, has_folder, parent, write_file, mkdir_all,
}
use garance.Cli.Machine.Rules.{written-find, Ends-on_disk}
use garance.Cli.Folder.{find-put}

pub path_beq-append : (dir s t : FilePath) → path_beq (dir ++ s) (dir ++ t) ≡ path_beq s t
path_beq-append [] s t = refl
path_beq-append (a ∷ dir) s t = ground (arith, str_beq_iff a a, path_beq-append dir s t)

written-other :
    (p q : FilePath) (s : Str) (disk : Disk)
    → path_beq p q ≡ false
    → find q (written p s disk).1 ≡ find q disk
unfolding written
written-other p q s disk other = elim (Bool-cases (is_folder (find p disk))) [
  | inl yes_folder ↦ rw yes_folder refl
  | inr plain ↦ elim (Bool-cases (has_folder (parent p) disk)) [
    | inl there ↦ rw (plain, there) (rw (find-put p q (Node.file s) disk, other) refl)
    | inr missing ↦ rw (plain, missing) refl
  ]
]

put-some :
    (p q : FilePath) (n k : Node) (disk : Disk)
    → find p disk ≡ none
    → find q disk ≡ some k
    → find q (put p n disk) ≡ some k
put-some p q n k disk fresh there = elim (Bool-cases (p == q)) [
  | inl same ↦ cc (eq_of_== p q same)
  | inr other ↦ rw (find-put p q n disk, other) there
]

-- MkdirAll only adds folders.
make_next-find :
    (p q : FilePath) (k : Node) (disk : Disk) (rest : Disk → Result (Unit {0}) × Disk)
    (o : Option Node)
    → find p disk ≡ o
    → ((d : Disk) → find q d ≡ some k → find q (rest d).1 ≡ some k)
    → find q disk ≡ some k
    → find q (make_next o p rest disk).1 ≡ some k
make_next-find p q k disk rest none e keep h = keep _ (put-some p q Node.folder k disk e h)
make_next-find p q k disk rest (some Node.folder) e keep h = keep disk h
make_next-find p q k disk rest (some (Node.file s)) e keep h = h

-- MkdirAll only adds folders.
made_all-find :
    (made p q : FilePath) (k : Node) (disk : Disk)
    → find q disk ≡ some k
    → find q (made_all made p disk).1 ≡ some k
unfolding made_all
made_all-find made [] q k disk h = h
made_all-find made (a ∷ p) q k disk h =
    make_next-find (join made a) q k disk _ _ refl
      (λ d there. made_all-find (join made a) p q k d there) h

-- None of the folders on the way of MkdirAll is q.
abbrev pub Apart : FilePath → FilePath → FilePath → Type 0
Apart q made [] = Unit
Apart q made (a ∷ p) = (path_beq (join made a) q ≡ false) × Apart q (join made a) p

make_next-same :
    (p q : FilePath) (disk : Disk) (rest : Disk → Result (Unit {0}) × Disk) (o v : Option Node)
    → path_beq p q ≡ false
    → ((d : Disk) → find q d ≡ v → find q (rest d).1 ≡ v)
    → find q disk ≡ v
    → find q (make_next o p rest disk).1 ≡ v
make_next-same p q disk rest none v other keep h =
    keep _ (rw (find-put p q Node.folder disk, other) h)
make_next-same p q disk rest (some Node.folder) v other keep h = keep disk h
make_next-same p q disk rest (some (Node.file s)) v other keep h = h

made_all-Apart :
    (made p q : FilePath) (v : Option Node) (disk : Disk)
    → Apart q made p
    → find q disk ≡ v
    → find q (made_all made p disk).1 ≡ v
unfolding made_all
made_all-Apart made [] q v disk apart h = h
made_all-Apart made (a ∷ p) q v disk apart h =
    make_next-same (join made a) q disk _ _ v apart.0
      (λ d k. made_all-Apart (join made a) p q v d apart.1 k) h

path_beq-join : (c b : Str) (dir : FilePath) → path_beq (c ∷ []) (c ∷ join dir b) ≡ false
path_beq-join c b [] = ground arith
path_beq-join c b (a ∷ dir) = ground arith

-- Two names in one folder.
pub Apart-join :
    (made dir : FilePath) (a b : Str)
    → str_beq a b ≡ false
    → Apart (made ++ join dir b) made (join dir a)
Apart-join made [] a b h = (path_beq-append made (a ∷ []) (b ∷ []) ∙ rw h refl, tt)
Apart-join made (c ∷ dir) a b h = (
  path_beq-append made (c ∷ []) (c ∷ join dir b) ∙ path_beq-join c b dir,
  rw (append_assoc made (c ∷ []) (join dir b)) at (Apart-join (join made c) dir a b h),
)

make_next-folder :
    (p q : FilePath) (disk : Disk) (rest : Disk → Result (Unit {0}) × Disk) (o : Option Node)
    → find p disk ≡ o
    → ((d : Disk)
        → find p d ≡ some Node.folder
        → (rest d).0 ≡ Result.ok tt
        → find q (rest d).1 ≡ some Node.folder)
    → (make_next o p rest disk).0 ≡ Result.ok tt
    → find q (make_next o p rest disk).1 ≡ some Node.folder
make_next-folder p q disk rest none e k done =
    k _ (rw (find-put p p Node.folder disk, ==_refl p) refl) done
make_next-folder p q disk rest (some Node.folder) e k done = k disk e done
make_next-folder p q disk rest (some (Node.file s)) e k done = cc

-- Where MkdirAll succeeds, the folder is there.
made_all-folder :
    (made : FilePath) (a : Str) (p : FilePath) (disk : Disk)
    → (made_all made (a ∷ p) disk).0 ≡ Result.ok tt
    → find (made ++ a ∷ p) (made_all made (a ∷ p) disk).1 ≡ some Node.folder
unfolding made_all
made_all-folder made a [] disk done =
    make_next-folder (join made a) (join made a) disk _ _ refl (λ d there fine. there) done
made_all-folder made a (b ∷ p) disk done =
    make_next-folder (join made a) (made ++ a ∷ b ∷ p) disk _ _ refl
      (λ d there fine. rw append_assoc at (made_all-folder (join made a) b p d fine)) done

join-folder :
    (p : FilePath) (a : Str) (disk : Disk)
    → (made_all [] (join p a) disk).0 ≡ Result.ok tt
    → find (join p a) (made_all [] (join p a) disk).1 ≡ some Node.folder
join-folder [] a disk done = made_all-folder [] a [] disk done
join-folder (b ∷ p) a disk done = made_all-folder [] b (join p a) disk done

abbrev pub Others : FilePath → List (FilePath × Node) → Type 0
Others p files = All (λ (x : FilePath × Node). path_beq p x.0 ≡ false) files

All-zip :
    {B : Type 0} (P Q R : B → Type 0) (xs : List B)
    → ((x : B) → P x → Q x → R x)
    → All P xs
    → All Q xs
    → All R xs
All-zip P Q R [] f h k = tt
All-zip P Q R (x ∷ xs) f h k = (f x h.0 k.0, All-zip P Q R xs f h.1 k.1)

module _ {S : Type 0} where
  -- What stands at some paths.
  abbrev pub Holds : List (FilePath × Node) → Machine S → Type 0
  Holds files m = All (λ (x : FilePath × Node). find x.0 m.disk ≡ some x.1) files

  written-Holds :
      (p : FilePath) (s : Str) (files : List (FilePath × Node)) (m : Machine S)
      → Others p files
      → Holds files m
      → Holds files (record m { disk = (written p s m.disk).1 })
  written-Holds p s files m other h =
      All-zip _ _ _ files (λ x e k. written-other p x.0 s m.disk e ∙ k) other h

  -- A write to another path.
  pub Keeps-write_file :
      (p : FilePath) (s : Str) (files : List (FilePath × Node))
      → Others p files
      → Keeps (Holds files) (write_file {S = S} p s)
  Keeps-write_file p s files other = Keeps-send _ λ t m h. written-Holds p s files m other h

  -- What stands at q, if anything.
  abbrev pub Stands : FilePath → Option Node → Machine S → Type 0
  Stands q v m = find q m.disk ≡ v

  pub write_file-Stands :
      (message : String) (p q : FilePath) (s : Str) (v : Option Node)
      → path_beq p q ≡ false
      → Keeps (Stands q v) (wrapped message (write_file p s))
  write_file-Stands message p q s v other =
      Keeps-wrapped message _ (Keeps-send _ (λ t m h. written-other p q s m.disk other ∙ h))

  pub mkdir_all-Stands :
      (message : String) (dir : FilePath) (a b : Str) (v : Option Node)
      → str_beq a b ≡ false
      → Keeps (Stands (join dir b) v) (wrapped message (mkdir_all (join dir a)))
  mkdir_all-Stands message dir a b v other = Keeps-wrapped message _ (
      Keeps-send _ (λ t m h.
        made_all-Apart [] (join dir a) (join dir b) v m.disk (Apart-join [] dir a b other) h))

  wrote :
      (p : FilePath) (s : Str) (files : List (FilePath × Node))
      → Others p files
      → (m : Machine S) (r : Result (Unit {0})) (d : Disk) → Holds files m
      → written p s m.disk ≡ (r, d)
      → Post (λ _. Holds ((p, Node.file s) ∷ files)) (λ _. Unit) r (record m { disk = d })
  wrote p s files other m (Result.ok _) d h run = (
    rw run at (written-find p s m.disk (ap (λ (x : Result (Unit {0}) × Disk). x.0) run)),
    rw run at (written-Holds p s files m other h),
  )
  wrote p s files other m (Result.err e) d h run = tt
  wrote p s files other m Result.panic d h run = tt

  pub Ends-write_file :
      (message : String) (p : FilePath) (s : Str) (files : List (FilePath × Node))
      → Others p files
      → Ends
          (Holds files)
          (wrapped message (write_file {S = S} p s))
          (λ _. Holds ((p, Node.file s) ∷ files))
          (λ _. Unit)
  Ends-write_file message p s files other =
      Ends-wrapped message _ (Ends-on_disk _ (λ m h. tt) (wrote p s files other))

  made_all-Holds :
      (p : FilePath) (files : List (FilePath × Node)) (m : Machine S)
      → Holds files m
      → Holds files (record m { disk = (made_all [] p m.disk).1 })
  made_all-Holds p files m h = All-map _ _ files (λ x k. made_all-find [] p x.0 x.1 m.disk k) h

  made :
      (p : FilePath) (a : Str) (files : List (FilePath × Node)) (m : Machine S)
      (r : Result (Unit {0})) (d : Disk)
      → Holds files m
      → made_all [] (join p a) m.disk ≡ (r, d)
      → Post (λ _. Holds ((join p a, Node.folder) ∷ files)) (λ _. Unit) r (record m { disk = d })
  made p a files m (Result.ok _) d h run = (
    rw run at (join-folder p a m.disk (ap (λ (x : Result (Unit {0}) × Disk). x.0) run)),
    rw run at (made_all-Holds (join p a) files m h),
  )
  made p a files m (Result.err e) d h run = tt
  made p a files m Result.panic d h run = tt

  pub Ends-mkdir_all :
      (message : String) (p : FilePath) (a : Str) (files : List (FilePath × Node))
      → Ends
          (Holds files)
          (wrapped message (mkdir_all {S = S} (join p a)))
          (λ _. Holds ((join p a, Node.folder) ∷ files))
          (λ _. Unit)
  Ends-mkdir_all message p a files =
      Ends-wrapped message _ (Ends-on_disk _ (λ m h. tt) (made p a files))
