-- ===== src/Cli/Machine/Rules.antt =====
-- The rules of Exec.Keeps and Exec.Ends for the calls of the command line tool, and what a file
-- holds after os.WriteFile.
use garance.Prelude.{◌≡◌, refl, Str, some, ==_refl, Bool-cases, inl, inr}
use garance.Exec.{Result, Action}
use garance.Exec.Keeps.{Keeps, Keeps-send}
use garance.Exec.Ends.{Ends, Ends-send, Post}
use garance.Cli.Machine.{
  path_eq, Machine, Disk, FilePath, Node, find, put, written, is_folder, has_folder, parent,
  on_disk, on_server, deferred,
}
use garance.Cli.Folder.{find-put}

-- A write that succeeds is an entry of the disk.
pub written-put :
    (p : FilePath) (s : Str) (disk : Disk)
    → (written p s disk).0 ≡ Result.ok tt
    → (written p s disk).1 ≡ put p (Node.file s) disk
unfolding written
written-put p s disk done = elim (Bool-cases (is_folder (find p disk))) [
  | inl yes_folder ↦ let bad = rw yes_folder at done in cc
  | inr other ↦ elim (Bool-cases (has_folder (parent p) disk)) [
    | inl there ↦ rw (other, there) refl
    | inr missing ↦ let bad = rw (other, missing) at done in cc
  ]
]

-- What is written is there.
pub written-find :
    (p : FilePath) (s : Str) (disk : Disk)
    → (written p s disk).0 ≡ Result.ok tt
    → find p (written p s disk).1 ≡ some (Node.file s)
written-find p s disk done =
    rw (written-put p s disk done, find-put p p (Node.file s) disk, ==_refl p) refl

module _ {S A : Type 0} {P : Machine S → Type 0} {Q : A → Machine S → Type 0}
    {E : Machine S → Type 0} where
  pub Ends-on_server :
      (f : S → Result A × S)
      → ((m : Machine S) → P m → E m)
      → ((m : Machine S) (r : Result A) (s : S)
          → P m
          → f m.server ≡ (r, s)
          → Post Q E r (record m { server = s }))
      → Ends P (on_server f) Q E
  Ends-on_server f e k = Ends-send _ e (λ t m p. k m _ _ p refl)

  pub Ends-on_disk :
      (f : Disk → Result A × Disk)
      → ((m : Machine S) → P m → E m)
      → ((m : Machine S) (r : Result A) (d : Disk)
          → P m
          → f m.disk ≡ (r, d)
          → Post Q E r (record m { disk = d }))
      → Ends P (on_disk f) Q E
  Ends-on_disk f e k = Ends-send _ e (λ t m p. k m _ _ p refl)

module _ {S A : Type 0} {P : Machine S → Type 0} where
  pub Keeps-deferred :
      (cleanup : Action (Machine S) (Unit {0})) (m : Action (Machine S) A)
      → Keeps P cleanup
      → Keeps P m
      → Keeps P (deferred cleanup m)
  unfolding deferred
  Keeps-deferred cleanup m kc km = record { at = λ w p. kc.at (m w).1 (km.at w p) }

  -- A call on the disk, for a property that does not look at the disk.
  pub Keeps-on_disk :
      (f : Disk → Result A × Disk)
      → ((m : Machine S) (d : Disk) → P m → P (record m { disk = d }))
      → Keeps P (on_disk f)
  Keeps-on_disk f k = Keeps-send _ (λ t m p. k m _ p)
