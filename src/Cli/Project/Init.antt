-- ===== src/Cli/Project/Init.antt =====
-- What `garance init` leaves on the disk, and that the other commands read it back.
use garance.Prelude.{
  ◌≡◌, refl, ap, ◌∙◌, true, false, List, [], ◌∷◌, Str, String, Option, none, some, bytes, str_beq,
  str_eq, nat_eq, arith,
}
use mathlib.Core.List.{append_assoc}
use garance.Exec.{Result, World, raise, wrapped, call, statement}
use garance.Exec.Keeps.{Keeps-either, Keeps-pure, Keeps-send}
use garance.Exec.Quiet.{
  Quiet, Calm-wrapped, Calm-send, Calm-either, Calm-pure, Quiet-of-Ends, Quiet-step, Quiet-bind,
  Quiet-if, Quiet-raise, Quiet-assume,
}
use garance.Exec.Ends.{Ends, Ends-of-Keeps, Ends-send}
use garance.Cli.Machine.{
  Project, Machine, Outside, Node, FilePath, find, join, path_beq, path_eq, write_file, mkdir_all,
  stat,
}
use garance.Cli.Templates.{default_schema, default_seed, default_env, default_package}
use garance.Cli.Project.{
  exists, config_file, initial_project, create_package, init_project, init_in, load_config,
}
use garance.Cli.Project.Files.{
  path_beq-append, Others, Holds, Stands, Ends-write_file, Ends-mkdir_all, write_file-Stands,
  mkdir_all-Stands,
}

module _ (O : Outside) (dir : FilePath) (name : Str) where
  open O use {Server, write_project}

  abbrev config : FilePath × Node
  config = (config_file dir, Node.file (write_project (initial_project name)))

  abbrev schema : FilePath × Node
  schema = (join dir (bytes "garance.schema.ts"), Node.file default_schema)

  abbrev seeds : FilePath × Node
  seeds = (join dir (bytes "seeds"), Node.folder)

  abbrev seed_entry : FilePath × Node
  seed_entry = (join (join dir (bytes "seeds")) (bytes "seed.sql"), Node.file default_seed)

  abbrev migrations : FilePath × Node
  migrations = (join dir (bytes "migrations"), Node.folder)

  abbrev env : FilePath × Node
  env = (join dir (bytes ".env.local"), Node.file default_env)

  abbrev package_file : FilePath
  package_file = join dir (bytes "package.json")

  -- A package.json that is there is kept.
  abbrev pub kept_package : Option Node → Node
  kept_package none = Node.file default_package
  kept_package (some n) = n

  abbrev made_files : List (FilePath × Node)
  made_files = migrations ∷ seed_entry ∷ seeds ∷ schema ∷ config ∷ []

  -- What a new project consists of, where v was at the place of package.json.
  abbrev pub project_files : Option Node → List (FilePath × Node)
  project_files v = env ∷ (package_file, kept_package v) ∷ made_files

  -- Two names in one folder.
  siblings : (a b : Str) → str_beq a b ≡ false → path_beq (join dir a) (join dir b) ≡ false
  siblings a b h = path_beq-append dir (a ∷ []) (b ∷ []) ∙ rw h refl

  nested : (a b c : Str) → path_beq (join (join dir a) b) (join dir c) ≡ false
  nested a b c =
      ap (λ p. path_beq p (join dir c)) (append_assoc dir (a ∷ []) (b ∷ []))
      ∙ path_beq-append dir (a ∷ b ∷ []) (c ∷ [])
      ∙ ground arith

  above : (a b c : Str) → path_beq (join dir c) (join (join dir a) b) ≡ false
  above a b c =
      ap (λ p. path_beq (join dir c) p) (append_assoc dir (a ∷ []) (b ∷ []))
      ∙ path_beq-append dir (c ∷ []) (a ∷ b ∷ [])
      ∙ ground arith

  -- The files from before a name that is none of theirs.
  beside :
      (a : Str)
      → str_beq a (bytes "migrations") ≡ false
      → str_beq a (bytes "seeds") ≡ false
      → str_beq a (bytes "garance.schema.ts") ≡ false
      → str_beq a (bytes "garance.json") ≡ false
      → Others (join dir a) (migrations ∷ seed_entry ∷ seeds ∷ schema ∷ config ∷ [])
  beside a m s t c =
      (siblings _ _ m, (above _ _ _, (siblings _ _ s, (siblings _ _ t, (siblings _ _ c, tt)))))

  beside_package : Others package_file made_files
  beside_package = beside (bytes "package.json") refl refl refl refl

  -- Some files, and what stands at the place of package.json.
  abbrev Both : Option Node → List (FilePath × Node) → Machine Server → Type 0
  Both v files m = Holds files m × Stands package_file v m

  create_package-Quiet :
      (v : Option Node)
      → Quiet
          (Both v made_files)
          (create_package {S = Server} package_file)
          (λ _. Holds ((package_file, kept_package v) ∷ made_files))
  unfolding create_package call
  create_package-Quiet v = record { at = λ w calm p a done. go v w calm p.0 p.1 a done }
    where
      go :
          (v : Option Node) (w : World (Machine Server))
          → w.faults ≡ []
          → Holds made_files w.db
          → find package_file w.db.disk ≡ v
          → (a : Unit {0}) → (create_package package_file w).0 ≡ Result.ok a
          → ((create_package package_file w).1.faults ≡ [])
            × Holds
                ((package_file, kept_package v) ∷ made_files)
                (create_package package_file w).1.db
      go (some n) w calm h there a done =
          let step : create_package package_file w ≡ call (statement (λ t m. (Result.ok tt, m))) w =
            rw (calm, there) refl in
          let ends : Ends (Both (some n) made_files) (call (statement (λ t m. (Result.ok tt, m))))
              (λ _. Holds ((package_file, n) ∷ made_files)) (λ _. Unit) =
            Ends-send (λ t m. (Result.ok tt, m)) (λ m q. tt) (λ t m q. (q.1, q.0)) in
          rw step ((Quiet-of-Ends _ (Calm-send _) ends).at w calm (h, there) a (rw step at done))
      go none w calm h there a done =
          let step : create_package package_file w
              ≡ wrapped "failed to write package.json" (write_file package_file default_package) w =
            rw (calm, there) refl in
          rw step (
            (Quiet-of-Ends _ (Calm-wrapped _ _ (Calm-send _)) (
                Ends-write_file "failed to write package.json" package_file default_package
                  made_files beside_package)).at
              w calm h a (rw step at done))

  write-Quiet :
      (v : Option Node) (message : String) (p : FilePath) (s : Str) (files : List (FilePath × Node))
      → Others p files
      → path_beq p package_file ≡ false
      → Quiet
          (Both v files)
          (wrapped message (write_file p s))
          (λ _. Both v ((p, Node.file s) ∷ files))
  write-Quiet v message p s files others other =
      Quiet-step _ (Calm-wrapped message _ (Calm-send _)) (Ends-write_file message p s files others)
        (write_file-Stands message p package_file s v other)

  folder-Quiet :
      (v : Option Node) (message : String) (a : Str) (files : List (FilePath × Node))
      → str_beq a (bytes "package.json") ≡ false
      → Quiet
          (Both v files)
          (wrapped message (mkdir_all (join dir a)))
          (λ _. Both v ((join dir a, Node.folder) ∷ files))
  folder-Quiet v message a files other =
      Quiet-step _ (Calm-wrapped message _ (Calm-send _)) (Ends-mkdir_all message dir a files)
        (mkdir_all-Stands message dir a (bytes "package.json") v other)

  -- The steps of Init beside what stands at the place of package.json.
  init_project-Quiet :
      (v : Option Node)
      → Quiet (Stands package_file v) (init_project O dir name) (λ _. Holds (project_files v))
  unfolding init_project
  init_project-Quiet v =
      Quiet-assume (λ m h. (tt, h))
        (Quiet-bind {R = λ _. Both v (config ∷ [])} (wrapped _ (write_file _ _)) _
          (write-Quiet v _ _ _ [] tt (siblings _ _ refl))
          λ _.
            Quiet-bind {R = λ _. Both v (schema ∷ config ∷ [])} (wrapped _ (write_file _ _)) _
              (write-Quiet v _ _ _ (config ∷ []) (siblings _ _ refl, tt) (siblings _ _ refl))
              λ _.
                Quiet-bind {R = λ _. Both v (seeds ∷ schema ∷ config ∷ [])}
                  (wrapped _ (mkdir_all _)) _ (folder-Quiet v _ _ (schema ∷ config ∷ []) refl)
                  λ _.
                    Quiet-bind {R = λ _. Both v (seed_entry ∷ seeds ∷ schema ∷ config ∷ [])}
                      (wrapped _ (write_file _ _)) _
                      (write-Quiet v _ _ _ (seeds ∷ schema ∷ config ∷ [])
                        (nested _ _ _, (nested _ _ _, (nested _ _ _, tt))) (nested _ _ _))
                      λ _.
                        Quiet-bind {R = λ _. Both v made_files} (wrapped _ (mkdir_all _)) _
                          (folder-Quiet v _ _ (seed_entry ∷ seeds ∷ schema ∷ config ∷ []) refl)
                          λ _.
                            Quiet-bind
                              {R = λ _. Holds ((package_file, kept_package v) ∷ made_files)}
                              (create_package _) _ (create_package-Quiet v)
                              λ _. Quiet-of-Ends _ (Calm-wrapped _ _ (Calm-send _)) (
                                Ends-write_file "failed to write .env.local" _ _
                                  ((package_file, kept_package v) ∷ made_files)
                                  (
                                    siblings _ _ refl,
                                    beside (bytes ".env.local") refl refl refl refl,
                                  )))

  exists-Quiet :
      (v : Option Node)
      → Quiet (Stands package_file v) (exists {S = Server} dir) (λ _. Stands package_file v)
  unfolding exists
  exists-Quiet v =
      Quiet-of-Ends _
        (Calm-either (stat _) _ _ (Calm-send _) (λ e. Calm-pure false) (λ n. Calm-pure true))
        (Ends-of-Keeps _ (
          Keeps-either (stat _) _ _ (Keeps-send _ (λ t m h. h)) (λ e. Keeps-pure false)
            (λ n. Keeps-pure true)))

  init_in-Quiet :
      (v : Option Node)
      → Quiet (Stands package_file v) (init_in O dir name) (λ _. Holds (project_files v))
  unfolding init_in
  init_in-Quiet v =
      Quiet-bind {R = λ _. Stands package_file v} (exists dir) _ (exists-Quiet v) λ there.
        Quiet-if there (raise _) (init_project O dir name) (Quiet-raise _) (init_project-Quiet v)

load_config-file :
    (O : Outside) (dir : FilePath) (name : Str) (w : World (Machine O.Server))
    → ((p : Project) → O.read_project (O.write_project p) ≡ some p)
    → find (config_file dir) w.db.disk ≡ some (Node.file (O.write_project (initial_project name)))
    → w.faults ≡ []
    → (load_config O dir w).0 ≡ Result.ok (initial_project name)
unfolding load_config
load_config-file O dir name w json there calm =
    rw (calm, there) (rw (json (initial_project name)) refl)

-- When no call fails and `garance init` returns without an error, then garance.json, the schema, the
-- seeds with seed.sql, the folder of migrations, package.json and .env.local are there with what Init
-- writes, but a package.json from before is kept, and LoadConfig reads the configuration with the name
-- that was given.
pub load_config-init :
    (O : Outside) (dir : FilePath) (name : Str) (w : World (Machine O.Server))
    → ((p : Project) → O.read_project (O.write_project p) ≡ some p)
    → w.faults ≡ []
    → (init_in O dir name w).0 ≡ Result.ok tt
    → Holds
        (project_files O dir name (find (join dir (bytes "package.json")) w.db.disk))
        (init_in O dir name w).1.db
      × ((load_config O dir (init_in O dir name w).1).0 ≡ Result.ok (initial_project name))
load_config-init O dir name w json calm done = (
  files.1,
  load_config-file O dir name (init_in O dir name w).1 json files.1.1.1.1.1.1.1.0 files.0,
)
  where
    files :
        ((init_in O dir name w).1.faults ≡ [])
        × Holds
            (project_files O dir name (find (join dir (bytes "package.json")) w.db.disk))
            (init_in O dir name w).1.db
    files =
        (init_in-Quiet O dir name (find (join dir (bytes "package.json")) w.db.disk)).at w calm refl
          tt done
