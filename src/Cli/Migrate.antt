-- ===== src/Cli/Migrate.antt =====
-- db.Migrate beside what it promises: the scripts of the folder, in the order of their names, are
-- sent to the server one after the other until one is refused.
use garance.Prelude.{
  ◌≡◌, refl, Bool, true, false, List, [], ◌∷◌, Str, Option, some, none, bytes, All, ◌==◌, nat_eq,
  str_eq, Bool-cases, if◌then◌else◌, not, ◌&&◌, inl, inr,
}
use garance.Errors.{Error}
use garance.Exec.{Result, World, Action, ◌>>=◌, ◌>>◌, call, wrapped, catch}
use garance.Cli.Machine.{
  read_file, read_dir, FilePath, Machine, Node, Config, Outside, find, join, ext, listed, Disk,
  entries_of, sort_entries, has_folder,
}
use garance.Cli.Folder.{IsDisk, IsEntry, listed-IsEntry}
use garance.Cli.Db.{exec, is_dir, apply_entries, migrate}

-- The entries that hold a migration.
abbrev pub is_script : Str × Node → Bool
is_script (name, node) = not (is_dir node) && (ext name == bytes ".sql")

abbrev pub text_of : Node → Str
text_of (Node.file s) = s
text_of Node.folder = []

abbrev pub scripts : List (Str × Node) → List Str
scripts [] = []
scripts (e ∷ entries) =
    let rest = scripts entries in if is_script e then text_of e.1 ∷ rest else rest

abbrev pub migrations : FilePath → FilePath
migrations dir = join dir (bytes "migrations")

-- What Migrate has to apply: the scripts of the folder, by ascending name.
abbrev pub folder_scripts : FilePath → Disk → List Str
folder_scripts dir disk = scripts (sort_entries (entries_of (migrations dir) disk))

not_calm :
    (calm : Bool) (faults : List Bool) {fs : List Bool}
    → (calm ≡ true → faults ≡ [])
    → faults ≡ true ∷ fs
    → calm ≡ false
not_calm false faults c e = refl
not_calm true faults c e = cc (c refl)

module _ (O : Outside) where
  open O use {Server, parse_config, execute}

  abbrev next : Option Error × Server → (Server → Option Error × Server) → Option Error × Server
  next (none, s) rest = rest s
  next (some e, s) rest = (some e, s)

  -- The scripts, one after the other until one is refused.
  abbrev pub run_scripts : Config → List Str → Server → Option Error × Server
  run_scripts conn [] s = (none, s)
  run_scripts conn (sql ∷ sqls) s = next (execute conn sql s) (run_scripts conn sqls)

  -- What a run may have done with the scripts: it stops at the first that is refused, or before
  -- any of them when a call fails, and returns without an error when it has gone through all.
  -- `calm` says that no call fails.
  pub data Applied (calm : Bool) (conn : Config)
      : List Str → Server → Result (Unit {0}) → Server → Type 0 where
    done : {s : Server} → Applied calm conn [] s (Result.ok tt) s
    stopped :
        {sqls : List Str} {s : Server} (e : Error)
        → calm ≡ false
        → Applied calm conn sqls s (Result.err e) s
    refused :
        {sql : Str} {sqls : List Str} {s t : Server} {e : Error}
        → execute conn sql s ≡ (some e, t)
        → Applied calm conn (sql ∷ sqls) s (Result.err (Error.wrap "failed to apply" e)) t
    accepted :
        {sql : Str} {sqls : List Str} {s t u : Server} {r : Result (Unit {0})}
        → execute conn sql s ≡ (none, t)
        → Applied calm conn sqls t r u
        → Applied calm conn (sql ∷ sqls) s r u

  abbrev outcome : Option Error → Result (Unit {0})
  outcome none = Result.ok tt
  outcome (some e) = Result.err (Error.wrap "failed to apply" e)

  -- When no call fails, the scripts have been run.
  pub Applied-run_scripts :
      {conn : Config} {sqls : List Str} {s t : Server} {r : Result (Unit {0})}
      → Applied true conn sqls s r t
      → let (refusal, u) = run_scripts conn sqls s in (r ≡ outcome refusal) × (t ≡ u)
  Applied-run_scripts done = (refl, refl)
  Applied-run_scripts (stopped e loud) = cc
  Applied-run_scripts (refused run) = rw run (refl, refl)
  Applied-run_scripts (accepted run more) = rw run (Applied-run_scripts more)

  -- When it returns without an error, the scripts have been run and none was refused.
  pub Applied-ok :
      {calm : Bool} {conn : Config} {sqls : List Str} {s t : Server} {r : Result (Unit {0})}
      → Applied calm conn sqls s r t
      → r ≡ Result.ok tt
      → run_scripts conn sqls s ≡ (none, t)
  Applied-ok done e = refl
  Applied-ok (stopped f loud) e = cc
  Applied-ok (refused run) e = cc
  Applied-ok (accepted run more) e = rw run (Applied-ok more e)

  module _ (calm : Bool) where
    abbrev Calm : World (Machine Server) → Type 0
    Calm w = calm ≡ true → w.faults ≡ []

    module _ (conn : Config) (sqls : List Str) (rest : Action (Machine Server) (Unit {0})) where
      -- What is left is done by `rest`, on the disk at hand.
      abbrev Completes : Disk → Type 0
      Completes disk =
          (w : World (Machine Server))
          → Calm w
          → w.db.disk ≡ disk
          → Applied calm conn sqls w.db.server (rest w).0 (rest w).1.db.server

      abbrev apply_one : Str → Action (Machine Server) (Unit {0})
      apply_one sql = wrapped "failed to apply" (exec O conn sql) >> rest

      exec-Applied :
          (sql : Str) (w : World (Machine Server)) (faults : List Bool) (x : Option Error × Server)
          → Calm w
          → w.faults ≡ faults
          → execute conn sql w.db.server ≡ x
          → Completes w.db.disk
          → Applied calm conn
              (sql ∷ sqls)
              w.db.server
              (apply_one sql w).0
              (apply_one sql w).1.db.server
      unfolding ◌>>=◌ wrapped catch call
      exec-Applied sql w [] (none, t) c e run k = rw (e, run) (accepted run (k _ (λ _. refl) refl))
      exec-Applied sql w [] (some x, t) c e run k = rw (e, run) (refused run)
      exec-Applied sql w (true ∷ fs) x c e run k = rw e (stopped _ (not_calm calm w.faults c e))
      exec-Applied sql w (false ∷ fs) (none, t) c e run k =
          rw (e, run) (accepted run (k _ (λ q. cc (c q)) refl))
      exec-Applied sql w (false ∷ fs) (some x, t) c e run k = rw (e, run) (refused run)

      abbrev read_one : FilePath → Action (Machine Server) (Unit {0})
      read_one p = wrapped "failed to read" (read_file p) >>= apply_one

      read-Applied :
          (p : FilePath) (sql : Str) (w : World (Machine Server)) (faults : List Bool)
          → Calm w
          → w.faults ≡ faults
          → find p w.db.disk ≡ some (Node.file sql)
          → Completes w.db.disk
          → Applied calm conn (sql ∷ sqls) w.db.server (read_one p w).0 (read_one p w).1.db.server
      unfolding ◌>>=◌ wrapped catch call
      read-Applied p sql w [] c e there k =
          rw (e, there) (exec-Applied sql (record w { faults = [] }) [] _ (λ _. refl) refl refl k)
      read-Applied p sql w (true ∷ fs) c e there k = rw e (stopped _ (not_calm calm w.faults c e))
      read-Applied p sql w (false ∷ fs) c e there k =
          rw (e, there)
            (exec-Applied sql (record w { faults = fs }) fs _ (λ q. cc (c q)) refl refl k)

    pub apply_entries-Applied :
        (conn : Config) (dir : FilePath) (entries : List (Str × Node)) (w : World (Machine Server))
        → Calm w
        → All (IsEntry dir w.db.disk) entries
        → let run = apply_entries O conn dir entries w in
          Applied calm conn (scripts entries) w.db.server run.0 run.1.db.server
    unfolding apply_entries
    apply_entries-Applied conn dir [] w c h = done
    apply_entries-Applied conn dir ((name, Node.folder) ∷ entries) w c h =
        apply_entries-Applied conn dir entries w c h.1
    apply_entries-Applied conn dir ((name, Node.file s) ∷ entries) w c h =
        elim (Bool-cases (ext name == bytes ".sql")) [
          | inl sql ↦ rw sql (
              read-Applied conn (scripts entries) (apply_entries O conn dir entries) (join dir name)
                s w w.faults c refl h.0
                λ v d e. apply_entries-Applied conn dir entries v d (rw e h.1))
          | inr other ↦ rw other (apply_entries-Applied conn dir entries w c h.1)
        ]

  abbrev pub is_calm : List Bool → Bool
  is_calm [] = true
  is_calm (_ ∷ _) = false

  is_calm-eq-nil : (faults : List Bool) → is_calm faults ≡ true → faults ≡ []
  is_calm-eq-nil [] e = refl
  is_calm-eq-nil (_ ∷ _) e = cc

  module _ (calm : Bool) (dir : FilePath) (conn : Config) where
    abbrev read_and_apply : Action (Machine Server) (Unit {0})
    read_and_apply =
        wrapped "failed to read migrations directory" (read_dir (migrations dir))
        >>= apply_entries O conn (migrations dir)

    read_dir-Applied :
        (w : World (Machine Server)) (faults : List Bool)
        → Calm calm w
        → w.faults ≡ faults
        → IsDisk w.db.disk
        → has_folder (migrations dir) w.db.disk ≡ true
        → let run = read_and_apply w in
          Applied calm conn (folder_scripts dir w.db.disk) w.db.server run.0 run.1.db.server
    unfolding ◌>>=◌ wrapped catch call listed
    read_dir-Applied w [] c e d there =
        rw (e, there)
          (apply_entries-Applied calm conn (migrations dir) _ _ (λ _. refl)
            (listed-IsEntry (migrations dir) w.db.disk d))
    read_dir-Applied w (true ∷ fs) c e d there = rw e (stopped _ (not_calm calm w.faults c e))
    read_dir-Applied w (false ∷ fs) c e d there =
        rw (e, there)
          (apply_entries-Applied calm conn (migrations dir) _ _ (λ q. cc (c q))
            (listed-IsEntry (migrations dir) w.db.disk d))

    connect-Applied :
        (database_url : Str) (w : World (Machine Server)) (faults : List Bool)
        → Calm calm w
        → w.faults ≡ faults
        → parse_config database_url ≡ Result.ok conn
        → IsDisk w.db.disk
        → has_folder (migrations dir) w.db.disk ≡ true
        → let run = migrate O dir database_url w in
          Applied calm conn (folder_scripts dir w.db.disk) w.db.server run.0 run.1.db.server
    unfolding migrate
    connect-Applied database_url w [] c e parsed d there =
        rw (parsed, e) (read_dir-Applied _ [] (λ _. refl) refl d there)
    connect-Applied database_url w (true ∷ fs) c e parsed d there =
        rw (parsed, e) (stopped _ (not_calm calm w.faults c e))
    connect-Applied database_url w (false ∷ fs) c e parsed d there =
        rw (parsed, e) (read_dir-Applied _ fs (λ q. cc (c q)) refl d there)

  -- Migrate sends the .sql files of migrations/ to the database in the order of their names, each
  -- only when all before it were accepted, and nothing else; it leaves out the rest only when one
  -- is refused or a call fails.
  pub migrate-Applied :
      (dir : FilePath) (database_url : Str) (conn : Config) (w : World (Machine Server))
      → parse_config database_url ≡ Result.ok conn
      → IsDisk w.db.disk
      → has_folder (migrations dir) w.db.disk ≡ true
      → let run = migrate O dir database_url w in
        Applied
          (is_calm w.faults)
          conn
          (folder_scripts dir w.db.disk)
          w.db.server
          run.0
          run.1.db.server
  migrate-Applied dir database_url conn w parsed d there =
      connect-Applied (is_calm w.faults) dir conn database_url w w.faults (is_calm-eq-nil w.faults)
        refl parsed d there
