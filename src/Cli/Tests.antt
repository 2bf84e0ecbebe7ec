-- ===== src/Cli/Tests.antt =====
-- The command line tool on a small disk, with a server that keeps the statements it was sent.
use garance.Prelude.{
  ℕ, ◌≡◌, refl, Bool, true, false, List, [], ◌∷◌, ◌++◌, map, Str, Option, some, none, bytes, ◌==◌,
  str_eq, nat_eq, str_eq as s_eq, if◌then◌else◌, arith, take, drop, take-append, drop-append,
  length,
}
use garance.Errors.{Error}
use garance.Encoding.Split.{split}
use garance.Exec.{Result, World}
use garance.Cli.Machine.{
  Machine, Outside, Node, Disk, FilePath, Config, Body, Payload, Preview, Operation, Project, find,
  made_all, join, written, has_folder, entries_of, sort_entries, str_leb, path_eq,
}
use garance.Cli.Db.{split_lines, get_database_url, migrate}
use garance.Cli.Lines.{finish, newline, split_lines-split}
use garance.Cli.Lines.Env.{Line, render, key, split_lines-render, get_database_url-env_file}
use garance.Cli.Folder.{IsDisk}
use garance.Cli.Migrate.{Applied, is_calm, folder_scripts, migrations, migrate-Applied}
use garance.Cli.Change.{db_migrate, migration_name, generate_description}
use garance.Cli.Change.Safety.{Served, db_migrate-Served}
use garance.Cli.Change.Order.{folder_scripts-written}
use garance.Cli.Project.{init_in, load_config, initial_project}
use garance.Cli.Project.Init.{project_files, load_config-init}
use garance.Cli.Project.Files.{Holds}

abbrev destructive_preview : Preview
destructive_preview = record {
  sql = bytes "DROP TABLE t";
  destructive = true;
  has_changes = true;
  operations = record { op = bytes "drop_table"; target = bytes "public.t"; detail = [] } ∷ [];
}

abbrev answer : Body → List Str → Result (ℕ × Payload) × List Str
answer (Body.desired_schema s) log = (Result.ok (200, Payload.preview destructive_preview), log)
answer (Body.apply_sql sql) log = (Result.ok (200, Payload.other []), log ++ sql ∷ [])

-- A garance.json that gives two lengths before the three texts.
abbrev write_texts : Project → Str
write_texts p = length p.name ∷ length p.version ∷ p.name ++ (p.version ++ p.engine)

abbrev read_texts : Str → Option Project
read_texts (n ∷ v ∷ s) =
    some (record { name = take n s; version = take v (drop n s); engine = drop v (drop n s) })
read_texts _ = none

read_texts-write_texts : (p : Project) → read_texts (write_texts p) ≡ some p
read_texts-write_texts p =
    rw
      (
        take-append p.name (p.version ++ p.engine) refl,
        drop-append p.name (p.version ++ p.engine) refl,
        take-append p.version p.engine refl,
        drop-append p.version p.engine refl,
      )
      refl

abbrev logging : Outside
logging = record {
  Server = List Str;
  parse_config = λ url. Result.ok (record { address = url; database = bytes "garance" });
  execute = λ conn sql log.
      if sql == bytes "bad" then (some (Error.pg "42601"), log) else (none, log ++ sql ∷ []);
  post = λ url body log. answer body log;
  get = λ url log. Result.ok 200;
  tsx = λ dir script disk. Result.ok (bytes "{}");
  docker = λ dir args log. (none, log);
  raw_message = λ s. some s;
  write_project = write_texts;
  read_project = read_texts;
  timestamp = λ t. if t == 0 then bytes "20260101000000" else bytes "20250101000000";
  visit = λ counts. counts;
}

abbrev home : FilePath
home = bytes "home" ∷ []

abbrev disk : Disk
disk =
    (home, Node.folder)
    ∷ (join home (bytes "migrations"), Node.folder)
    ∷ (join (join home (bytes "migrations")) (bytes "2.sql"), Node.file (bytes "second"))
    ∷ (join (join home (bytes "migrations")) (bytes "1.sql"), Node.file (bytes "first"))
    ∷ (join (join home (bytes "migrations")) (bytes "3.txt"), Node.file (bytes "notes"))
    ∷ (join home (bytes "garance.schema.ts"), Node.file (bytes "{}"))
    ∷ []

abbrev machine : Disk → Machine (List Str)
machine d = record {
  dir = home;
  disk = d;
  env = λ name. [];
  typed = bytes "n";
  server = [];
  started = [];
}

abbrev world : Disk → List Bool → World (Machine (List Str))
world d faults = record { db = machine d; faults = faults; now = 0; entropy = λ i. i; drawn = 0 }

abbrev windows_text : Str
windows_text = bytes "a" ++ (0x0D ∷ 0x0A ∷ bytes "b" ++ 0x0D ∷ [])

split_lines_runs : split_lines windows_text ≡ bytes "a" ∷ (bytes "b" ++ 0x0D ∷ []) ∷ []
unfolding split_lines
split_lines_runs = refl

split_lines-split_example : split_lines windows_text ≡ finish (split newline windows_text)
split_lines-split_example = split_lines-split windows_text

migrate_runs :
    (migrate logging home (bytes "url") (world disk [])).1.db.server
    ≡ bytes "first" ∷ bytes "second" ∷ []
unfolding migrate
migrate_runs = refl

disk-IsDisk : IsDisk disk
unfolding find
disk-IsDisk = (refl, (refl, (refl, (refl, (refl, (refl, tt))))))

migrate-Applied_example :
    Applied logging
      (is_calm logging (false ∷ false ∷ false ∷ false ∷ true ∷ []))
      (record { address = bytes "url"; database = bytes "garance" })
      (folder_scripts home disk)
      []
      (migrate logging home
        (bytes "url")
        (world disk (false ∷ false ∷ false ∷ false ∷ true ∷ []))).0
      (migrate logging home
        (bytes "url")
        (world disk (false ∷ false ∷ false ∷ false ∷ true ∷ []))).1.db.server
unfolding find
migrate-Applied_example =
    migrate-Applied logging home (bytes "url")
      (record { address = bytes "url"; database = bytes "garance" })
      (world disk (false ∷ false ∷ false ∷ false ∷ true ∷ [])) refl disk-IsDisk refl

db_migrate-Served_example :
    Served logging false (machine disk) (db_migrate logging false (world disk [])).1.db
db_migrate-Served_example = db_migrate-Served logging false (world disk [])

db_migrate_asks : (db_migrate logging false (world disk [])).1.db.server ≡ []
unfolding db_migrate find written garance.Cli.Change.trim_space
db_migrate_asks = refl

db_migrate_applies :
    (db_migrate logging true (world disk [])).1.db.server ≡ bytes "DROP TABLE t" ∷ []
unfolding db_migrate find written made_all garance.Cli.Machine.removed
db_migrate_applies = refl

abbrev saved_name : Str
saved_name = bytes "20260101000000_drop_table_public_t.sql"

migration_name_runs : migration_name logging 0 destructive_preview ≡ saved_name
unfolding generate_description
migration_name_runs = refl

abbrev saved_path : FilePath
saved_path = join (migrations home) (migration_name logging 0 destructive_preview)

-- A disk whose one migration was saved at an earlier time.
abbrev older : Disk
older =
    (home, Node.folder)
    ∷ (migrations home, Node.folder)
    ∷ (
      join (migrations home) (migration_name logging 1 destructive_preview),
      Node.file (bytes "first"),
    )
    ∷ []

folder_scripts-written_example :
    folder_scripts home (written saved_path (bytes "DROP TABLE t") older).1
    ≡ folder_scripts home older ++ bytes "DROP TABLE t" ∷ []
unfolding find written entries_of generate_description
folder_scripts-written_example =
    folder_scripts-written logging home older 0 destructive_preview refl
      ((1, destructive_preview, (refl, refl)), tt) refl

abbrev env_before : List Line
env_before = (bytes "# local", true) ∷ (bytes "DATABASE_URL=", false) ∷ []

abbrev env_after : List Line
env_after = (bytes "JWT_SECRET=x", true) ∷ []

abbrev env_line : Line
env_line = (key ++ bytes "pg://x", true)

abbrev env_disk : Disk
env_disk =
    (join home (bytes ".env.local"), Node.file (render (env_before ++ env_line ∷ env_after))) ∷ []

split_lines-render_example :
    split_lines (render (env_before ++ env_line ∷ env_after))
    ≡ map (λ (l : Line). l.0) (env_before ++ env_line ∷ env_after)
split_lines-render_example = split_lines-render (env_before ++ env_line ∷ env_after) (omega arith)

get_database_url-env_file_example :
    get_database_url home (world env_disk []) ≡ (Result.ok (bytes "pg://x"), world env_disk [])
unfolding find
get_database_url-env_file_example =
    get_database_url-env_file (world env_disk []) env_before env_after (bytes "pg://x") true refl
      refl refl (omega arith) (refl, (refl, tt)) (omega arith)

abbrev empty_home : World (Machine (List Str))
empty_home = world ((home, Node.folder) ∷ []) []

load_config-init_example :
    Holds
      (project_files logging home
        (bytes "app")
        (find (join home (bytes "package.json")) empty_home.db.disk))
      (init_in logging home (bytes "app") empty_home).1.db
    × ((load_config logging home (init_in logging home (bytes "app") empty_home).1).0
        ≡ Result.ok (initial_project (bytes "app")))
unfolding init_in find written made_all
load_config-init_example =
    load_config-init logging home (bytes "app") empty_home read_texts-write_texts refl refl
