-- ===== src/Cli/Project.antt =====
-- cli/internal/project/project.go and cli/cmd/init.go, gen.go, status.go
pub mod Files
pub mod Init
use garance.Prelude.{
  ℕ, Bool, true, false, not, List, [], ◌∷◌, ◌++◌, Str, String, Option, none, some, bytes, ◌==◌,
  nat_eq, str_eq, if◌then◌else◌,
}
use garance.Errors.{Error}
use garance.Exec.{Result, Action, pure, raise, wrapped, catch, either, lift, ◌>>=◌, ◌>>◌, call}
use garance.Cli.Machine.{
  FilePath, Node, Outside, Machine, Project, Body, join, is_not_exist, stat, write_file, read_file,
  mkdir_all, ask, getenv, on_server, parent, path_eq,
}
use garance.Cli.Templates.{default_schema, default_seed, default_package, default_env, utf8}
use garance.Cli.Change.{engine_or_default}

abbrev pub config_file : FilePath → FilePath
config_file dir = join dir (bytes "garance.json")

abbrev pub initial_project : Str → Project
initial_project name = record { name = name; version = bytes "0.1.0"; engine = bytes "postgresql" }

module _ {S : Type 0} where
  -- if _, err := os.Stat(path); os.IsNotExist(err) { ... }
  unfoldable pub create_package : FilePath → Action (Machine S) (Unit {0})
  unfolding ◌>>=◌ either wrapped call
  create_package path =
      either (stat path)
        (λ e.
          if is_not_exist e
          then wrapped "failed to write package.json" (write_file path default_package)
          else pure tt)
        (λ node. pure tt)

  -- Exists
  unfoldable pub exists : FilePath → Action (Machine S) Bool
  unfolding either call
  exists dir = either (stat (config_file dir)) (λ e. pure false) (λ node. pure true)

abbrev project_or_error : Option Project → Result Project
project_or_error none = Result.err (Error.failure "failed to parse garance.json")
project_or_error (some p) = Result.ok p

module _ (O : Outside) where
  open O use {Server, get, write_project, read_project}

  -- Init
  unfoldable pub init_project : FilePath → Str → Action (Machine Server) (Unit {0})
  unfolding ◌>>=◌ wrapped call create_package
  init_project dir name = do
    wrapped "failed to write garance.json"
        (write_file (config_file dir) (write_project (initial_project name)))
    wrapped "failed to write garance.schema.ts"
        (write_file (join dir (bytes "garance.schema.ts")) default_schema)
    let seed_dir = join dir (bytes "seeds")
    wrapped "failed to create seeds directory" (mkdir_all seed_dir)
    wrapped "failed to write seed.sql" (write_file (join seed_dir (bytes "seed.sql")) default_seed)
    wrapped "failed to create migrations directory" (mkdir_all (join dir (bytes "migrations")))
    create_package (join dir (bytes "package.json"))
    wrapped "failed to write .env.local" (write_file (join dir (bytes ".env.local")) default_env)

  -- LoadConfig
  unfoldable pub load_config : FilePath → Action (Machine Server) Project
  unfolding ◌>>=◌ wrapped call
  load_config dir = do
    content ← wrapped "failed to read garance.json" (read_file (config_file dir))
    lift (project_or_error (read_project content))

  -- filepath.Base
  abbrev base : FilePath → Str
  base [] = bytes "/"
  base (a ∷ []) = a
  base (a ∷ b ∷ p) = base (b ∷ p)

  -- The end of initCmd, from the test of project.Exists on.
  unfoldable pub init_in : FilePath → Str → Action (Machine Server) (Unit {0})
  unfolding ◌>>=◌ exists init_project
  init_in dir name = do
    there ← exists dir
    if there
        then raise (Error.failure "project already initialized (garance.json exists)")
        else init_project dir name

  -- initCmd, where an argument that is given is one element of a path.
  unfoldable pub init_command : Option Str → Action (Machine Server) (Unit {0})
  unfolding ◌>>=◌ wrapped call init_in
  init_command none = (ask λ m. m.dir) >>= λ dir. init_in dir (base dir)
  init_command (some name) = do
    cwd ← ask λ m. m.dir
    wrapped "failed to create directory" (mkdir_all (join cwd name))
    init_in (join cwd name) name

  abbrev no_project : Error
  no_project = Error.failure "pas de projet Garance dans ce répertoire"

  -- The file that the types go to when no output is given.
  unfoldable pub types_file : FilePath → Str → FilePath
  types_file dir lang = join (join dir (bytes "types")) (
      if lang == bytes "dart"
      then bytes "garance.dart"
      else if lang == bytes "swift"
      then bytes "garance.swift"
      else if lang == bytes "kotlin"
      then bytes "garance.kt"
      else bytes "garance.ts")

  abbrev stub : Str → Str → Str
  stub lang engine_url =
      utf8 "// Types générés par garance gen types --lang "
      ++ (lang
          ++ (0x0A
                ∷ utf8
                    "// Connectez-vous à un environnement Garance (garance dev) pour générer les types réels"
              ++ (0x0A ∷ bytes "// ENGINE_URL: " ++ (engine_url ++ 0x0A ∷ []))))

  -- genTypesCmd after the test of project.Exists
  unfoldable pub gen_types_in : FilePath → Str → FilePath → Action (Machine Server) (Unit {0})
  unfolding ◌>>=◌ wrapped call types_file
  gen_types_in dir lang output = do
    let path = (if output == [] then types_file dir lang else output)
    wrapped "failed to create output directory" (mkdir_all (parent path))
    url ← getenv (bytes "ENGINE_URL")
    wrapped "failed to write types" (write_file path (stub lang (engine_or_default url)))

  -- genTypesCmd; an empty output is the flag left out.
  unfoldable pub gen_types : Str → FilePath → Action (Machine Server) (Unit {0})
  unfolding ◌>>=◌ exists gen_types_in
  gen_types lang output = do
    dir ← ask λ m. m.dir
    there ← exists dir
    if not there then raise no_project else gen_types_in dir lang output

  abbrev services : List (String × Str)
  services =
      ("Gateway", bytes "http://localhost:8080/health")
      ∷ ("Engine", bytes "http://localhost:4000/health")
      ∷ ("Auth", bytes "http://localhost:4001/health")
      ∷ ("Storage", bytes "http://localhost:4002/health")
      ∷ []

  -- Whether the service answers with 200; a request that fails counts as no.
  abbrev is_online : Str → Action (Machine Server) Bool
  is_online url =
      either (on_server λ s. (get url s, s)) (λ e. pure false) λ status. pure (status == 200)

  -- The loop over the services: what is printed of each.
  unfoldable pub check_services :
      List (String × Str) → Action (Machine Server) (List (String × Bool))
  unfolding ◌>>=◌ either call
  check_services [] = pure []
  check_services ((name, url) ∷ rest) = do
    online ← is_online url
    others ← check_services rest
    pure ((name, online) ∷ others)

  -- statusCmd after the test of project.Exists
  abbrev status_in : FilePath → Action (Machine Server) (Project × List (String × Bool))
  status_in dir = do
    config ← load_config dir
    online ← check_services services
    pure (config, online)

  -- statusCmd
  unfoldable pub status : Action (Machine Server) (Project × List (String × Bool))
  unfolding ◌>>=◌ exists load_config check_services
  status = do
    dir ← ask λ m. m.dir
    there ← exists dir
    if not there then raise no_project else status_in dir
