-- ===== src/Cli/Compose.antt =====
-- cli/internal/compose/compose.go and cli/cmd/dev.go
pub mod Template
use garance.Prelude.{
  Bool, true, false, not, List, [], ◌∷◌, ◌++◌, Str, bytes, ◌==◌, str_eq, if◌then◌else◌,
}
use garance.Errors.{Error}
use garance.Exec.{Action, pure, raise, wrapped, catch, either, ◌>>=◌, ◌>>◌, call}
use garance.Cli.Machine.{FilePath, Outside, Machine, join, stat, write_file, ask, run_command}
use garance.Cli.Project.{exists}
use garance.Cli.Compose.Template.{dev_compose}

abbrev pub compose_file : FilePath → FilePath
compose_file dir = join dir (bytes ".garance-compose.yml")

-- A path as the text of an argument.
abbrev pub show_path : FilePath → Str
show_path [] = []
show_path (a ∷ p) = b'/' ∷ a ++ show_path p

-- The arguments that all the command lines begin with.
abbrev pub compose_args : FilePath → List Str
compose_args dir =
    bytes "compose"
    ∷ bytes "-f"
    ∷ show_path (compose_file dir)
    ∷ bytes "--project-name"
    ∷ bytes "garance"
    ∷ []

module _ {S : Type 0} where
  -- WriteComposeFile
  unfoldable pub write_compose_file : FilePath → Action (Machine S) FilePath
  unfolding ◌>>=◌ wrapped call
  write_compose_file dir = do
    wrapped "failed to write compose file" (write_file (compose_file dir) dev_compose)
    pure (compose_file dir)

  -- The arguments that name .env.local, if it exists.
  unfoldable pub env_args : FilePath → Action (Machine S) (List Str)
  unfolding either call
  env_args dir =
      let env_file = join dir (bytes ".env.local") in
      either (stat env_file) (λ e. pure [])
        (λ node. pure (bytes "--env-file" ∷ show_path env_file ∷ []))

module _ (O : Outside) where
  open O use {Server, docker}

  abbrev run_docker : FilePath → List Str → Action (Machine Server) (Unit {0})
  run_docker dir = run_command (docker dir)

  unfoldable pub up : FilePath → Action (Machine Server) (Unit {0})
  unfolding ◌>>=◌ wrapped call write_compose_file env_args
  up dir = do
    path ← write_compose_file dir
    env ← env_args dir
    wrapped "docker compose up failed"
        (run_docker dir (compose_args dir ++ (env ++ bytes "up" ∷ bytes "-d" ∷ [])))

  abbrev no_environment : Error
  no_environment = Error.failure "no dev environment found (run 'garance dev' first)"

  unfoldable pub down : FilePath → Action (Machine Server) (Unit {0})
  unfolding ◌>>=◌ catch wrapped call
  down dir = do
    catch (stat (compose_file dir)) λ e. raise no_environment
    wrapped "docker compose down failed" (run_docker dir (compose_args dir ++ bytes "down" ∷ []))

  unfoldable pub compose_status : FilePath → Action (Machine Server) (Unit {0})
  unfolding ◌>>=◌ catch call
  compose_status dir = do
    catch (stat (compose_file dir)) λ e. raise no_environment
    run_docker dir (compose_args dir ++ bytes "ps" ∷ [])

  unfoldable pub logs : FilePath → Str → Bool → Action (Machine Server) (Unit {0})
  unfolding call
  logs dir service follow =
      let following = (if follow then bytes "-f" ∷ [] else []) in
      let named = (if not (service == []) then service ∷ [] else []) in
      run_docker dir (compose_args dir ++ (bytes "logs" ∷ following ++ named))

  -- devCmd
  unfoldable pub dev : Action (Machine Server) (Unit {0})
  unfolding ◌>>=◌ exists up
  dev = do
    dir ← ask λ m. m.dir
    there ← exists dir
    if not there
        then raise (
            Error.failure
              "pas de projet Garance dans ce répertoire (lancez 'garance init' d'abord)")
        else up dir

  -- devStopCmd, devStatusCmd and devLogsCmd
  unfoldable pub dev_stop : Action (Machine Server) (Unit {0})
  unfolding ◌>>=◌ down
  dev_stop = (ask λ m. m.dir) >>= down

  unfoldable pub dev_status : Action (Machine Server) (Unit {0})
  unfolding ◌>>=◌ compose_status
  dev_status = (ask λ m. m.dir) >>= compose_status

  abbrev first_arg : List Str → Str
  first_arg [] = []
  first_arg (service ∷ args) = service

  unfoldable pub dev_logs : List Str → Bool → Action (Machine Server) (Unit {0})
  unfolding ◌>>=◌ logs
  dev_logs args follow = (ask λ m. m.dir) >>= λ dir. logs dir (first_arg args) follow
