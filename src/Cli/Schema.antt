-- ===== src/Cli/Schema.antt =====
-- cli/internal/schema/compile.go
use garance.Prelude.{Str, ◌++◌, ◌∷◌, bytes, Option, none, some}
use garance.Errors.{Error}
use garance.Exec.{Result, Action, pure, raise, wrapped, catch, lift, ◌>>=◌, ◌>>◌, call}
use garance.Cli.Machine.{
  FilePath, Outside, Machine, join, stat, write_file, read_disk, remove_file, deferred,
}

abbrev pub schema_file : FilePath → FilePath
schema_file dir = join dir (bytes "garance.schema.ts")

abbrev pub compiled_file : FilePath → FilePath
compiled_file dir = join dir (bytes "garance.schema.json")

abbrev pub script_file : FilePath → FilePath
script_file dir = join dir (bytes ".garance-compile.mjs")

abbrev nl : Str → Str
nl rest = 0x0A ∷ rest

abbrev pub script : Str
script =
    bytes "import { compile } from '@garance/schema';"
    ++ nl (
        bytes "const mod = await import('./garance.schema.ts');"
        ++ nl (
            bytes "const schema = mod.default;"
            ++ nl (
                bytes "const result = compile(schema);"
                ++ nl (bytes "console.log(JSON.stringify(result));" ++ nl (bytes "")))))

abbrev raw_or_error : Option Str → Result Str
raw_or_error none = Result.err (Error.failure "schema compilation produced invalid JSON")
raw_or_error (some raw) = Result.ok raw

module _ (O : Outside) where
  open O use {Server, tsx, raw_message}

  -- What follows the deferred removal of the script.
  abbrev compile_script : FilePath → Action (Machine Server) Str
  compile_script dir = do
    output ← wrapped "schema compilation failed" (read_disk (tsx dir (script_file dir)))
    raw ← lift (raw_or_error (raw_message output))
    wrapped "failed to write garance.schema.json" (write_file (compiled_file dir) output)
    pure raw

  unfoldable pub compile : FilePath → Action (Machine Server) Str
  unfolding ◌>>=◌ wrapped catch call deferred
  compile dir = do
    catch (stat (schema_file dir)) λ e. raise (Error.failure "garance.schema.ts not found")
    wrapped "failed to write compile script" (write_file (script_file dir) script)
    deferred (remove_file (script_file dir)) (compile_script dir)
