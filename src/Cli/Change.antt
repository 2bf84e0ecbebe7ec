-- ===== src/Cli/Change.antt =====
-- cli/cmd/db.go: `garance db migrate`, `garance db reset` and `garance db seed`.
pub mod Safety
pub mod Order
use garance.Prelude.{
  ℕ, ◌+◌, ◌-◌, Str, List, [], ◌∷◌, ◌++◌, bytes, Option, none, some, Bool, true, false, not, ◌==◌,
  nat_eq, str_eq, ◌&&◌, ◌||◌, if◌then◌else◌, leb, map,
}
use garance.Errors.{Error}
use garance.Exec.{Result, Action, pure, raise, wrapped, lift, read_clock, ◌>>=◌, ◌>>◌, call}
use garance.Encoding.Decimal.{format}
use garance.Cli.Machine.{
  FilePath, Outside, Machine, Operation, Preview, Payload, Body, join, write_file, mkdir_all, ask,
  getenv, on_server,
}
use garance.Cli.Schema.{compile}
use garance.Cli.Db.{get_database_url, migrate, reset, seed}

-- strings.ReplaceAll(s, ".", "_")
abbrev pub replace_dots : Str → Str
replace_dots = map λ c. if c == b'.' then b'_' else c

-- ops[op]++
unfoldable pub increment : Str → List (Str × ℕ) → List (Str × ℕ)
increment op [] = (op, 1) ∷ []
increment op ((key, n) ∷ ops) =
    if key == op then (key, n + 1) ∷ ops else (key, n) ∷ increment op ops

unfoldable pub count_ops : List Operation → List (Str × ℕ) → List (Str × ℕ)
count_ops [] ops = ops
count_ops (o ∷ operations) ops = count_ops operations (increment o.op ops)

abbrev part : Str × ℕ → Str
part (op, n) = op ++ (b'_' ∷ format n)

-- strings.Join(parts, "_")
unfoldable pub join_parts : List Str → Str
join_parts [] = []
join_parts (p ∷ []) = p
join_parts (p ∷ q ∷ parts) = p ++ (b'_' ∷ join_parts (q ∷ parts))

-- `visit` is the order in which the map is ranged over.
unfoldable pub generate_description : (List (Str × ℕ) → List (Str × ℕ)) → List Operation → Str
generate_description visit [] = bytes "migration"
generate_description visit (o ∷ []) = replace_dots (o.op ++ (b'_' ∷ o.target))
generate_description visit (o ∷ p ∷ operations) =
    join_parts (map part (visit (count_ops (o ∷ p ∷ operations) [])))

-- strings.ToLower and strings.TrimSpace, on ASCII.
abbrev lower : ℕ → ℕ
lower c = if leb b'A' c && leb c b'Z' then c + 32 else c

abbrev is_space : ℕ → Bool
is_space c = c == 0x20 || (leb 0x09 c && leb c 0x0D)

unfoldable pub trim_left : Str → Str
trim_left [] = []
trim_left (c ∷ s) = if is_space c then trim_left s else c ∷ s

-- A space before what is kept of the rest is kept only if the rest is.
abbrev keep_space : ℕ → Str → Str
keep_space c [] = if is_space c then [] else c ∷ []
keep_space c (d ∷ rest) = c ∷ d ∷ rest

unfoldable pub trim_right : Str → Str
trim_right [] = []
trim_right (c ∷ s) = keep_space c (trim_right s)

unfoldable pub trim_space : Str → Str
unfolding trim_left trim_right
trim_space s = trim_right (trim_left s)

abbrev pub is_yes : Str → Bool
is_yes answer = map lower (trim_space answer) == bytes "y"

abbrev pub engine_or_default : Str → Str
engine_or_default url = if url == [] then bytes "http://localhost:4000" else url

abbrev pub parse_preview : Payload → Result Preview
parse_preview (Payload.preview p) = Result.ok p
parse_preview (Payload.other s) = Result.err (Error.failure "failed to parse preview response")

module _ (O : Outside) where
  open O use {Server, post, timestamp, visit}

  abbrev pub request : Str → Body → Action (Machine Server) (ℕ × Payload)
  request url body = on_server (post url body)

  -- Step 5
  unfoldable pub apply_migration : Str → Preview → Action (Machine Server) (Unit {0})
  unfolding ◌>>=◌ wrapped call
  apply_migration engine_url preview = do
    (status, body) ←
        wrapped "failed to connect to Engine"
          (request (engine_url ++ bytes "/api/v1/_migrate/apply") (Body.apply_sql preview.sql))
    if not (status == 200) then raise (Error.failure "apply failed") else pure tt

  abbrev pub migration_name : ℕ → Preview → Str
  migration_name now preview =
      timestamp now ++ (b'_' ∷ generate_description visit preview.operations ++ bytes ".sql")

  -- Step 4, and what follows.
  unfoldable pub save_and_apply : FilePath → Str → Preview → Action (Machine Server) (Unit {0})
  unfolding ◌>>=◌ wrapped call apply_migration
  save_and_apply dir engine_url preview = do
    let folder = join dir (bytes "migrations")
    wrapped "failed to create migrations directory" (mkdir_all folder)
    now ← read_clock
    wrapped "failed to write migration file"
        (write_file (join folder (migration_name now preview)) preview.sql)
    apply_migration engine_url preview

  -- The question of step 3, and what follows.
  unfoldable pub ask_first : FilePath → Str → Preview → Action (Machine Server) (Unit {0})
  unfolding ◌>>=◌ save_and_apply
  ask_first dir engine_url preview = do
    answer ← ask λ m. m.typed
    if not (is_yes answer) then pure tt else save_and_apply dir engine_url preview

  -- Step 3, and what follows.
  unfoldable pub confirm : Bool → FilePath → Str → Preview → Action (Machine Server) (Unit {0})
  unfolding ask_first save_and_apply
  confirm assume_yes dir engine_url preview =
      if preview.destructive && not assume_yes
      then ask_first dir engine_url preview
      else save_and_apply dir engine_url preview

  -- What the answer to the preview is followed by.
  unfoldable pub previewed :
      Bool → FilePath → Str → ℕ × Payload → Action (Machine Server) (Unit {0})
  unfolding ◌>>=◌ confirm
  previewed assume_yes dir engine_url (status, body) =
      if not (status == 200)
      then raise (Error.failure "preview failed")
      else lift (parse_preview body) >>= λ preview.
          if not preview.has_changes then pure tt else confirm assume_yes dir engine_url preview

  -- Steps 1 and 2, and what follows.
  unfoldable pub after_dir : Bool → FilePath → Action (Machine Server) (Unit {0})
  unfolding ◌>>=◌ wrapped call compile previewed
  after_dir assume_yes dir = do
    url ← getenv (bytes "ENGINE_URL")
    let engine_url = engine_or_default url
    schema ← wrapped "compilation failed" (compile O dir)
    reply ←
        wrapped "failed to connect to Engine"
          (request (engine_url ++ bytes "/api/v1/_migrate/preview") (Body.desired_schema schema))
    previewed assume_yes dir engine_url reply

  -- dbMigrateCmd, with the flag --yes
  unfoldable pub db_migrate : Bool → Action (Machine Server) (Unit {0})
  unfolding ◌>>=◌ after_dir
  db_migrate assume_yes = (ask λ m. m.dir) >>= after_dir assume_yes

  -- dbResetCmd
  unfoldable pub db_reset : Action (Machine Server) (Unit {0})
  unfolding ◌>>=◌ get_database_url reset migrate
  db_reset = do
    dir ← ask λ m. m.dir
    database_url ← get_database_url dir
    reset O database_url
    migrate O dir database_url

  -- dbSeedCmd
  unfoldable pub db_seed : Action (Machine Server) (Unit {0})
  unfolding ◌>>=◌ get_database_url seed
  db_seed = do dir ← ask λ m. m.dir; database_url ← get_database_url dir; seed O dir database_url
