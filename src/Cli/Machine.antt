-- ===== src/Cli/Machine.antt =====
-- What the command line tool runs on: the disk as package os shows it, the environment, what the
-- user types, and the programs and servers that it calls, which are a parameter.
pub mod Rules
use garance.Prelude.{
  sort_by, ℕ, Bool, true, false, List, [], ◌∷◌, ◌++◌, Option, none, some, Str, String, str_beq,
  str_beq_iff, ◌==◌, Eq, string_eq, str_eq, ◌≡◌, ◌↔◌, ◌&&◌, ◌||◌, if◌then◌else◌, ltb, nat_eq, arith,
}
use garance.Errors.{Error}
use garance.Exec.{Result, Action, statement, call, World, draw, pure, ◌>>=◌}

-- A cleaned path, by its elements; `filepath.Join` appends elements.
abbrev pub FilePath : Type 0
FilePath = List Str

abbrev pub path_beq : FilePath → FilePath → Bool
path_beq [] [] = true
path_beq [] (_ ∷ _) = false
path_beq (_ ∷ _) [] = false
path_beq (a ∷ s) (b ∷ t) = str_beq a b && path_beq s t

pub path_beq_iff : (s t : FilePath) → (path_beq s t ≡ true) ↔ (s ≡ t)
path_beq_iff [] [] = ground arith
path_beq_iff [] (_ ∷ _) = ground arith
path_beq_iff (_ ∷ _) [] = ground arith
path_beq_iff (a ∷ s) (b ∷ t) = ground (arith, str_beq_iff a b, path_beq_iff s t)

instance abbrev pub path_eq : Eq FilePath
path_eq = record { beq = path_beq; beq_iff = path_beq_iff }

-- filepath.Join of a folder and one element, a name without a slash.
abbrev pub join : FilePath → Str → FilePath
join dir name = dir ++ name ∷ []

pub data Node : Type 0 where
  file : Str → Node
  folder : Node

abbrev pub Disk : Type 0
Disk = List (FilePath × Node)

unfoldable pub find : FilePath → Disk → Option Node
find p [] = none
find p ((q, n) ∷ disk) = if q == p then some n else find p disk

unfoldable pub put : FilePath → Node → Disk → Disk
put p n [] = (p, n) ∷ []
put p n ((q, m) ∷ disk) = if q == p then (p, n) ∷ disk else (q, m) ∷ put p n disk

abbrev pub not_exist : Error
not_exist = Error.failure "file does not exist"

-- os.IsNotExist
abbrev pub is_not_exist : Error → Bool
is_not_exist (Error.failure m) = m == "file does not exist"
is_not_exist _ = false

abbrev stat_of : Option Node → Result Node
stat_of none = Result.err not_exist
stat_of (some n) = Result.ok n

abbrev content_of : Option Node → Result Str
content_of none = Result.err not_exist
content_of (some (Node.file s)) = Result.ok s
content_of (some Node.folder) = Result.err (Error.failure "is a directory")

-- The folder that holds a path, if it is not the root.
abbrev pub parent : FilePath → FilePath
parent [] = []
parent (a ∷ []) = []
parent (a ∷ b ∷ p) = a ∷ parent (b ∷ p)

abbrev pub is_folder : Option Node → Bool
is_folder (some Node.folder) = true
is_folder _ = false

abbrev pub has_folder : FilePath → Disk → Bool
has_folder [] disk = true
has_folder (a ∷ p) disk = is_folder (find (a ∷ p) disk)

-- os.WriteFile
unfoldable pub written : FilePath → Str → Disk → Result (Unit {0}) × Disk
unfolding find put
written p s disk =
    if is_folder (find p disk)
    then (Result.err (Error.failure "is a directory"), disk)
    else if has_folder (parent p) disk
    then (Result.ok tt, put p (Node.file s) disk)
    else (Result.err not_exist, disk)

abbrev pub make_next :
    Option Node → FilePath → (Disk → Result (Unit {0}) × Disk) → Disk → Result (Unit {0}) × Disk
make_next none p rest disk = rest (put p Node.folder disk)
make_next (some Node.folder) p rest disk = rest disk
make_next (some (Node.file s)) p rest disk = (Result.err (Error.failure "not a directory"), disk)

-- os.Remove of a file
unfoldable pub removed : FilePath → Disk → Disk
removed p [] = []
removed p ((q, n) ∷ disk) = let rest = removed p disk in if q == p then rest else (q, n) ∷ rest

-- os.MkdirAll, for the elements that follow `made`.
unfoldable pub made_all : FilePath → FilePath → Disk → Result (Unit {0}) × Disk
unfolding find put
made_all made [] disk = (Result.ok tt, disk)
made_all made (a ∷ p) disk =
    make_next (find (join made a) disk) (join made a) (made_all (join made a) p) disk

-- The name of an entry of the folder.
abbrev pub entry_name : FilePath → FilePath → Option Str
entry_name [] (name ∷ []) = some name
entry_name [] _ = none
entry_name (a ∷ dir) (b ∷ p) = if str_beq a b then entry_name dir p else none
entry_name (a ∷ dir) [] = none

abbrev pub add_entry : Option Str → Node → List (Str × Node) → List (Str × Node)
add_entry none n entries = entries
add_entry (some name) n entries = (name, n) ∷ entries

unfoldable pub entries_of : FilePath → Disk → List (Str × Node)
entries_of dir [] = []
entries_of dir ((p, n) ∷ disk) = add_entry (entry_name dir p) n (entries_of dir disk)

-- `a <= b` on Go strings
abbrev pub str_leb : Str → Str → Bool
str_leb [] t = true
str_leb (a ∷ s) [] = false
str_leb (a ∷ s) (b ∷ t) = ltb a b || (a == b && str_leb s t)

-- By their names.
abbrev pub entry_leb : Str × Node → Str × Node → Bool
entry_leb e f = str_leb e.0 f.0

abbrev pub sort_entries : List (Str × Node) → List (Str × Node)
sort_entries = sort_by entry_leb

-- os.ReadDir, which gives the entries sorted by name.
unfoldable pub listed : FilePath → Disk → Result (List (Str × Node))
unfolding find entries_of sort_by
listed dir disk =
    if has_folder dir disk
    then Result.ok (sort_entries (entries_of dir disk))
    else Result.err not_exist

abbrev pub or_rest : Str → Str → Str
or_rest [] s = s
or_rest (c ∷ rest) s = c ∷ rest

-- filepath.Ext of a name with no slash: from its last dot on.
unfoldable pub ext : Str → Str
ext [] = []
ext (c ∷ s) = or_rest (ext s) (if c == b'.' then c ∷ s else [])

-- *pgx.ConnConfig: the database, and all else that a connection needs.
pub record Config : Type 0 where
  pub address : Str
  pub database : Str

-- One operation of the engine's preview.
pub record Operation : Type 0 where
  pub op : Str
  pub target : Str
  pub detail : Str

pub record Preview : Type 0 where
  pub sql : Str
  pub destructive : Bool
  pub has_changes : Bool
  pub operations : List Operation

-- What a request to the engine's migration API has for its JSON body.
pub data Body : Type 0 where
  desired_schema : Str → Body
  apply_sql : Str → Body

-- The body of a response: the JSON of a preview, or another text.
pub data Payload : Type 0 where
  preview : Preview → Payload
  other : Str → Payload

-- garance.json
pub record Project : Type 0 where
  pub name : Str
  pub version : Str
  pub engine : Str

-- What the tool calls, but does not implement. `Server` is the state of PostgreSQL and of the
-- services in front of it.
pub record Outside : Type 1 where
  pub Server : Type 0
  -- pgx.ParseConfig
  pub parse_config : Str → Result Config
  -- the statements of a text, sent to a database
  pub execute : Config → Str → Server → Option Error × Server
  -- http.Post: the status and the body
  pub post : Str → Body → Server → Result (ℕ × Payload) × Server
  -- http.Client.Get: the status
  pub get : Str → Server → Result ℕ
  -- `npx tsx script` in a folder, for its standard output
  pub tsx : FilePath → FilePath → Disk → Result Str
  -- `docker args` in a folder
  pub docker : FilePath → List Str → Server → Option Error × Server
  -- json.Unmarshal into a json.RawMessage
  pub raw_message : Str → Option Str
  -- json.MarshalIndent and json.Unmarshal of garance.json
  pub write_project : Project → Str
  pub read_project : Str → Option Project
  -- time.Time.Format("20060102150405") in the local time zone
  pub timestamp : ℕ → Str
  -- the order in which `range` visits a map
  pub visit : List (Str × ℕ) → List (Str × ℕ)

pub record Machine (S : Type 0) : Type 0 where
  pub dir : FilePath
  pub disk : Disk
  pub env : Str → Str
  pub typed : Str
  pub server : S
  -- the command lines that were started, the last one first
  pub started : List (List Str)

abbrev pub result_of : Option Error → Result (Unit {0})
result_of none = Result.ok tt
result_of (some e) = Result.err e

module _ {S A : Type 0} where
  -- A system call on the disk.
  abbrev pub on_disk : (Disk → Result A × Disk) → Action (Machine S) A
  on_disk f = call (statement λ t m. let (r, d) = f m.disk in (r, record m { disk = d }))

  abbrev pub read_disk : (Disk → Result A) → Action (Machine S) A
  read_disk f = call (statement λ t m. (f m.disk, m))

  abbrev pub on_server : (S → Result A × S) → Action (Machine S) A
  on_server f = call (statement λ t m. let (r, s) = f m.server in (r, record m { server = s }))

  -- What the process knows without a call that can fail.
  abbrev pub ask : (Machine S → A) → Action (Machine S) A
  ask f = statement λ t m. (Result.ok (f m), m)

module _ {S : Type 0} where
  abbrev pub write_file : FilePath → Str → Action (Machine S) (Unit {0})
  write_file p s = on_disk (written p s)

  abbrev pub mkdir_all : FilePath → Action (Machine S) (Unit {0})
  mkdir_all p = on_disk (made_all [] p)

  abbrev pub stat : FilePath → Action (Machine S) Node
  stat p = read_disk λ disk. stat_of (find p disk)

  abbrev pub read_file : FilePath → Action (Machine S) Str
  read_file p = read_disk λ disk. content_of (find p disk)

  abbrev pub read_dir : FilePath → Action (Machine S) (List (Str × Node))
  read_dir p = read_disk λ disk. listed p disk

  -- os.Getenv
  abbrev pub getenv : Str → Action (Machine S) Str
  getenv name = ask λ m. m.env name

  abbrev pub remove_file : FilePath → Action (Machine S) (Unit {0})
  remove_file p = on_disk λ disk. (Result.ok tt, removed p disk)

  -- `exec.Command(...).Run()`: the command line is recorded.
  abbrev pub run_command :
      (List Str → S → Option Error × S) → List Str → Action (Machine S) (Unit {0})
  run_command command args = call (
      statement λ t m.
        let (refusal, s) = command args m.server in
        (result_of refusal, record m { server = s; started = args ∷ m.started }))

module _ {S A : Type 0} where
  -- `defer`: the cleanup runs however the rest ends, and its error is dropped.
  unfoldable pub deferred :
      Action (Machine S) (Unit {0}) → Action (Machine S) A → Action (Machine S) A
  deferred cleanup m w = let (r, w') = m w in (r, (cleanup w').1)
