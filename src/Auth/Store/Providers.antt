-- ===== src/Auth/Store/Providers.antt =====
-- services/auth/internal/store/provider.go
use garance.Prelude.{
  sort_by, ℕ, Str, Bool, true, false, ◌||◌, Option, none, some, List, [], ◌∷◌, ◌++◌, ◌+◌, suc, zero,
  ◌==◌, nat_eq, str_eq, if◌then◌else◌,
}
use garance.Errors.{Error, Sentinel, is_pg_code, unique_violation}
use garance.Sql.{select, exists, delete, update}
use garance.Exec.{
  Result, ok, err, Action, pure, raise, fail, statement, call, ◌>>=◌, catch, replace_error, draw,
  read_rows,
}
use garance.Auth.Tables.{Db, OAuthProvider}
use garance.Auth.Store.Users.{row_or_no_rows}

abbrev pub has_name : Str → OAuthProvider → Bool
has_name name p = p.provider == name

abbrev pub has_provider_id : ℕ → OAuthProvider → Bool
has_provider_id id p = p.id == id

abbrev pub new_provider_row : ℕ → Str → Str → Str → Str → ℕ → OAuthProvider
new_provider_row id name client_id secret scopes t = record {
  id = id;
  provider = name;
  client_id = client_id;
  client_secret_encrypted = secret;
  enabled = true;
  scopes = scopes;
  created_at = t;
  updated_at = t;
}

unfoldable pub insert_provider : ℕ → Str → Str → Str → Str → ℕ → Db → Result OAuthProvider × Db
insert_provider id name client_id secret scopes t d =
    if exists (has_provider_id id) d.providers || exists (has_name name) d.providers
    then (err unique_violation, d)
    else (
      ok (new_provider_row id name client_id secret scopes t),
      record d { providers = new_provider_row id name client_id secret scopes t ∷ d.providers },
    )

unfoldable pub create_provider : Str → Str → Str → Str → Action Db OAuthProvider
unfolding insert_provider
create_provider name client_id secret scopes =
    catch (call (draw >>= λ id. statement (insert_provider id name client_id secret scopes)))
      λ e. if is_pg_code e "23505" then fail Sentinel.provider_already_exists else raise e

abbrev pub select_provider : Str → ℕ → Db → Result OAuthProvider × Db
select_provider name t d = (row_or_no_rows (select (has_name name) d.providers), d)

unfoldable pub get_provider : Str → Action Db OAuthProvider
get_provider name =
    catch (call (statement (select_provider name)))
      (replace_error Sentinel.no_rows Sentinel.provider_not_found)

-- The UPDATE that UpdateProvider builds: the columns that it sets with the number n of each one's
-- placeholder $n, the arguments, and the placeholder of the condition.
pub data Column : Type 0 where
  client_id client_secret_encrypted enabled scopes : Column

pub data Arg : Type 0 where
  text : Str → Arg
  flag : Bool → Arg

pub record UpdateQuery : Type 0 where
  pub sets : List (Column × ℕ)
  pub args : List Arg
  pub arg_idx : ℕ

abbrev pub add_set : Column → Option Arg → UpdateQuery → UpdateQuery
add_set c none q = q
add_set c (some a) q = record {
  sets = q.sets ++ (c, q.arg_idx) ∷ [];
  args = q.args ++ a ∷ [];
  arg_idx = q.arg_idx + 1;
}

abbrev pub text_arg : Option Str → Option Arg
text_arg none = none
text_arg (some s) = some (Arg.text s)

abbrev pub flag_arg : Option Bool → Option Arg
flag_arg none = none
flag_arg (some b) = some (Arg.flag b)

abbrev pub start_query : UpdateQuery
start_query = record { sets = []; args = []; arg_idx = 1 }

-- The four `if x != nil` blocks in turn, and the WHERE clause with the last argument.
abbrev pub build_update : Str → Option Str → Option Str → Option Bool → Option Str → UpdateQuery
build_update name id secret on scope =
    let q1 = add_set Column.client_id (text_arg id) start_query in
    let q2 = add_set Column.client_secret_encrypted (text_arg secret) q1 in
    let q3 = add_set Column.enabled (flag_arg on) q2 in
    let q4 = add_set Column.scopes (text_arg scope) q3 in
    record q4 { args = q4.args ++ Arg.text name ∷ [] }

-- The value of the placeholder $n; placeholders count from 1.
abbrev pub placeholder : ℕ → List Arg → Option Arg
placeholder zero args = none
placeholder (suc n) [] = none
placeholder (suc zero) (a ∷ args) = some a
placeholder (suc (suc n)) (a ∷ args) = placeholder (suc n) args

-- Assign a column; none where there is no such argument or it has another type.
abbrev pub assign : Column → Option Arg → OAuthProvider → Option OAuthProvider
assign Column.client_id (some (Arg.text s)) p = some (record p { client_id = s })
assign Column.client_secret_encrypted (some (Arg.text s)) p =
    some (record p { client_secret_encrypted = s })
assign Column.enabled (some (Arg.flag b)) p = some (record p { enabled = b })
assign Column.scopes (some (Arg.text s)) p = some (record p { scopes = s })
assign _ _ p = none

abbrev pub and_then :
    Option OAuthProvider → (OAuthProvider → Option OAuthProvider) → Option OAuthProvider
and_then none f = none
and_then (some p) f = f p

abbrev pub assign_all : List (Column × ℕ) → List Arg → OAuthProvider → Option OAuthProvider
assign_all [] args p = some p
assign_all ((c, n) ∷ sets) args p =
    and_then (assign c (placeholder n args) p) (assign_all sets args)

abbrev pub or_same : OAuthProvider → Option OAuthProvider → OAuthProvider
or_same p none = p
or_same p (some q) = q

-- One row under the statement.
abbrev pub apply_update : UpdateQuery → ℕ → OAuthProvider → OAuthProvider
apply_update q t p = or_same p (assign_all q.sets q.args (record p { updated_at = t }))

abbrev pub is_target : Option Arg → OAuthProvider → Bool
is_target (some (Arg.text s)) p = has_name s p
is_target _ p = false

-- The error of PostgreSQL where an assignment has no argument of its type.
abbrev pub is_well_typed : UpdateQuery → Bool
is_well_typed q = go (assign_all q.sets q.args (new_provider_row 0 [] [] [] [] 0))
  where
    go : Option OAuthProvider → Bool
    go none = false
    go (some _) = true

-- RowsAffected() counts the rows that satisfy the condition.
abbrev pub run_update : UpdateQuery → ℕ → Db → Result Bool × Db
run_update q t d =
    let target = is_target (placeholder q.arg_idx q.args) in
    if is_well_typed q
    then (
      ok (exists target d.providers),
      record d { providers = update target (apply_update q t) d.providers },
    )
    else (err (Error.pg "42804"), d)

unfoldable pub update_provider :
    Str → Option Str → Option Str → Option Bool → Option Str → Action Db (Unit {0})
update_provider name id secret on scope =
    call (statement (run_update (build_update name id secret on scope))) >>= λ affected.
    if affected then pure tt else fail Sentinel.provider_not_found

abbrev pub remove_provider : Str → ℕ → Db → Result Bool × Db
remove_provider name t d = (
  ok (exists (has_name name) d.providers),
  record d { providers = delete (has_name name) d.providers },
)

unfoldable pub delete_provider : Str → Action Db (Unit {0})
delete_provider name = call (statement (remove_provider name)) >>= λ affected.
    if affected then pure tt else fail Sentinel.provider_not_found

-- ORDER BY provider, in the order of the database's collation
abbrev pub by_provider : (Str → Str → Bool) → OAuthProvider → OAuthProvider → Bool
by_provider collate p q = collate p.provider q.provider

unfoldable pub list_providers : (Str → Str → Bool) → Action Db (List OAuthProvider)
unfolding sort_by call ◌>>=◌ read_rows
list_providers collate =
    call (statement λ t d. (ok (sort_by (by_provider collate) d.providers), d)) >>= read_rows
