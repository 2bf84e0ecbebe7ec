-- ===== src/Gateway/EngineProxy.antt =====
-- services/gateway/internal/proxy/engine.go. The Engine is a parameter; a handler takes the claims of
-- its context, and what io.ReadAll makes of the body, none where it fails.
use garance.Prelude.{
  ℕ, Str, bytes, [], ◌∷◌, ◌++◌, Bool, not, ◌||◌, Option, none, some, List, ◌==◌, str_eq,
  if◌then◌else◌,
}
use garance.Errors.{message}
use garance.Exec.{Result, World}
use garance.Encoding.Integer.{ℤ, sscanf_int}
use garance.Http.{Response, Handler, problem_of, write_error}
use garance.Http.Status.{Method}
use garance.Auth.Packages.{Claims}
use garance.Gateway.Errors.{Transit, forward}

-- The three fields of a request that say who asks.
pub record Caller : Type 0 where
  pub user_id : Str
  pub project_id : Str
  pub role : Str

pub record ListRowsRequest : Type 0 where
  pub table : Str
  -- a map, as its pairs
  pub filters : List (Str × Str)
  pub select : Str
  pub order : Str
  pub limit : ℤ
  pub offset : ℤ
  pub caller : Caller

pub record RowRequest : Type 0 where
  pub table : Str
  pub id : Str
  pub body_json : Str
  pub caller : Caller

-- GetRowResponse and its like
pub record RowResponse : Type 0 where
  pub found : Bool
  pub row_json : Str

pub record SqlResponse : Type 0 where
  pub columns : List Str
  pub rows_json : Str
  pub row_count : ℤ
  pub duration_ms : ℤ

-- The gRPC service of the Engine, whose state is E, and its HTTP server.
pub record Engine (E : Type 0) : Type 0 where
  pub list_rows : ListRowsRequest → Method E Str
  pub get_row : RowRequest → Method E RowResponse
  pub insert_row : RowRequest → Method E RowResponse
  pub update_row : RowRequest → Method E RowResponse
  pub delete_row : RowRequest → Method E Bool
  pub list_tables : Method E (List Str)
  -- all tables where the name is empty
  pub get_schema : Str → Method E Str
  pub reload_schema : Method E (Unit {0})
  pub execute_sql : Str → Bool → Method E SqlResponse
  -- http.DefaultClient.Do of a POST: the status and the body
  pub post : Str → Str → World E → Result (ℕ × Str) × World E
  -- whether http.NewRequestWithContext accepts the URL
  pub is_url : Str → Bool
  -- json.Unmarshal of the body of a query
  pub decode_sql : Str → Option Str

-- injectAuth, and the three tests of ListRows
abbrev pub caller_of : Option Claims → Caller
caller_of none = record { user_id = []; project_id = []; role = [] }
caller_of (some c) = record { user_id = c.user_id; project_id = c.project_id; role = c.role }

abbrev pub Query : Type 0
Query = List (Str × List Str)

abbrev pub first : List Str → Str
first [] = []
first (v ∷ vals) = v

-- url.Values.Get
unfoldable pub get : Str → Query → Str
get key [] = []
get key ((k, vals) ∷ query) = if k == key then first vals else get key query

abbrev pub is_reserved : Str → Bool
is_reserved key =
    key == bytes "select"
    || (key == bytes "order" || (key == bytes "limit" || key == bytes "offset"))

-- The loop over the query.
unfoldable pub filters_of : Query → List (Str × Str)
filters_of [] = []
filters_of ((key, vals) ∷ query) =
    let rest = filters_of query in if is_reserved key then rest else (key, first vals) ∷ rest

-- `if l := query.Get(key); l != "" { fmt.Sscanf(l, "%d", &n) }`
abbrev pub number_of : Str → ℤ
number_of text = if text == [] then ℤ.pos 0 else sscanf_int text

abbrev pub list_request : Str → Query → Option Claims → ListRowsRequest
list_request table query context = record {
  table = table;
  filters = filters_of query;
  select = get (bytes "select") query;
  order = get (bytes "order") query;
  limit = number_of (get (bytes "limit") query);
  offset = number_of (get (bytes "offset") query);
  caller = caller_of context;
}

abbrev pub row_or_404 : ℕ → RowResponse → Response Str
row_or_404 status r =
    if not r.found
    then Response.problem (problem_of (bytes "NOT_FOUND") (bytes "row not found") 404)
    else Response.json status r.row_json

abbrev pub deleted_or_404 : Bool → Response (Unit {0})
deleted_or_404 found =
    if not found
    then Response.problem (problem_of (bytes "NOT_FOUND") (bytes "row not found") 404)
    else Response.empty 204

abbrev with_body : {B E : Type 0} → Option Str → (Str → Handler E B) → Handler E B
with_body none next = write_error (bytes "VALIDATION_ERROR") (bytes "failed to read body") 400
with_body (some body) next = next body

module _ {E : Type 0} (engine : Engine E) (call : Transit) where
  open engine use {decode_sql}

  unfoldable pub list_rows : Str → Query → Option Claims → Handler E Str
  unfolding forward filters_of get sscanf_int
  list_rows table query context =
      forward call (engine.list_rows (list_request table query context)) (Response.json 200)

  unfoldable pub get_row : Str → Str → Option Claims → Handler E Str
  unfolding forward
  get_row table id context =
      forward call
        (engine.get_row
          (record { table = table; id = id; body_json = []; caller = caller_of context }))
        (row_or_404 200)

  unfoldable pub insert_row : Str → Option Str → Option Claims → Handler E Str
  unfolding forward
  insert_row table body context = with_body body λ json.
      forward call
        (engine.insert_row
          (record { table = table; id = []; body_json = json; caller = caller_of context }))
        (λ r. Response.json 201 r.row_json)

  unfoldable pub update_row : Str → Str → Option Str → Option Claims → Handler E Str
  unfolding forward
  update_row table id body context = with_body body λ json.
      forward call
        (engine.update_row
          (record { table = table; id = id; body_json = json; caller = caller_of context }))
        (row_or_404 200)

  unfoldable pub delete_row : Str → Str → Option Claims → Handler E (Unit {0})
  unfolding forward
  delete_row table id context =
      forward call
        (engine.delete_row
          (record { table = table; id = id; body_json = []; caller = caller_of context }))
        deleted_or_404

  unfoldable pub list_tables : Handler E (List Str)
  unfolding forward
  list_tables = forward call engine.list_tables (Response.json 200)

  unfoldable pub get_schema : Handler E Str
  unfolding forward
  get_schema = forward call (engine.get_schema []) (Response.json 200)

  unfoldable pub get_schema_table : Str → Handler E Str
  unfolding forward
  get_schema_table table = forward call (engine.get_schema table) (Response.json 200)

  unfoldable pub reload_schema : Handler E (Unit {0})
  unfolding forward
  reload_schema = forward call engine.reload_schema (Response.json 200)

  abbrev run_sql : Option Str → Str → Handler E SqlResponse
  run_sql none mode = write_error (bytes "VALIDATION_ERROR") (bytes "invalid request body") 400
  run_sql (some sql) mode =
      forward call (engine.execute_sql sql (mode == bytes "readwrite")) (Response.json 200)

  -- ExecuteSQL, with the header X-Garance-SQL-Mode
  unfoldable pub execute_sql : Option Str → Str → Handler E SqlResponse
  unfolding forward
  execute_sql body mode = with_body body λ text. run_sql (decode_sql text) mode

module _ {E : Type 0} (engine : Engine E) where
  open engine use {is_url}

  abbrev answered : Result (ℕ × Str) × World E → Response Str × World E
  answered (Result.ok (status, body), w) = (Response.json status body, w)
  answered (Result.err e, w) = (
    Response.problem
        (problem_of (bytes "PROXY_ERROR") (bytes "failed to reach Engine: " ++ message e) 502),
    w,
  )
  answered (Result.panic, w) = (Response.closed, w)

  abbrev send : Str → Str → Handler E Str
  send url body =
      if not (is_url url)
      then write_error (bytes "PROXY_ERROR") (bytes "failed to create request") 500
      else λ w. answered (engine.post url body w)

  -- proxyToEngineHTTP, with the variable ENGINE_HTTP_URL
  unfoldable pub proxy_to_engine_http : Str → Option Str → Str → Handler E Str
  proxy_to_engine_http env none path =
      write_error (bytes "PROXY_ERROR") (bytes "failed to read request body") 500
  proxy_to_engine_http env (some body) path =
      send ((if env == [] then bytes "http://engine:4000" else env) ++ path) body

  unfoldable pub migrate_preview : Str → Option Str → Handler E Str
  unfolding proxy_to_engine_http
  migrate_preview env body = proxy_to_engine_http env body (bytes "/api/v1/_migrate/preview")

  unfoldable pub migrate_apply : Str → Option Str → Handler E Str
  unfolding proxy_to_engine_http
  migrate_apply env body = proxy_to_engine_http env body (bytes "/api/v1/_migrate/apply")
