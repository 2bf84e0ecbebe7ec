-- ===== src/Gateway/Callers/Tests.antt =====
-- Examples of requests to a concrete Engine.
use garance.Prelude.{
  Str, bytes, [], ◌∷◌, ◌++◌, true, false, none, some, ◌≡◌, refl, if◌then◌else◌, arith,
}
use garance.Exec.{World, ok}
use garance.Http.{Response}
use garance.Http.Status.{Reply}
use garance.Auth.Tables.{Db, empty_db}
use garance.Auth.Token.{generate_access_token}
use garance.Auth.Toy.{toy, toy_tokens, toy-TokenLaws, calm, value_or}
use garance.Encoding.Decimal.{format}
use garance.Encoding.Integer.{ℤ}
use garance.Gateway.Errors.{Transit, forward}
use garance.Gateway.Jwt.{extract_jwt}
use garance.Gateway.EngineProxy.{
  Engine, Query, RowResponse, get, list_request, filters_of, number_of, row_or_404, deleted_or_404,
  list_rows, get_row, insert_row, update_row, delete_row,
}
use garance.Gateway.Callers.{
  lookup, first_value, is_among, controls, or_empty, list_request-query, row_of, issued_to,
  rows-generate_access_token,
}

-- An Engine that keeps the last query, and answers with what it is asked for.
abbrev echo_row : Str → RowResponse
echo_row body = record { found = true; row_json = body }

abbrev echo : Engine Str
echo = record {
  list_rows = λ r w. (Reply.reply r.caller.user_id, w);
  get_row = λ r w. (Reply.reply (echo_row r.id), w);
  insert_row = λ r w. (Reply.reply (echo_row r.body_json), w);
  update_row = λ r w. (Reply.reply (echo_row r.body_json), w);
  delete_row = λ r w. (Reply.reply false, w);
  list_tables = λ w. (Reply.reply [], w);
  get_schema = λ table w. (Reply.reply table, w);
  reload_schema = λ w. (Reply.reply tt, w);
  execute_sql = λ sql readwrite w. (
    Reply.reply
        (record { columns = []; rows_json = []; row_count = ℤ.pos 0; duration_ms = ℤ.pos 0 }),
    record w { db = sql },
  );
  post = λ url body w. (ok (200, body), record w { db = body });
  is_url = λ url. true;
  decode_sql = λ body. some body;
}

abbrev query : Query
query =
    (bytes "select", bytes "id" ∷ [])
    ∷ (bytes "state", bytes "open" ∷ bytes "done" ∷ [])
    ∷ (bytes "limit", bytes "5" ∷ [])
    ∷ (bytes "offset", bytes "10" ∷ [])
    ∷ []

list_request-query_example :
    (lookup (bytes "state") (list_request (bytes "todos") query none).filters
      ≡ (if is_among controls (bytes "state") then none else first_value (bytes "state") query))
    × ((list_request (bytes "todos") query none).select
        ≡ or_empty (first_value (bytes "select") query))
    × ((list_request (bytes "todos") query none).order
        ≡ or_empty (first_value (bytes "order") query))
    × ((list_request (bytes "todos") query none).limit ≡ ℤ.pos 5)
    × ((list_request (bytes "todos") query none).offset ≡ ℤ.pos 10)
unfolding format
list_request-query_example =
    list_request-query (bytes "todos") (bytes "state") query none 5 10 (omega arith) (omega arith)
      refl refl

abbrev start : World Db
start = calm empty_db

abbrev token : Str
token = value_or [] (generate_access_token toy toy_tokens {D = Db} 16 [] (bytes "user") start).0

issues : (generate_access_token toy toy_tokens {D = Db} 16 [] (bytes "user") start).0 ≡ ok token
unfolding generate_access_token
issues = refl

abbrev idle : World Str
idle = record { db = []; faults = []; now = 1600; entropy = λ i. i; drawn = 0 }

abbrev header : Str
header = bytes "Bearer " ++ token

abbrev todos : Str
todos = bytes "todos"

rows-generate_access_token_example :
    (extract_jwt toy toy_tokens.secret header (list_rows echo Transit.through todos query) idle
      ≡ forward Transit.through
          (echo.list_rows (record {
            table = todos;
            filters = filters_of query;
            select = get (bytes "select") query;
            order = get (bytes "order") query;
            limit = number_of (get (bytes "limit") query);
            offset = number_of (get (bytes "offset") query);
            caller = issued_to toy 16 [] (bytes "user");
          }))
          (Response.json 200)
          idle)
    × (extract_jwt toy toy_tokens.secret header
          (get_row echo Transit.through todos (bytes "7"))
          idle
        ≡ forward Transit.through
            (echo.get_row (row_of todos (bytes "7") [] (issued_to toy 16 [] (bytes "user"))))
            (row_or_404 200)
            idle)
    × (extract_jwt toy toy_tokens.secret header
          (insert_row echo Transit.through todos (some (bytes "{}")))
          idle
        ≡ forward Transit.through
            (echo.insert_row (row_of todos [] (bytes "{}") (issued_to toy 16 [] (bytes "user"))))
            (λ r. Response.json 201 r.row_json)
            idle)
    × (extract_jwt toy toy_tokens.secret header
          (update_row echo Transit.through todos (bytes "7") (some (bytes "{}")))
          idle
        ≡ forward Transit.through
            (echo.update_row
              (row_of todos (bytes "7") (bytes "{}") (issued_to toy 16 [] (bytes "user"))))
            (row_or_404 200)
            idle)
    × (extract_jwt toy toy_tokens.secret header
          (delete_row echo Transit.through todos (bytes "7"))
          idle
        ≡ forward Transit.through
            (echo.delete_row (row_of todos (bytes "7") [] (issued_to toy 16 [] (bytes "user"))))
            deleted_or_404
            idle)
rows-generate_access_token_example =
    rows-generate_access_token toy toy_tokens toy-TokenLaws echo Transit.through 16 []
      (bytes "user") token todos (bytes "7") (bytes "{}") query start idle issues (omega arith)
