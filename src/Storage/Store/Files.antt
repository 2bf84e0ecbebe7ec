-- ===== src/Storage/Store/Files.antt =====
-- services/storage/internal/store/file.go
use garance.Prelude.{
  sort_by, ℕ, Str, bytes, Bool, false, ◌||◌, ◌&&◌, Option, List, [], ◌∷◌, ◌++◌, ◌==◌, nat_eq,
  str_eq, if◌then◌else◌,
}
use garance.Errors.{Sentinel, is_pg_code, unique_violation, foreign_key_violation}
use garance.Sql.{select, exists, delete}
use garance.Sql.Order.{select_all, limit_offset, like}
use garance.Exec.{
  Result, ok, err, Action, pure, raise, fail, statement, call, ◌>>=◌, catch, replace_error, draw,
  read_rows,
}
use garance.Auth.Store.Users.{row_or_no_rows}
use garance.Storage.Tables.{ℤ, File, Storage}
use garance.Storage.Store.Buckets.{has_bucket_id}

abbrev pub has_file_id : ℕ → File → Bool
has_file_id id f = f.id == id

-- WHERE bucket_id = $1 AND name = $2
abbrev pub is_named : ℕ → Str → File → Bool
is_named bucket_id name f = f.bucket_id == bucket_id && f.name == name

abbrev pub new_file : ℕ → ℕ → Str → ℕ → Str → Option ℕ → ℕ → File
new_file id bucket_id name size mime owner t = record {
  id = id;
  bucket_id = bucket_id;
  name = name;
  size = size;
  mime_type = mime;
  owner_id = owner;
  metadata = bytes "{}";
  created_at = t;
  updated_at = t;
}

module _ {O : Type 0} where
  unfoldable pub insert_file :
      ℕ → ℕ → Str → ℕ → Str → Option ℕ → ℕ → Storage O → Result File × Storage O
  insert_file id bucket_id name size mime owner t d =
      if exists (has_file_id id) d.files || exists (is_named bucket_id name) d.files
      then (err unique_violation, d)
      else if exists (has_bucket_id bucket_id) d.buckets
      then (
        ok (new_file id bucket_id name size mime owner t),
        record d { files = new_file id bucket_id name size mime owner t ∷ d.files },
      )
      else (err foreign_key_violation, d)

  unfoldable pub create_file : ℕ → Str → ℕ → Str → Option ℕ → Action (Storage O) File
  unfolding insert_file
  create_file bucket_id name size mime owner =
      catch (call (draw >>= λ id. statement (insert_file id bucket_id name size mime owner)))
        λ e. if is_pg_code e "23505" then fail Sentinel.file_already_exists else raise e

  abbrev pub select_file : ℕ → Str → ℕ → Storage O → Result File × Storage O
  select_file bucket_id name t d = (row_or_no_rows (select (is_named bucket_id name) d.files), d)

  unfoldable pub get_file : ℕ → Str → Action (Storage O) File
  get_file bucket_id name =
      catch (call (statement (select_file bucket_id name)))
        (replace_error Sentinel.no_rows Sentinel.file_not_found)

  abbrev pub remove_file : ℕ → Str → ℕ → Storage O → Result Bool × Storage O
  remove_file bucket_id name t d = (
    ok (exists (is_named bucket_id name) d.files),
    record d { files = delete (is_named bucket_id name) d.files },
  )

  unfoldable pub delete_file : ℕ → Str → Action (Storage O) (Unit {0})
  delete_file bucket_id name = call (statement (remove_file bucket_id name)) >>= λ affected.
      if affected then pure tt else fail Sentinel.file_not_found

-- WHERE bucket_id = $1 AND ($2 = '' OR name LIKE $2 || '%')
abbrev pub is_listed : ℕ → Str → File → Bool
is_listed bucket_id prefix f =
    f.bucket_id == bucket_id && (prefix == [] || like false (prefix ++ b'%' ∷ []) f.name)

-- ORDER BY name, in the order of the database's collation
abbrev pub by_name : (Str → Str → Bool) → File → File → Bool
by_name collate f g = collate f.name g.name

module _ {O : Type 0} (collate : Str → Str → Bool) where
  unfoldable pub select_files : ℕ → Str → ℤ → ℤ → ℕ → Storage O → Result (List File) × Storage O
  unfolding select_all sort_by
  select_files bucket_id prefix limit offset t d = (
    limit_offset limit offset
        (sort_by (by_name collate) (select_all (is_listed bucket_id prefix) d.files)),
    d,
  )

  unfoldable pub list_files : ℕ → Str → ℤ → ℤ → Action (Storage O) (List File)
  unfolding select_files call ◌>>=◌ read_rows
  list_files bucket_id prefix limit offset =
      call (statement (select_files bucket_id prefix limit offset)) >>= read_rows
