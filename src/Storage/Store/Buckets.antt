-- ===== src/Storage/Store/Buckets.antt =====
-- services/storage/internal/store/bucket.go
use garance.Prelude.{
  sort_by, ℕ, Str, Bool, ◌||◌, ◌&&◌, Option, List, ◌∷◌, ◌==◌, nat_eq, str_eq, if◌then◌else◌,
}
use garance.Errors.{Sentinel, is_pg_code, unique_violation}
use garance.Sql.{select, exists, delete}
use garance.Exec.{
  Result, ok, err, Action, pure, raise, fail, statement, call, ◌>>=◌, catch, replace_error, draw,
  read_rows,
}
use garance.Auth.Store.Users.{row_or_no_rows}
use garance.Storage.Tables.{ℤ, Bucket, File, Storage}

abbrev pub has_bucket_id : ℕ → Bucket → Bool
has_bucket_id id b = b.id == id

abbrev pub has_bucket_name : Str → Bucket → Bool
has_bucket_name name b = b.name == name

abbrev pub new_bucket : ℕ → Str → Bool → Option ℤ → List Str → ℕ → Bucket
new_bucket id name is_public max types t = record {
  id = id;
  name = name;
  is_public = is_public;
  max_file_size = max;
  allowed_mime_types = types;
  created_at = t;
  updated_at = t;
}

abbrev pub is_file_of : (Bucket → Bool) → List Bucket → File → Bool
is_file_of p buckets f = exists (λ b. p b && has_bucket_id f.bucket_id b) buckets

module _ {O : Type 0} where
  unfoldable pub insert_bucket :
      ℕ → Str → Bool → Option ℤ → List Str → ℕ → Storage O → Result Bucket × Storage O
  insert_bucket id name is_public max types t d =
      if exists (has_bucket_id id) d.buckets || exists (has_bucket_name name) d.buckets
      then (err unique_violation, d)
      else (
        ok (new_bucket id name is_public max types t),
        record d { buckets = new_bucket id name is_public max types t ∷ d.buckets },
      )

  unfoldable pub create_bucket : Str → Bool → Option ℤ → List Str → Action (Storage O) Bucket
  unfolding insert_bucket
  create_bucket name is_public max types =
      catch (call (draw >>= λ id. statement (insert_bucket id name is_public max types)))
        λ e. if is_pg_code e "23505" then fail Sentinel.bucket_already_exists else raise e

  abbrev pub select_bucket : Str → ℕ → Storage O → Result Bucket × Storage O
  select_bucket name t d = (row_or_no_rows (select (has_bucket_name name) d.buckets), d)

  unfoldable pub get_bucket_by_name : Str → Action (Storage O) Bucket
  get_bucket_by_name name =
      catch (call (statement (select_bucket name)))
        (replace_error Sentinel.no_rows Sentinel.bucket_not_found)

  -- ON DELETE CASCADE takes the bucket's files along; whether there was a bucket.
  abbrev pub remove_bucket : Str → ℕ → Storage O → Result Bool × Storage O
  remove_bucket name t d = (
    ok (exists (has_bucket_name name) d.buckets),
    record d {
      buckets = delete (has_bucket_name name) d.buckets;
      files = delete (is_file_of (has_bucket_name name) d.buckets) d.files;
    },
  )

  unfoldable pub delete_bucket : Str → Action (Storage O) (Unit {0})
  delete_bucket name = call (statement (remove_bucket name)) >>= λ affected.
      if affected then pure tt else fail Sentinel.bucket_not_found

abbrev pub by_bucket_name : (Str → Str → Bool) → Bucket → Bucket → Bool
by_bucket_name collate a b = collate a.name b.name

module _ {O : Type 0} where
  -- ORDER BY name, in the order of the database's collation
  unfoldable pub list_buckets : (Str → Str → Bool) → Action (Storage O) (List Bucket)
  unfolding sort_by call ◌>>=◌ read_rows
  list_buckets collate =
      call (statement λ t d. (ok (sort_by (by_bucket_name collate) d.buckets), d)) >>= read_rows
