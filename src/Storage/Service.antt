-- ===== src/Storage/Service.antt =====
-- services/storage/internal/service/storage.go
use garance.Prelude.{
  ℕ, Str, bytes, Bool, true, false, ◌||◌, Option, none, some, List, [], ◌∷◌, ◌++◌, ◌==◌, str_eq,
  if◌then◌else◌,
}
use garance.Errors.{Sentinel}
use garance.Exec.{Action, pure, raise, fail, ◌>>=◌, ◌>>◌, catch, wrapped, ignore}
use garance.Storage.Tables.{ℤ, exceeds, Bucket, File, Storage}
use garance.Storage.Store.Buckets.{get_bucket_by_name}
use garance.Storage.Store.Files
use garance.Storage.Store.Files.{create_file, get_file, delete_file}
use garance.Storage.Objects.{
  ObjectStore, upload_object, download_object, delete_object, signed_object_url,
}

-- fmt.Sprintf("%s/%s", bucketName, fileName)
abbrev pub object_key : Str → Str → Str
object_key bucket file = bucket ++ (bytes "/" ++ file)

abbrev pub is_too_large : ℕ → Option ℤ → Bool
is_too_large size none = false
is_too_large size (some limit) = exceeds size limit

-- The loop over the types.
abbrev pub contains_type : List Str → Str → Bool
contains_type [] mime = false
contains_type (t ∷ types) mime = t == mime || contains_type types mime

abbrev pub is_allowed_type : List Str → Str → Bool
is_allowed_type [] mime = true
is_allowed_type (t ∷ types) mime = contains_type (t ∷ types) mime

module _ {O : Type 0} (s : ObjectStore O) where
  -- The object, and then the row; where the row fails, the object is deleted again.
  unfoldable pub store_file :
      Bucket → Str → Str → Str → ℕ → Str → Option ℕ → Action (Storage O) File
  store_file bucket key name content size mime owner =
      wrapped "failed to upload to S3" (upload_object s key content size mime)
      >> catch (create_file bucket.id name size mime owner)
          λ e. ignore (delete_object s key) >> raise e

  unfoldable pub upload : Str → Str → Str → ℕ → Str → Option ℕ → Action (Storage O) File
  upload bucket_name name content size mime owner = get_bucket_by_name bucket_name >>= λ bucket.
      if is_too_large size bucket.max_file_size
      then fail Sentinel.file_too_large
      else if is_allowed_type bucket.allowed_mime_types mime
      then store_file bucket (object_key bucket_name name) name content size mime owner
      else fail Sentinel.mime_type_not_allowed

  unfoldable pub download : Str → Str → Action (Storage O) (Str × File)
  download bucket_name name = get_bucket_by_name bucket_name >>= λ bucket.
      get_file bucket.id name >>= λ file.
      download_object s (object_key bucket_name name) >>= λ object. pure (object.0, file)

  unfoldable pub remove : Str → Str → Action (Storage O) (Unit {0})
  remove bucket_name name = get_bucket_by_name bucket_name >>= λ bucket.
      delete_object s (object_key bucket_name name) >> delete_file bucket.id name

  unfoldable pub signed_url : Str → Str → ℕ → Action (Storage O) Str
  signed_url bucket_name name expiry = get_bucket_by_name bucket_name >>= λ bucket.
      get_file bucket.id name >> signed_object_url s (object_key bucket_name name) expiry

abbrev pub public_url : Str → Str → Str → Str
public_url bucket file base = base ++ (bytes "/storage/v1/" ++ (bucket ++ (bytes "/" ++ file)))

module _ {O : Type 0} (collate : Str → Str → Bool) where
  unfoldable pub list_files : Str → Str → ℤ → ℤ → Action (Storage O) (List File)
  unfolding ◌>>=◌ get_bucket_by_name Files.list_files
  list_files bucket_name prefix limit offset = get_bucket_by_name bucket_name >>= λ bucket.
      Files.list_files collate bucket.id prefix limit offset
