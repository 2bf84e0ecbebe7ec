-- ===== src/Storage/Grpc.antt =====
-- services/storage/internal/grpcserver/server.go
use garance.Prelude.{
  ℕ, zero, suc, Str, bytes, [], Bool, ◌||◌, Option, none, some, List, map, ◌==◌, str_eq, length,
  if◌then◌else◌,
}
use garance.Errors.{Error, Sentinel, errors_is, message}
use garance.Http.Status.{Code, Status, status, Method, answer}
use garance.Auth.Packages.{Packages}
use garance.Storage.Tables.{ℤ, Bucket, File, Storage}
use garance.Storage.Store.Buckets
use garance.Storage.Objects.{ObjectStore}
use garance.Storage.Service

pub record BucketResponse : Type 0 where
  pub id : Str
  pub name : Str
  pub is_public : Bool
  pub max_file_size : ℤ
  pub allowed_mime_types : List Str
  pub created_at : Str

pub record FileResponse : Type 0 where
  pub id : Str
  pub bucket : Str
  pub name : Str
  pub size : ℕ
  pub mime_type : Str
  pub owner_id : Str
  pub created_at : Str

pub record DownloadResponse : Type 0 where
  pub content : Str
  pub mime_type : Str
  pub size : ℕ

-- The switch of mapStorageError.
unfoldable pub map_storage_error : Error → Status
map_storage_error e =
    if errors_is e Sentinel.bucket_not_found || errors_is e Sentinel.file_not_found
    then status Code.not_found (message e)
    else if errors_is e Sentinel.bucket_already_exists || errors_is e Sentinel.file_already_exists
    then status Code.already_exists (message e)
    else if errors_is e Sentinel.file_too_large
    then status Code.invalid_argument (message e)
    else if errors_is e Sentinel.mime_type_not_allowed
    then status Code.invalid_argument (message e)
    else status Code.internal (bytes "internal error")

abbrev pub map_create_bucket_error : Error → Status
map_create_bucket_error e =
    if errors_is e Sentinel.bucket_already_exists
    then status Code.already_exists (message e)
    else status Code.internal (bytes "failed to create bucket")

abbrev pub map_delete_bucket_error : Error → Status
map_delete_bucket_error e =
    if errors_is e Sentinel.bucket_not_found
    then status Code.not_found (message e)
    else status Code.internal (bytes "failed to delete bucket")

-- `if req.MaxFileSize > 0 { maxSize = &req.MaxFileSize }`
abbrev pub positive : ℤ → Option ℤ
positive (ℤ.pos zero) = none
positive (ℤ.pos (suc n)) = some (ℤ.pos (suc n))
positive (ℤ.negsuc n) = none

-- The zero value of int64 where there is no limit.
abbrev pub or_zero : Option ℤ → ℤ
or_zero none = ℤ.pos 0
or_zero (some n) = n

-- `if expiry <= 0 { expiry = time.Hour }`, in seconds, for a number of seconds whose nanoseconds an
-- int64 holds
abbrev pub expiry_of : ℤ → ℕ
expiry_of (ℤ.pos zero) = 3600
expiry_of (ℤ.pos (suc n)) = suc n
expiry_of (ℤ.negsuc n) = 3600

-- `if limit <= 0 { limit = 100 }`
abbrev pub limit_of : ℤ → ℤ
limit_of (ℤ.pos zero) = ℤ.pos 100
limit_of (ℤ.pos (suc n)) = ℤ.pos (suc n)
limit_of (ℤ.negsuc n) = ℤ.pos 100

module _ {O : Type 0} (pkg : Packages) (print_time : ℕ → Str) (s : ObjectStore O) where
  open pkg use {uuid_string, uuid_parse}

  abbrev pub to_bucket_response : Bucket → BucketResponse
  to_bucket_response b = record {
    id = uuid_string b.id;
    name = b.name;
    is_public = b.is_public;
    max_file_size = or_zero b.max_file_size;
    allowed_mime_types = b.allowed_mime_types;
    created_at = print_time b.created_at;
  }

  abbrev owner_text : Option ℕ → Str
  owner_text none = []
  owner_text (some id) = uuid_string id

  abbrev pub to_file_response : Str → File → FileResponse
  to_file_response bucket f = record {
    id = uuid_string f.id;
    bucket = bucket;
    name = f.name;
    size = f.size;
    mime_type = f.mime_type;
    owner_id = owner_text f.owner_id;
    created_at = print_time f.created_at;
  }

  unfoldable pub create_bucket : Str → Bool → ℤ → List Str → Method (Storage O) BucketResponse
  create_bucket name is_public max types =
      answer (Buckets.create_bucket name is_public (positive max) types) map_create_bucket_error
        to_bucket_response

  unfoldable pub delete_bucket : Str → Method (Storage O) (Unit {0})
  delete_bucket name = answer (Buckets.delete_bucket name) map_delete_bucket_error (λ u. u)

  abbrev pub owner_of : Str → Option ℕ
  owner_of text = if text == [] then none else uuid_parse text

  unfoldable pub upload : Str → Str → Str → Str → Str → Method (Storage O) FileResponse
  upload bucket name content mime owner =
      answer (Service.upload s bucket name content (length content) mime (owner_of owner))
        map_storage_error (to_file_response bucket)

  abbrev pub to_download_response : Str × File → DownloadResponse
  to_download_response (content, f) = record {
    content = content;
    mime_type = f.mime_type;
    size = f.size;
  }

  unfoldable pub download : Str → Str → Method (Storage O) DownloadResponse
  download bucket name =
      answer (Service.download s bucket name) map_storage_error to_download_response

  unfoldable pub delete_file : Str → Str → Method (Storage O) (Unit {0})
  delete_file bucket name = answer (Service.remove s bucket name) map_storage_error (λ u. u)

  unfoldable pub create_signed_url : Str → Str → ℤ → Method (Storage O) Str
  create_signed_url bucket name expires =
      answer (Service.signed_url s bucket name (expiry_of expires)) map_storage_error (λ url. url)

module _ {O : Type 0} (pkg : Packages) (print_time : ℕ → Str) (s : ObjectStore O)
    (collate : Str → Str → Bool) where
  unfoldable pub list_buckets : Method (Storage O) (List BucketResponse)
  unfolding answer Buckets.list_buckets
  list_buckets =
      answer (Buckets.list_buckets collate)
        (λ e. status Code.internal (bytes "failed to list buckets"))
        (map (to_bucket_response pkg print_time s))

  unfoldable pub list_files : Str → Str → ℤ → ℤ → Method (Storage O) (List FileResponse)
  unfolding answer Service.list_files
  list_files bucket prefix limit offset =
      answer (Service.list_files collate bucket prefix (limit_of limit) offset) map_storage_error
        (map (to_file_response pkg print_time s bucket))
