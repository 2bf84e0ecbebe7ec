-- ===== src/Storage/Handler.antt =====
-- services/storage/internal/handler/handler.go. A handler takes what the decoders of
-- JSON and of multipart forms make of the body, none where they fail.
pub mod Middleware
pub mod Routes
use garance.Prelude.{
  ℕ, Str, bytes, [], Bool, ◌||◌, Option, none, some, List, ◌==◌, str_eq, length, if◌then◌else◌,
}
use garance.Errors.{Error, Sentinel, errors_is, message}
use garance.Exec.{World}
use garance.Encoding.Decimal.{format}
use garance.Encoding.Integer.{atoi_or}
use garance.Http.{Response, Problem, problem_of, Handler, serve}
use garance.Auth.Packages.{Packages}
use garance.Storage.Tables.{ℤ, Bucket, File, Storage}
use garance.Storage.Store.Buckets
use garance.Storage.Objects.{ObjectStore}
use garance.Storage.Service
use garance.Storage.Grpc.{expiry_of}

pub record CreateBucketRequest : Type 0 where
  pub name : Str
  pub is_public : Bool
  pub max_file_size : Option ℤ
  pub allowed_mime_types : List Str

-- The field `file` of a multipart form, with its name and its type, and the field `name`.
pub record UploadForm : Type 0 where
  pub content : Str
  pub file_name : Str
  pub content_type : Str
  pub name : Str

-- What Download writes: the headers and the body.
pub record Content : Type 0 where
  pub content_type : Str
  pub content_length : Str
  pub body : Str

abbrev pub internal_error : Str → Problem
internal_error message = problem_of (bytes "INTERNAL_ERROR") message 500

abbrev pub create_bucket_error : Error → Problem
create_bucket_error e =
    if errors_is e Sentinel.bucket_already_exists
    then problem_of (bytes "CONFLICT") (message e) 409
    else internal_error (bytes "failed to create bucket")

abbrev pub delete_bucket_error : Error → Problem
delete_bucket_error e =
    if errors_is e Sentinel.bucket_not_found
    then problem_of (bytes "NOT_FOUND") (message e) 404
    else internal_error (bytes "failed to delete bucket")

abbrev pub upload_error : Error → Problem
upload_error e =
    if errors_is e Sentinel.bucket_not_found
    then problem_of (bytes "NOT_FOUND") (bytes "bucket not found") 404
    else if errors_is e Sentinel.file_too_large
    then problem_of (bytes "VALIDATION_ERROR") (message e) 413
    else if errors_is e Sentinel.mime_type_not_allowed
    then problem_of (bytes "VALIDATION_ERROR") (message e) 415
    else if errors_is e Sentinel.file_already_exists
    then problem_of (bytes "CONFLICT") (message e) 409
    else internal_error (bytes "upload failed")

abbrev pub file_error : Str → Error → Problem
file_error message e =
    if errors_is e Sentinel.bucket_not_found || errors_is e Sentinel.file_not_found
    then problem_of (bytes "NOT_FOUND") (bytes "file not found") 404
    else internal_error message

abbrev invalid {ℓ} : {O : Type ℓ} {B : Type 0} → Str → World O → Response B × World O
invalid message w = (Response.problem (problem_of (bytes "VALIDATION_ERROR") message 400), w)

abbrev pub or_else : Str → Str → Str
or_else s default = if s == [] then default else s

module _ {O : Type 0} (pkg : Packages) (s : ObjectStore O) where
  open pkg use {uuid_parse}

  unfoldable pub create_bucket : Option CreateBucketRequest → Handler (Storage O) Bucket
  create_bucket none = invalid (bytes "invalid request body")
  create_bucket (some q) =
      if q.name == []
      then invalid (bytes "bucket name is required")
      else serve (Buckets.create_bucket q.name q.is_public q.max_file_size q.allowed_mime_types)
          create_bucket_error (Response.json 201)

  unfoldable pub delete_bucket : Str → Handler (Storage O) (Unit {0})
  delete_bucket name =
      serve (Buckets.delete_bucket name) delete_bucket_error (λ u. Response.empty 204)

  -- The owner is the user of the context, if that is a uuid.
  abbrev pub owner_of : Option Str → Option ℕ
  owner_of none = none
  owner_of (some uid) = uuid_parse uid

  unfoldable pub upload : Str → Option UploadForm → Option Str → Handler (Storage O) File
  upload bucket none context = invalid (bytes "file is required (multipart form field 'file')")
  upload bucket (some f) context =
      serve
        (Service.upload s bucket (or_else f.name f.file_name) f.content (length f.content)
          (or_else f.content_type (bytes "application/octet-stream")) (owner_of context))
        upload_error (Response.json 201)

  abbrev pub to_content : Str × File → Content
  to_content (body, f) = record {
    content_type = f.mime_type;
    content_length = format f.size;
    body = body;
  }

  unfoldable pub download : Str → Str → Handler (Storage O) Content
  download bucket name =
      serve (Service.download s bucket name) (file_error (bytes "download failed"))
        (λ r. Response.json 200 (to_content r))

  unfoldable pub delete_file : Str → Str → Handler (Storage O) (Unit {0})
  delete_file bucket name =
      serve (Service.remove s bucket name) (file_error (bytes "delete failed"))
        (λ u. Response.empty 204)

  -- signedURLRequest: the name of the file and the number of seconds
  unfoldable pub create_signed_url : Str → Option (Str × ℤ) → Handler (Storage O) Str
  create_signed_url bucket none = invalid (bytes "invalid request body")
  create_signed_url bucket (some (name, expires)) =
      if name == []
      then invalid (bytes "file_name is required")
      else serve (Service.signed_url s bucket name (expiry_of expires))
          (file_error (bytes "failed to generate signed URL")) (Response.json 200)

-- The parameters of the query: the prefix, and the texts of limit and offset.
pub record ListQuery : Type 0 where
  pub prefix : Str
  pub limit : Str
  pub offset : Str

abbrev pub list_error : Error → Problem
list_error e =
    if errors_is e Sentinel.bucket_not_found
    then problem_of (bytes "NOT_FOUND") (bytes "bucket not found") 404
    else internal_error (bytes "failed to list files")

module _ {O : Type 0} (collate : Str → Str → Bool) where
  -- ListBuckets, and ListBucketsAdmin, which has the same body.
  unfoldable pub list_buckets : Handler (Storage O) (List Bucket)
  unfolding serve Buckets.list_buckets
  list_buckets =
      serve (Buckets.list_buckets collate) (λ e. internal_error (bytes "failed to list buckets"))
        (Response.json 200)

  -- ListFiles, and ListFilesAdmin, which has the same body.
  unfoldable pub list_files : Str → ListQuery → Handler (Storage O) (List File)
  unfolding serve Service.list_files
  list_files bucket q =
      serve
        (Service.list_files collate bucket q.prefix (atoi_or (ℤ.pos 100) q.limit)
          (atoi_or (ℤ.pos 0) q.offset))
        list_error (Response.json 200)
