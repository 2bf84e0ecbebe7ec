-- ===== src/Gateway/StorageProxy.antt =====
-- services/gateway/internal/proxy/storage.go, over the storage service's gRPC server. A handler takes
-- the user id of its context and what the decoders of JSON and forms make of the body.
use garance.Prelude.{
  ℕ, zero, suc, Str, bytes, [], Bool, Option, none, some, List, str_eq, ltb, if◌then◌else◌,
}
use garance.Encoding.Decimal.{format}
use garance.Encoding.Integer.{int_or}
use garance.Http.{Response, Handler, write_error}
use garance.Auth.Packages.{Packages}
use garance.Storage.Tables.{ℤ, Storage}
use garance.Storage.Objects.{ObjectStore}
use garance.Storage.Grpc
use garance.Storage.Grpc.{BucketResponse, FileResponse, DownloadResponse}
use garance.Storage.Handler.{UploadForm, Content, ListQuery, or_else}
use garance.Gateway.Errors.{Transit, forward, within_request, within_reply}

-- requireAuth
abbrev pub require_auth : {D B : Type 0} → Option Str → Handler D B → Handler D B
require_auth none next = write_error (bytes "UNAUTHORIZED") (bytes "authentication required") 401
require_auth (some uid) next = next

abbrev invalid : {D B : Type 0} → Str → Handler D B
invalid message = write_error (bytes "VALIDATION_ERROR") message 400

-- The body of CreateBucket, where an absent limit is 0.
pub record BucketBody : Type 0 where
  pub name : Str
  pub is_public : Bool
  pub max_file_size : ℤ
  pub allowed_mime_types : List Str

-- proto.Size of the two messages that carry a file: an UploadRequest, by its fields, and a
-- DownloadResponse.
pub record Sizes : Type 0 where
  pub upload_request : Str → Str → Str → Str → Str → ℕ
  pub download_response : DownloadResponse → ℕ

-- What becomes of the multipart form.
pub data Form : Type 0 where
  no_file : Form
  unreadable : Form
  form : UploadForm → Form

abbrev pub context_text : Option Str → Str
context_text none = []
context_text (some uid) = uid

-- `if body.ExpiresIn <= 0 { body.ExpiresIn = 3600 }`
abbrev pub expires_or_hour : ℤ → ℤ
expires_or_hour (ℤ.pos zero) = ℤ.pos 3600
expires_or_hour (ℤ.pos (suc n)) = ℤ.pos (suc n)
expires_or_hour (ℤ.negsuc n) = ℤ.pos 3600

-- What encoding/json takes for an int32.
abbrev pub fits_int32 : ℤ → Bool
fits_int32 (ℤ.pos n) = ltb n 2147483648
fits_int32 (ℤ.negsuc n) = ltb n 2147483648

abbrev pub to_content : DownloadResponse → Content
to_content r = record {
  content_type = r.mime_type;
  content_length = format r.size;
  body = r.content;
}

module _ {O : Type 0} (pkg : Packages) (print_time : ℕ → Str) (s : ObjectStore O)
    (collate : Str → Str → Bool) (call : Transit) (sizes : Sizes) where
  abbrev create_from : Option BucketBody → Handler (Storage O) BucketResponse
  create_from none = invalid (bytes "invalid body")
  create_from (some q) =
      forward call
        (Grpc.create_bucket pkg print_time s q.name q.is_public q.max_file_size
          q.allowed_mime_types)
        (Response.json 201)

  unfoldable pub create_bucket : Option Str → Option BucketBody → Handler (Storage O) BucketResponse
  unfolding forward Grpc.create_bucket
  create_bucket context body = require_auth context (create_from body)

  unfoldable pub list_buckets : Option Str → Handler (Storage O) (List BucketResponse)
  unfolding forward Grpc.list_buckets
  list_buckets context =
      require_auth context
        (forward call (Grpc.list_buckets pkg print_time s collate) (Response.json 200))

  unfoldable pub delete_bucket : Option Str → Str → Handler (Storage O) (Unit {0})
  unfolding forward Grpc.delete_bucket
  delete_bucket context bucket =
      require_auth context
        (forward call (Grpc.delete_bucket pkg print_time s bucket) (λ u. Response.empty 204))

  abbrev upload_from : Option Str → Str → Form → Handler (Storage O) FileResponse
  upload_from context bucket Form.no_file = invalid (bytes "file required")
  upload_from context bucket Form.unreadable =
      write_error (bytes "INTERNAL_ERROR") (bytes "failed to read file") 500
  upload_from context bucket (Form.form f) =
      forward call
        (within_request
          (sizes.upload_request bucket (or_else f.name f.file_name) f.content
            (or_else f.content_type (bytes "application/octet-stream")) (context_text context))
          (Grpc.upload pkg print_time s bucket (or_else f.name f.file_name) f.content
            (or_else f.content_type (bytes "application/octet-stream")) (context_text context)))
        (Response.json 201)

  unfoldable pub upload : Option Str → Str → Form → Handler (Storage O) FileResponse
  unfolding forward within_request Grpc.upload
  upload context bucket body = require_auth context (upload_from context bucket body)

  -- Download does not ask for authentication.
  unfoldable pub download : Str → Str → Handler (Storage O) Content
  unfolding forward within_reply Grpc.download
  download bucket path =
      forward call
        (within_reply sizes.download_response (Grpc.download pkg print_time s bucket path))
        (λ r. Response.json 200 (to_content r))

  unfoldable pub delete_file : Option Str → Str → Str → Handler (Storage O) (Unit {0})
  unfolding forward Grpc.delete_file
  delete_file context bucket path =
      require_auth context
        (forward call (Grpc.delete_file pkg print_time s bucket path) (λ u. Response.empty 204))

  abbrev sign_from : Str → Option (Str × ℤ) → Handler (Storage O) Str
  sign_from bucket none = invalid (bytes "invalid body")
  sign_from bucket (some (name, expires)) =
      if fits_int32 expires
      then forward call
          (Grpc.create_signed_url pkg print_time s bucket name (expires_or_hour expires))
          (Response.json 200)
      else invalid (bytes "invalid body")

  unfoldable pub create_signed_url : Option Str → Str → Option (Str × ℤ) → Handler (Storage O) Str
  unfolding forward Grpc.create_signed_url
  create_signed_url context bucket body = require_auth context (sign_from bucket body)

  unfoldable pub list_files : Option Str → Str → ListQuery → Handler (Storage O) (List FileResponse)
  unfolding forward Grpc.list_files
  list_files context bucket q = require_auth context (
      forward call
        (Grpc.list_files pkg print_time s collate bucket q.prefix (int_or 31 (ℤ.pos 100) q.limit)
          (int_or 31 (ℤ.pos 0) q.offset))
        (Response.json 200))
