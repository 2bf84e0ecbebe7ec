-- ===== src/Gateway/Files.antt =====
-- The gateway's proxy of the storage service (services/gateway/internal/proxy/storage.go) beside the
-- service's own HTTP handlers (services/storage/internal/handler/handler.go).
mod Tests
use garance.Prelude.{
  ℕ, Str, bytes, [], Bool, true, false, ◌||◌, Option, none, some, ◌≡◌, ◌≢◌, refl, ap, ◌==◌, nat_eq,
  str_eq, ==_false, eq_of_==, if◌then◌else◌, length, leb, Bool-cases, inl, inr, arith,
}
use garance.Errors.{Error, Sentinel}
use garance.Exec.{Result, World}
use garance.Exec.Errs.{root, errors_is-root, IsWithin}
use garance.Http.{Response, Handler, serve, finish, status_of, Problem}
use garance.Http.Status.{answer, conclude, Status, Code, Method, Reply, refuse}
use garance.Auth.Packages.{Packages}
use garance.Storage.Tables.{File, Storage}
use garance.Storage.Objects.{ObjectStore}
use garance.Storage.Refusals.{uploading, upload-Errs}
use garance.Storage.Service
use garance.Storage.Grpc.{map_storage_error}
use garance.Storage.Grpc
use garance.Storage.Handler.{UploadForm, upload_error, or_else}
use garance.Storage.Handler
use garance.Gateway.Errors.{
  Transit, write_grpc_error, forward, render, within_request, within_reply, max_message,
}
use garance.Gateway.StorageProxy.{Form, Sizes}
use garance.Gateway.StorageProxy
use garance.Gateway.Carried.{IsSameEnd, IsCarried, sent, within_request-IsCarried}

-- gRPC has one code for the arguments that it refuses, where HTTP tells a size and a type apart.
abbrev pub as_bad_request : ℕ → ℕ
as_bad_request n = if n == 413 || n == 415 then 400 else n

uploading-status :
    (e : Error)
    → uploading (root e) ≡ true
    → (write_grpc_error (map_storage_error e)).status ≡ as_bad_request (upload_error e).status
unfolding write_grpc_error map_storage_error
uploading-status e h =
    rw
      (
        errors_is-root e Sentinel.bucket_not_found refl,
        errors_is-root e Sentinel.file_not_found refl,
        errors_is-root e Sentinel.bucket_already_exists refl,
        errors_is-root e Sentinel.file_already_exists refl,
        errors_is-root e Sentinel.file_too_large refl,
        errors_is-root e Sentinel.mime_type_not_allowed refl,
      )
      (ground arith)

-- One action behind the gateway's path and behind a handler of the service.
module _ {D A B C E : Type 0} (p : ℕ → Bool) (k : ℕ → ℕ) (problem : Error → Problem) (conv : A → B)
    (g : B → Response C) (h : A → Response E)
    (errors : (e : Error)
      → p (root e) ≡ true
      → (write_grpc_error (map_storage_error e)).status ≡ k (problem e).status)
    (values : (a : A) → status_of (g (conv a)) ≡ k (status_of (h a))) where
  both_paths :
      (r : Result A) (v : World D)
      → IsWithin p r
      → IsSameEnd k
          (
            render (conclude r map_storage_error conv v).0 g,
            (conclude r map_storage_error conv v).1,
          )
          (finish r problem h v)
  both_paths (Result.ok a) v o = (values a, refl)
  both_paths (Result.err e) v o = (errors e o, refl)
  both_paths Result.panic v o = absurd o

module _ {O : Type 0} (pkg : Packages) (print_time : ℕ → Str) (s : ObjectStore O)
    (collate : Str → Str → Bool) (call : Transit) (sizes : Sizes) where
  -- An upload by a caller with an id, over the gateway, whatever fails in the service: where the gRPC
  -- call gets through and its request has at most 4 MB, it ends with the same HTTP status as the storage
  -- service's own handler gives it, except that a file that is too large (413) or of a type that is
  -- not allowed (415) is a bad request (400) there, and both leave the same world; with a larger
  -- request, or one that does not reach the service, it ends with status 500 and changes nothing; and
  -- where the reply is lost, it ends with status 500 and leaves the world of the handler.
  pub upload-agrees :
      (uid bucket : Str) (f : UploadForm) (w : World (Storage O))
      → uid ≢ []
      → IsCarried
          (sent
            (leb
              (sizes.upload_request bucket
                (or_else f.name f.file_name)
                f.content
                (or_else f.content_type (bytes "application/octet-stream"))
                uid)
              max_message)
            call)
          as_bad_request
          w
          (StorageProxy.upload pkg print_time s collate call sizes
            (some uid)
            bucket
            (Form.form f)
            w)
          (Handler.upload pkg s bucket (some f) (some uid) w)
  unfolding StorageProxy.upload Handler.upload Grpc.upload answer serve
  upload-agrees uid bucket f w named =
      within_request-IsCarried as_bad_request
        (Grpc.upload pkg print_time s bucket (or_else f.name f.file_name) f.content
          (or_else f.content_type (bytes "application/octet-stream")) uid)
        (Response.json 201) _ w _ call
        (rw (==_false uid [] named) (
          both_paths uploading as_bad_request upload_error _ (Response.json 201) (Response.json 201)
            uploading-status (λ a. refl) _ _
            ((upload-Errs s bucket (or_else f.name f.file_name) f.content (length f.content)
                (or_else f.content_type (bytes "application/octet-stream")) (pkg.uuid_parse uid)).at
              w)))
