-- ===== src/Storage/Objects.antt =====
-- services/storage/internal/s3/client.go: the calls of the MinIO client on the one S3 bucket of the
-- service. The objects are a parameter, with what S3 documents of them as laws.
use garance.Prelude.{ℕ, Str, bytes, [], ◌==◌, str_eq, if◌then◌else◌, Option, none, some, ◌≡◌}
use garance.Errors.{Error}
use garance.Exec.{Result, ok, err, Action, statement, call, wrapped}
use garance.Storage.Tables.{Storage}

pub record ObjectStore (O : Type 0) : Type 0 where
  -- PutObject of a key, a content, its announced size and its type; none where it fails
  pub put : Str → Str → ℕ → Str → O → Option O
  -- GetObject and Stat: the content and the type of an object, none where there is none
  pub find : Str → O → Option (Str × Str)
  -- RemoveObject, which does not fail where there is no object
  pub remove : Str → O → O
  -- PresignedGetObject for so many seconds
  pub presign : Str → ℕ → O → Option Str

-- The type that MinIO's client sends for an object.
abbrev pub kept_type : Str → Str
kept_type mime = if mime == [] then bytes "application/octet-stream" else mime

-- An object that was put is found, with the type that was sent for it; one that was removed is not.
pub record ObjectLaws {O : Type 0} (s : ObjectStore O) : Type 0 where
  pub find-put :
      (key content : Str) (size : ℕ) (mime : Str) (o p : O)
      → s.put key content size mime o ≡ some p
      → s.find key p ≡ some (content, kept_type mime)
  pub find-remove : (key : Str) (o : O) → s.find key (s.remove key o) ≡ none

module _ {O : Type 0} (s : ObjectStore O) where
  abbrev pub put_in : Storage O → Option O → Result (Unit {0}) × Storage O
  put_in d none = (err (Error.failure "put refused"), d)
  put_in d (some o) = (ok tt, record d { objects = o })

  abbrev pub found {ℓ} : {A : Type ℓ} → Option A → Result A
  found none = err (Error.failure "no such object")
  found (some a) = ok a

  unfoldable pub upload_object : Str → Str → ℕ → Str → Action (Storage O) (Unit {0})
  upload_object key content size mime =
      wrapped "failed to upload object"
        (call (statement λ t d. put_in d (s.put key content size mime d.objects)))

  unfoldable pub download_object : Str → Action (Storage O) (Str × Str)
  download_object key =
      wrapped "failed to get object" (call (statement λ t d. (found (s.find key d.objects), d)))

  unfoldable pub delete_object : Str → Action (Storage O) (Unit {0})
  delete_object key =
      wrapped "failed to delete object"
        (call (statement λ t d. (ok tt, record d { objects = s.remove key d.objects })))

  unfoldable pub signed_object_url : Str → ℕ → Action (Storage O) Str
  signed_object_url key expiry =
      wrapped "failed to generate signed URL"
        (call (statement λ t d. (found (s.presign key expiry d.objects), d)))
