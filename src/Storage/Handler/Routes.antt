-- ===== src/Storage/Handler/Routes.antt =====
-- RegisterRoutes of services/storage/internal/handler/handler.go: each route with the header
-- Authorization of its request.
use garance.Prelude.{Str, Option, some, List, Bool}
use garance.Http.{Handler}
use garance.Auth.Packages.{Packages}
use garance.Storage.Tables.{ℤ, Bucket, File, Storage}
use garance.Storage.Objects.{ObjectStore}
use garance.Storage.Handler
use garance.Storage.Handler.{CreateBucketRequest, UploadForm, Content, ListQuery}
use garance.Storage.Handler.Middleware.{optional_auth, require_auth}

module _ {O : Type 0} (pkg : Packages) (s : ObjectStore O) (collate : Str → Str → Bool)
    (secret header : Str) where
  unfoldable pub post_buckets : Option CreateBucketRequest → Handler (Storage O) Bucket
  unfolding require_auth Handler.create_bucket
  post_buckets body = require_auth pkg secret header λ uid. Handler.create_bucket pkg s body

  unfoldable pub get_buckets : Handler (Storage O) (List Bucket)
  unfolding require_auth Handler.list_buckets
  get_buckets = require_auth pkg secret header λ uid. Handler.list_buckets collate

  unfoldable pub delete_buckets : Str → Handler (Storage O) (Unit {0})
  unfolding require_auth Handler.delete_bucket
  delete_buckets bucket = require_auth pkg secret header λ uid. Handler.delete_bucket pkg s bucket

  unfoldable pub post_upload : Str → Option UploadForm → Handler (Storage O) File
  unfolding require_auth Handler.upload
  post_upload bucket form =
      require_auth pkg secret header λ uid. Handler.upload pkg s bucket form (some uid)

  unfoldable pub get_path : Str → Str → Handler (Storage O) Content
  unfolding optional_auth Handler.download
  get_path bucket name = optional_auth pkg secret header λ uid. Handler.download pkg s bucket name

  unfoldable pub delete_path : Str → Str → Handler (Storage O) (Unit {0})
  unfolding require_auth Handler.delete_file
  delete_path bucket name =
      require_auth pkg secret header λ uid. Handler.delete_file pkg s bucket name

  unfoldable pub post_signed_url : Str → Option (Str × ℤ) → Handler (Storage O) Str
  unfolding require_auth Handler.create_signed_url
  post_signed_url bucket body =
      require_auth pkg secret header λ uid. Handler.create_signed_url pkg s bucket body

  unfoldable pub get_files : Str → ListQuery → Handler (Storage O) (List File)
  unfolding require_auth Handler.list_files
  get_files bucket q = require_auth pkg secret header λ uid. Handler.list_files collate bucket q

-- The two routes under /storage/v1/admin, which ask for no token; ListBucketsAdmin and ListFilesAdmin
-- have the bodies of ListBuckets and ListFiles.
module _ {O : Type 0} (collate : Str → Str → Bool) where
  unfoldable pub get_admin_buckets : Handler (Storage O) (List Bucket)
  unfolding Handler.list_buckets
  get_admin_buckets = Handler.list_buckets collate

  unfoldable pub get_admin_files : Str → ListQuery → Handler (Storage O) (List File)
  unfolding Handler.list_files
  get_admin_files bucket q = Handler.list_files collate bucket q
