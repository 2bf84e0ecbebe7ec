-- ===== src/Storage/Access.antt =====
-- The routes of services/storage/internal/handler behind the middleware: which requests they refuse.
mod Tests
use garance.Prelude.{
  ℕ, Str, [], ◌∷◌, Bool, Option, none, some, ◌≡◌, ◌==◌, str_eq, refl, Bool-cases, inl, inr,
}
use garance.Exec.{Result, World, ok}
use garance.Http.{Response, Handler, status_of, serve}
use garance.Auth.Packages.{Packages, Claims}
use garance.Auth.Token.{key_for}
use garance.Auth.Handler.Middleware.{split_space, bearer_of}
use garance.Storage.Tables.{ℤ, File, Storage}
use garance.Storage.Objects.{ObjectStore, ObjectLaws}
use garance.Storage.Service
use garance.Storage.Handler.{CreateBucketRequest, UploadForm, ListQuery, to_content}
use garance.Storage.Handler
use garance.Storage.Handler.Middleware.{
  optional_auth, require_auth, required_token, optional_token, with_claims,
}
use garance.Storage.Handler.Routes.{
  post_buckets, get_buckets, delete_buckets, post_upload, get_path, delete_path, post_signed_url,
  get_files,
}
use garance.Storage.Transfer.{download-upload}

-- 401, and nothing has changed.
abbrev pub IsRefused : {D B : Type 0} → Handler D B → World D → Type 0
IsRefused h w = (status_of (h w).0 ≡ 401) × ((h w).1 ≡ w)

module _ (pkg : Packages) (secret : Str) where
  abbrev claims_at : Option Str → ℕ → Option Claims
  claims_at none now = none
  claims_at (some token) now = pkg.parse_token token (key_for secret) now

  -- The claims of a header `Bearer` and a token that is valid at the time.
  abbrev pub bearer_claims : Str → ℕ → Option Claims
  bearer_claims header now = claims_at (bearer_of (split_space header)) now

  module _ {D B : Type 0} where
    required_token-IsRefused :
        (next : Str → Handler D B) (token : Option Str) (w : World D)
        → claims_at token w.now ≡ none
        → IsRefused (required_token pkg secret token next) w
    required_token-IsRefused next none w h = (refl, refl)
    required_token-IsRefused next (some token) w h = rw h (refl, refl)

    require_auth-IsRefused :
        (header : Str) (next : Str → Handler D B) (w : World D)
        → bearer_claims header w.now ≡ none
        → IsRefused (require_auth pkg secret header next) w
    unfolding require_auth
    require_auth-IsRefused [] next w h = (refl, refl)
    require_auth-IsRefused (c ∷ header) next w h =
        required_token-IsRefused next (bearer_of (split_space (c ∷ header))) w h

    -- Where the handler does not ask who calls, an optional header changes nothing.
    optional_token-ignored :
        (h : Handler D B) (token : Option Str) (w : World D)
        → optional_token pkg secret token (λ uid. h) w ≡ h w
    optional_token-ignored h none w = refl
    optional_token-ignored h (some token) w = go (pkg.parse_token token (key_for secret) w.now)
      where
        go : (c : Option Claims) → with_claims pkg secret c (λ uid. h) w ≡ h w
        go none = refl
        go (some c) = refl

    optional_auth-ignored :
        (header : Str) (h : Handler D B) (w : World D)
        → optional_auth pkg secret header (λ uid. h) w ≡ h w
    unfolding optional_auth
    optional_auth-ignored [] h w = refl
    optional_auth-ignored (c ∷ header) h w =
        optional_token-ignored h (bearer_of (split_space (c ∷ header))) w

module _ {O : Type 0} (pkg : Packages) (s : ObjectStore O) (collate : Str → Str → Bool)
    (secret header : Str) where
  -- The answers to the requests that RegisterRoutes puts behind requireAuth.
  pub record AllRefused (w : World (Storage O)) : Type 0 where
    pub creating :
        (body : Option CreateBucketRequest)
        → IsRefused (post_buckets pkg s collate secret header body) w
    pub buckets : IsRefused (get_buckets pkg s collate secret header) w
    pub deleting : (bucket : Str) → IsRefused (delete_buckets pkg s collate secret header bucket) w
    pub uploading :
        (bucket : Str) (form : Option UploadForm)
        → IsRefused (post_upload pkg s collate secret header bucket form) w
    pub removing :
        (bucket name : Str) → IsRefused (delete_path pkg s collate secret header bucket name) w
    pub signing :
        (bucket : Str) (body : Option (Str × ℤ))
        → IsRefused (post_signed_url pkg s collate secret header bucket body) w
    pub listing :
        (bucket : Str) (q : ListQuery)
        → IsRefused (get_files pkg s collate secret header bucket q) w

  -- Without a header `Bearer` and a token that is valid at the time, the seven routes behind
  -- requireAuth (POST, GET and DELETE of buckets, the upload, the deletion of a file, the signed URL
  -- and the list of a bucket's files) answer 401 and leave the world as it was, whatever the request.
  -- The other three routes ask for no token: the download and the two lists under /storage/v1/admin.
  pub routes-AllRefused :
      (w : World (Storage O)) → bearer_claims pkg secret header w.now ≡ none → AllRefused w
  unfolding post_buckets get_buckets delete_buckets post_upload delete_path post_signed_url
      get_files
  routes-AllRefused w h = record {
    creating = λ body. require_auth-IsRefused pkg secret header _ w h;
    buckets = require_auth-IsRefused pkg secret header _ w h;
    deleting = λ bucket. require_auth-IsRefused pkg secret header _ w h;
    uploading = λ bucket form. require_auth-IsRefused pkg secret header _ w h;
    removing = λ bucket name. require_auth-IsRefused pkg secret header _ w h;
    signing = λ bucket body. require_auth-IsRefused pkg secret header _ w h;
    listing = λ bucket q. require_auth-IsRefused pkg secret header _ w h;
  }

  -- If S3 keeps what is put, and Upload accepts a file into a bucket, private or not, then a GET of its
  -- path, with no call failing, answers with the content, whatever the header Authorization holds.
  pub get_path-upload :
      (laws : ObjectLaws s) (bucket_name name content : Str) (size : ℕ) (mime : Str)
      (owner : Option ℕ) (w v : World (Storage O)) (file : File)
      → (Service.upload s bucket_name name content size mime owner w).0 ≡ ok file
      → v.db ≡ (Service.upload s bucket_name name content size mime owner w).1.db
      → v.faults ≡ []
      → (get_path pkg s collate secret header bucket_name name v).0
        ≡ Response.json 200 (to_content pkg s (content, file))
  unfolding get_path Handler.download serve
  get_path-upload laws bucket_name name content size mime owner w v file e same calm =
      rw
        (
          optional_auth-ignored pkg secret header (Handler.download pkg s bucket_name name) v,
          download-upload s laws bucket_name name content size mime owner w v file e same calm,
        )
        refl
