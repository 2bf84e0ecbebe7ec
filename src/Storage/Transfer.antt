-- ===== src/Storage/Transfer.antt =====
-- Uploads and downloads: services/storage/internal/service/storage.go.
use garance.Prelude.{
  ℕ, Str, Bool, true, false, ◌||◌, Option, none, some, [], ◌≡◌, refl, sym, nat_eq, str_eq, ==_refl,
  arith, Bool-cases, inl, inr,
}
use mathlib.Core.Path.{subst}
use garance.Errors.{Error, Sentinel, is_pg_code, unique_violation}
use garance.Sql.{select, exists}
use garance.Exec.{World, Result, ok, err, call, draw, ◌>>=◌, catch, wrapped, ignore}
use garance.Exec.Yields.{
  Yields, Yields-bind, Yields-catch, Yields-send, Yields-insert, Yields-replace_error,
  Yields-wrapped, Yields-if, Yields-fail, Yields-raise, ok-injective,
}
use garance.Storage.Tables.{Bucket, File, Storage}
use garance.Storage.Store.Buckets.{has_bucket_id, has_bucket_name, get_bucket_by_name}
use garance.Storage.Store.Files.{has_file_id, is_named, insert_file, create_file, get_file}
use garance.Storage.Objects.{
  ObjectStore, ObjectLaws, kept_type, put_in, upload_object, download_object, delete_object,
}
use garance.Storage.Service.{
  object_key, is_too_large, is_allowed_type, store_file, upload, download,
}
use garance.Auth.Service.Answer.{refused}
use garance.Auth.Service.Rotation.{row-ok}

module _ {O : Type 0} (s : ObjectStore O) (laws : ObjectLaws s) where
  -- What an upload that is accepted has stored.
  pub record IsStored (bucket_name name content : Str) (size : ℕ) (mime : Str) (file : File)
      (d : Storage O) : Type 0 where
    pub bucket : Bucket
    pub bucket_found : select (has_bucket_name bucket_name) d.buckets ≡ some bucket
    pub fits : is_too_large size bucket.max_file_size ≡ false
    pub allowed : is_allowed_type bucket.allowed_mime_types mime ≡ true
    pub row_found : select (is_named bucket.id name) d.files ≡ some file
    pub object_found :
        s.find (object_key bucket_name name) d.objects ≡ some (content, kept_type mime)
    pub size_kept : file.size ≡ size
    pub type_kept : file.mime_type ≡ mime

  module _ (bucket_name name content : Str) (size : ℕ) (mime : Str) (owner : Option ℕ) where
    abbrev Found : Bucket → ℕ → Storage O → Type 0
    Found b t d = select (has_bucket_name bucket_name) d.buckets ≡ some b

    finds_bucket : Yields (λ t d. Unit) (get_bucket_by_name {O = O} bucket_name) Found
    unfolding get_bucket_by_name
    finds_bucket =
        Yields-catch _ _
          (Yields-send _ λ t d b u e. row-ok (select (has_bucket_name bucket_name) d.buckets) e)
          (λ e. Yields-replace_error _ _ e)

    abbrev Put : Bucket → ℕ → Storage O → Type 0
    Put b t d =
        Found b t d
        × (s.find (object_key bucket_name name) d.objects ≡ some (content, kept_type mime))

    puts :
        (b : Bucket)
        → Yields
            (Found b)
            (upload_object s (object_key bucket_name name) content size mime)
            (λ _. Put b)
    unfolding upload_object
    puts b = Yields-wrapped _ _ (
        Yields-send _ λ t d u h e.
          go t d (s.put (object_key bucket_name name) content size mime d.objects) refl u h e)
      where
        go :
            (t : ℕ) (d : Storage O) (o : Option O)
            → s.put (object_key bucket_name name) content size mime d.objects ≡ o
            → (u : Unit) → Found b t d
            → (put_in s d o).0 ≡ Result.ok u
            → Put b t (put_in s d o).1
        go t d none p u h e = cc
        go t d (some o) p u h e =
            (h, laws.find-put (object_key bucket_name name) content size mime d.objects o p)

    inserts :
        (b : Bucket) (id t : ℕ) (d : Storage O) (file : File)
        → is_too_large size b.max_file_size ≡ false
        → is_allowed_type b.allowed_mime_types mime ≡ true
        → Put b t d
        → (insert_file id b.id name size mime owner t d).0 ≡ ok file
        → IsStored bucket_name name content size mime file
            (insert_file id b.id name size mime owner t d).1
    unfolding insert_file select
    inserts b id t d file fits allowed h e =
        elim (Bool-cases (exists (has_file_id id) d.files || exists (is_named b.id name) d.files)) [
          | inl taken ↦ absurd (refused (rw (taken, insert_file) at e))
          | inr free ↦ elim (Bool-cases (exists (has_bucket_id b.id) d.buckets)) [
            | inl known ↦
                subst
                  (λ f.
                    IsStored bucket_name name content size mime f
                      (insert_file id b.id name size mime owner t d).1)
                  (ok-injective (rw (free, known, insert_file) at e))
                  (rw (free, known)
                    (record {
                      bucket = b;
                      bucket_found = h.0;
                      fits = fits;
                      allowed = allowed;
                      row_found = rw (==_refl b.id, ==_refl name) refl;
                      object_found = h.1;
                      size_kept = refl;
                      type_kept = refl;
                    }))
            | inr unknown ↦ absurd (refused (rw (free, unknown, insert_file) at e))
          ]
        ]

    abbrev Stored : File → ℕ → Storage O → Type 0
    Stored file t d = IsStored bucket_name name content size mime file d

    stores :
        (b : Bucket)
        → is_too_large size b.max_file_size ≡ false
        → is_allowed_type b.allowed_mime_types mime ≡ true
        → Yields
            (Found b)
            (store_file s b (object_key bucket_name name) name content size mime owner)
            Stored
    unfolding store_file create_file
    stores b fits allowed =
        Yields-bind _ _ (Yields-wrapped "failed to upload to S3" _ (puts b)) λ _.
          Yields-catch _ _
            (Yields-catch _ _
              (Yields-insert _ λ id t d file h e. inserts b id t d file fits allowed h e)
              (λ e.
                Yields-if (is_pg_code e "23505") _ _ (λ _. Yields-fail _) (λ _. Yields-raise e)))
            (λ e.
              Yields-bind {R = λ _ _ _. Unit} _ _ (record { at = λ w a p h. tt })
                λ _. Yields-raise e)

    uploads : Yields (λ t d. Unit) (upload s bucket_name name content size mime owner) Stored
    unfolding upload
    uploads = Yields-bind _ _ finds_bucket λ b.
        Yields-if (is_too_large size b.max_file_size) _ _ (λ _. Yields-fail _)
          λ fits.
            Yields-if (is_allowed_type b.allowed_mime_types mime) _ _ (stores b fits)
              (λ _. Yields-fail _)

    -- If S3 keeps what is put, and Upload accepts a file, then the bucket exists, its limit on the
    -- size and its list of types admit the file, and the row and the object of the file are stored
    -- with the content, the size and the type that were sent, where S3 has application/octet-stream
    -- for an empty type.
    pub upload-IsStored :
        (w : World (Storage O)) (file : File)
        → (upload s bucket_name name content size mime owner w).0 ≡ ok file
        → IsStored bucket_name name content size mime file
            (upload s bucket_name name content size mime owner w).1.db
    upload-IsStored w file e = uploads.at w file tt e

    downloads :
        (v : World (Storage O)) (file : File)
        → v.faults ≡ []
        → IsStored bucket_name name content size mime file v.db
        → (download s bucket_name name v).0 ≡ ok (content, file)
    unfolding download get_bucket_by_name get_file download_object wrapped catch call ◌>>=◌
    downloads v file calm h = rw (calm, h.bucket_found, h.row_found, h.object_found) refl

    -- If S3 keeps what is put, and Upload accepts a file, then a Download by the same names, with no
    -- call failing, returns the content that was sent and the row that Upload returned.
    pub download-upload :
        (w v : World (Storage O)) (file : File)
        → (upload s bucket_name name content size mime owner w).0 ≡ ok file
        → v.db ≡ (upload s bucket_name name content size mime owner w).1.db
        → v.faults ≡ []
        → (download s bucket_name name v).0 ≡ ok (content, file)
    download-upload w v file e same calm = downloads v file calm (
        subst (IsStored bucket_name name content size mime file) (sym same)
          (upload-IsStored w file e))

    insert_file-taken :
        (b id t : ℕ) (d : Storage O)
        → exists (is_named b name) d.files ≡ true
        → insert_file id b name size mime owner t d ≡ (err unique_violation, d)
    unfolding insert_file
    insert_file-taken b id t d taken = rw (taken, or_true (exists (has_file_id id) d.files)) refl
      where
        or_true : (x : Bool) → x || true ≡ true
        or_true x = ground arith

    -- If S3 keeps what is put and forgets what is removed, then an Upload to a name that is taken in
    -- a bucket that admits the file, with no call failing, is refused as a duplicate, and the object
    -- of the file that was there is lost: no object is left under its key.
    pub upload-taken :
        (w : World (Storage O)) (b : Bucket) (o : O)
        → w.faults ≡ []
        → select (has_bucket_name bucket_name) w.db.buckets ≡ some b
        → is_too_large size b.max_file_size ≡ false
        → is_allowed_type b.allowed_mime_types mime ≡ true
        → s.put (object_key bucket_name name) content size mime w.db.objects ≡ some o
        → exists (is_named b.id name) w.db.files ≡ true
        → ((upload s bucket_name name content size mime owner w).0
            ≡ err (Error.sentinel Sentinel.file_already_exists))
          × (s.find
                (object_key bucket_name name)
                (upload s bucket_name name content size mime owner w).1.db.objects
              ≡ none)
    unfolding upload store_file create_file get_bucket_by_name upload_object delete_object wrapped
        catch call ◌>>=◌ draw ignore
    upload-taken w b o calm found fits allowed put taken =
        rw
          (
            calm,
            found,
            fits,
            allowed,
            put,
            insert_file-taken b.id (w.entropy w.drawn) w.now (record w.db { objects = o }) taken,
          )
          (refl, laws.find-remove (object_key bucket_name name) o)
