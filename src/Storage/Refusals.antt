-- ===== src/Storage/Refusals.antt =====
-- The errors that the storage service returns: services/storage/internal/service/storage.go.
use garance.Prelude.{
  ℕ, Str, Bool, true, false, ◌||◌, Option, none, some, ◌≡◌, refl, sym, eq_of_==, ◌==◌, nat_eq,
  Bool-cases, inl, inr,
}
use mathlib.Core.Path.{subst}
use garance.Errors.{Error, Sentinel, is_pg_code}
use garance.Sql.{select, exists}
use garance.Exec.{Action, ignore}
use garance.Exec.Errs.{
  root, IsWithin, Errs, Errs-pure, Errs-raise, Errs-if, Errs-call, Errs-statement, Errs-catch,
  Errs-wrapped, Errs-replace_error, Errs-bind, Errs-draw,
}
use garance.Auth.Store.Users.{row_or_no_rows}
use garance.Storage.Tables.{Storage}
use garance.Storage.Store.Buckets.{has_bucket_id, has_bucket_name, get_bucket_by_name}
use garance.Storage.Store.Files.{
  has_file_id, is_named, insert_file, create_file, get_file, delete_file,
}
use garance.Storage.Objects.{
  ObjectStore, put_in, found, upload_object, download_object, delete_object, signed_object_url,
}
use garance.Storage.Service.{
  is_too_large, is_allowed_type, store_file, upload, download, remove, signed_url,
}

-- The sentinels of a file that is looked for, and those of an upload; other errors wrap none.
abbrev pub looking : ℕ → Bool
looking n = n == 18 || (n == 20 || n == 24)

abbrev pub uploading : ℕ → Bool
uploading n = n == 18 || (n == 21 || (n == 22 || (n == 23 || n == 24)))

abbrev no_rows_only : ℕ → Bool
no_rows_only n = n == 0 || n == 24

row-IsWithin : {A : Type 0} (o : Option A) → IsWithin no_rows_only (row_or_no_rows o)
row-IsWithin none = refl
row-IsWithin (some a) = tt

or_other :
    (p : ℕ → Bool) (n : ℕ) → p 24 ≡ true → no_rows_only n ≡ true → (n == 0) ≡ false → p n ≡ true
or_other p n anon h k = subst (λ m. p m ≡ true) (sym (eq_of_== n 24 (rw k at h))) anon

module _ {O : Type 0} (p : ℕ → Bool) (anon : p 24 ≡ true) where
  finds_bucket : p 18 ≡ true → (name : Str) → Errs p (get_bucket_by_name {O = O} name)
  unfolding get_bucket_by_name
  finds_bucket known name =
      Errs-catch no_rows_only p _ _
        (Errs-call _ refl
          (Errs-statement _ λ t d. row-IsWithin (select (has_bucket_name name) d.buckets)))
        λ e h.
          Errs-replace_error e Sentinel.no_rows Sentinel.bucket_not_found refl
            (or_other p (root e) anon h) known

  finds_file : p 20 ≡ true → (bucket_id : ℕ) (name : Str) → Errs p (get_file {O = O} bucket_id name)
  unfolding get_file
  finds_file known bucket_id name =
      Errs-catch no_rows_only p _ _
        (Errs-call _ refl
          (Errs-statement _ λ t d. row-IsWithin (select (is_named bucket_id name) d.files)))
        λ e h.
          Errs-replace_error e Sentinel.no_rows Sentinel.file_not_found refl
            (or_other p (root e) anon h) known

  module _ (s : ObjectStore O) where
    found-IsWithin : {A : Type 0} (o : Option A) → IsWithin p (found s o)
    found-IsWithin none = anon
    found-IsWithin (some a) = tt

    put_in-IsWithin : (d : Storage O) (o : Option O) → IsWithin p (put_in s d o).0
    put_in-IsWithin d none = anon
    put_in-IsWithin d (some o) = tt

    puts :
        (key content : Str) (size : ℕ) (mime : Str) → Errs p (upload_object s key content size mime)
    unfolding upload_object
    puts key content size mime = Errs-wrapped _ _ (
        Errs-call _ anon
          (Errs-statement _ λ t d. put_in-IsWithin d (s.put key content size mime d.objects)))

    gets : (key : Str) → Errs p (download_object s key)
    unfolding download_object
    gets key =
        Errs-wrapped _ _
          (Errs-call _ anon (Errs-statement _ λ t d. found-IsWithin (s.find key d.objects)))

    removes : (key : Str) → Errs p (delete_object s key)
    unfolding delete_object
    removes key = Errs-wrapped _ _ (Errs-call _ anon (Errs-statement _ λ t d. tt))

    signs : (key : Str) (expiry : ℕ) → Errs p (signed_object_url s key expiry)
    unfolding signed_object_url
    signs key expiry =
        Errs-wrapped _ _ (
          Errs-call _ anon
            (Errs-statement _ λ t d. found-IsWithin (s.presign key expiry d.objects)))

module _ {O : Type 0} (s : ObjectStore O) where
  pub download-Errs : (bucket name : Str) → Errs looking (download s bucket name)
  unfolding download
  download-Errs bucket name = Errs-bind _ _ (finds_bucket looking refl refl bucket) λ b.
      Errs-bind _ _ (finds_file looking refl refl b.id name)
        λ f. Errs-bind _ _ (gets looking refl s _) λ o. Errs-pure _

  pub signed_url-Errs :
      (bucket name : Str) (expiry : ℕ) → Errs looking (signed_url s bucket name expiry)
  unfolding signed_url
  signed_url-Errs bucket name expiry =
      Errs-bind _ _ (finds_bucket looking refl refl bucket) λ b.
        Errs-bind _ _ (finds_file looking refl refl b.id name) λ f. signs looking refl s _ expiry

  deletes_file : (bucket_id : ℕ) (name : Str) → Errs looking (delete_file {O = O} bucket_id name)
  unfolding delete_file
  deletes_file bucket_id name =
      Errs-bind _ _ (Errs-call _ refl (Errs-statement _ λ t d. tt)) λ affected.
        Errs-if affected _ _ (λ _. Errs-pure _)
          λ _. Errs-raise (Error.sentinel Sentinel.file_not_found) refl

  pub remove-Errs : (bucket name : Str) → Errs looking (remove s bucket name)
  unfolding remove
  remove-Errs bucket name =
      Errs-bind _ _ (finds_bucket looking refl refl bucket)
        λ b. Errs-bind _ _ (removes looking refl s _) λ _. deletes_file b.id name

  inserts :
      (id bucket_id : ℕ) (name : Str) (size : ℕ) (mime : Str) (owner : Option ℕ) (t : ℕ)
      (d : Storage O)
      → IsWithin uploading (insert_file id bucket_id name size mime owner t d).0
  unfolding insert_file
  inserts id bucket_id name size mime owner t d =
      elim (Bool-cases
        (exists (has_file_id id) d.files || exists (is_named bucket_id name) d.files)) [
          | inl taken ↦ rw taken refl
          | inr free ↦ elim (Bool-cases (exists (has_bucket_id bucket_id) d.buckets)) [
            | inl known ↦ rw (free, known) tt
            | inr unknown ↦ rw (free, unknown) refl
          ]
        ]

  creates :
      (bucket_id : ℕ) (name : Str) (size : ℕ) (mime : Str) (owner : Option ℕ)
      → Errs uploading (create_file {O = O} bucket_id name size mime owner)
  unfolding create_file
  creates bucket_id name size mime owner =
      Errs-catch uploading uploading _ _
        (Errs-call _ refl (
          Errs-bind _ _ Errs-draw
            λ id. Errs-statement _ λ t d. inserts id bucket_id name size mime owner t d))
        λ e h.
          Errs-if (is_pg_code e "23505") _ _
            (λ _. Errs-raise (Error.sentinel Sentinel.file_already_exists) refl)
            (λ _. Errs-raise e h)

  ignores : {A : Type 0} (m : Action (Storage O) A) → Errs uploading m → Errs uploading (ignore m)
  unfolding ignore
  ignores m k =
      Errs-catch uploading uploading _ _ (Errs-bind _ _ k λ a. Errs-pure _) λ e h. Errs-pure _

  pub upload-Errs :
      (bucket name content : Str) (size : ℕ) (mime : Str) (owner : Option ℕ)
      → Errs uploading (upload s bucket name content size mime owner)
  unfolding upload store_file
  upload-Errs bucket name content size mime owner =
      Errs-bind _ _ (finds_bucket uploading refl refl bucket) λ b.
        Errs-if (is_too_large size b.max_file_size) _ _
          (λ _. Errs-raise (Error.sentinel Sentinel.file_too_large) refl)
          λ _.
            Errs-if (is_allowed_type b.allowed_mime_types mime) _ _
              (λ _.
                Errs-bind _ _ (Errs-wrapped _ _ (puts uploading refl s _ content size mime)) λ _.
                  Errs-catch uploading uploading _ _ (creates b.id name size mime owner) λ e h.
                    Errs-bind _ _ (ignores _ (removes uploading refl s _)) λ _. Errs-raise e h)
              (λ _. Errs-raise (Error.sentinel Sentinel.mime_type_not_allowed) refl)
