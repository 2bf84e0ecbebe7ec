-- ===== src/Storage/Reach.antt =====
-- The storage service as a state machine, and its invariant.
use garance.Prelude.{
  ℕ, Str, Bool, true, false, ◌≡◌, refl, ap, ◌∙◌, Option, none, some, List, str_eq, nat_eq,
}
use garance.Errors.{Sentinel, is_pg_code, errors_is}
use garance.Exec.{World, Result, statement, call, catch, replace_error}
use garance.Sql.{select}
use garance.Exec.Ends.{
  Ends, Post, Ends-catch, Ends-send, Ends-if, Ends-raise, Keeps-after, Keeps-test,
}
use garance.Auth.Store.Users.{row_or_no_rows}
use garance.Exec.Keeps.{
  Keeps, Keeps-send, Keeps-insert, Keeps-catch, Keeps-bind, Keeps-ignore, Keeps-if, Keeps-fail,
  Keeps-pure, Keeps-raise, Keeps-wrapped, Keeps-replace_error,
}
use garance.Storage.Tables.{ℤ, Bucket, Storage}
use garance.Storage.Store.Buckets.{
  has_bucket_name, create_bucket, get_bucket_by_name, delete_bucket,
}
use garance.Storage.Store.Files.{insert_file, create_file, get_file, delete_file}
use garance.Storage.Objects.{
  ObjectStore, put_in, upload_object, download_object, delete_object, signed_object_url,
}
use garance.Storage.Service.{
  is_too_large, is_allowed_type, store_file, upload, download, remove, signed_url,
}
use garance.Storage.Integrity.{
  IsSound, insert_bucket-IsSound, remove_bucket-IsSound, insert_file-IsSound, remove_file-IsSound,
  objects-IsSound, insert_file-buckets, select-AllAdmit,
}

-- The methods of the service.
pub data Request : Type 0 where
  add_bucket : (name : Str) (is_public : Bool) (max : Option ℤ) (types : List Str) → Request
  drop_bucket : (name : Str) → Request
  put_file : (bucket name content : Str) (size : ℕ) (mime : Str) (owner : Option ℕ) → Request
  read_file : (bucket name : Str) → Request
  drop_file : (bucket name : Str) → Request
  sign_file : (bucket name : Str) (expiry : ℕ) → Request

module _ {O : Type 0} (s : ObjectStore O) where
  -- The world that a request leaves, whatever it answers.
  abbrev pub after : Request → World (Storage O) → World (Storage O)
  after (Request.add_bucket name is_public max types) w =
      (create_bucket name is_public max types w).1
  after (Request.drop_bucket name) w = (delete_bucket name w).1
  after (Request.put_file bucket name content size mime owner) w =
      (upload s bucket name content size mime owner w).1
  after (Request.read_file bucket name) w = (download s bucket name w).1
  after (Request.drop_file bucket name) w = (remove s bucket name w).1
  after (Request.sign_file bucket name expiry) w = (signed_url s bucket name expiry w).1

  pub data Reach (w : World (Storage O)) : World (Storage O) → Type 0 where
    start : Reach w w
    request : {v : World (Storage O)} (r : Request) → Reach w v → Reach w (after r v)
    meanwhile :
        {v : World (Storage O)} (now : ℕ) (faults : List Bool)
        → Reach w v
        → Reach w (record v { now = now; faults = faults })

  query :
      {A : Type 0} (f : ℕ → Storage O → Result A) (from to : Sentinel)
      → Keeps IsSound (catch (call (statement λ t d. (f t d, d))) (replace_error from to))
  query f from to = Keeps-catch _ _ (Keeps-send _ λ t d h. h) (Keeps-replace_error from to)

  gets_bucket : (name : Str) → Keeps (IsSound {O = O}) (get_bucket_by_name name)
  unfolding get_bucket_by_name
  gets_bucket name = query _ _ _

  gets_file : (id : ℕ) (name : Str) → Keeps (IsSound {O = O}) (get_file id name)
  unfolding get_file
  gets_file id name = query _ _ _

  puts :
      (P : Storage O → Type 0) (key content : Str) (size : ℕ) (mime : Str)
      → ((d : Storage O) (o : O) → P d → P (record d { objects = o }))
      → Keeps P (upload_object s key content size mime)
  unfolding upload_object
  puts P key content size mime keep =
      Keeps-wrapped "failed to upload object" _
        (Keeps-send _ λ t d h. go d h (s.put key content size mime d.objects))
    where
      go : (d : Storage O) → P d → (o : Option O) → P (put_in s d o).1
      go d h none = h
      go d h (some o) = keep d o h

  reads : (key : Str) → Keeps IsSound (download_object s key)
  unfolding download_object
  reads key = Keeps-wrapped "failed to get object" _ (Keeps-send _ λ t d h. h)

  signs : (key : Str) (expiry : ℕ) → Keeps IsSound (signed_object_url s key expiry)
  unfolding signed_object_url
  signs key expiry = Keeps-wrapped "failed to generate signed URL" _ (Keeps-send _ λ t d h. h)

  deletes :
      (P : Storage O → Type 0) (key : Str)
      → ((d : Storage O) (o : O) → P d → P (record d { objects = o }))
      → Keeps P (delete_object s key)
  unfolding delete_object
  deletes P key keep =
      Keeps-wrapped "failed to delete object" _
        (Keeps-send _ λ t d h. keep d (s.remove key d.objects) h)

  creates_bucket :
      (name : Str) (is_public : Bool) (max : Option ℤ) (types : List Str)
      → Keeps (IsSound {O = O}) (create_bucket name is_public max types)
  unfolding create_bucket
  creates_bucket name is_public max types =
      Keeps-catch _ _
        (Keeps-insert _ λ id t d h. insert_bucket-IsSound h id name is_public max types t)
        λ e. Keeps-if (is_pg_code e "23505") _ _ (Keeps-fail _) (Keeps-raise e)

  deletes_bucket : (name : Str) → Keeps (IsSound {O = O}) (delete_bucket name)
  unfolding delete_bucket
  deletes_bucket name =
      Keeps-bind _ _ (Keeps-send _ λ t d h. remove_bucket-IsSound h name t)
        λ affected. Keeps-if affected _ _ (Keeps-pure tt) (Keeps-fail _)

  -- Sound tables with that bucket.
  abbrev With : Str → Bucket → Storage O → Type 0
  With name b d = IsSound d × (select (has_bucket_name name) d.buckets ≡ some b)

  finds_bucket : (name : Str) → Ends IsSound (get_bucket_by_name {O = O} name) (With name) IsSound
  unfolding get_bucket_by_name
  finds_bucket name = Ends-catch _ _ (Ends-send _ (λ d h. h) (λ t d h. go d h _ refl)) λ e.
      Ends-if (errors_is e Sentinel.no_rows) _ _ (λ u. Ends-raise _ (λ d h. h))
        (λ u. Ends-raise _ (λ d h. h))
    where
      go :
          (d : Storage O)
          → IsSound d
          → (found : Option Bucket) → select (has_bucket_name name) d.buckets ≡ found
          → Post (With name) IsSound (row_or_no_rows found) d
      go d h none e = h
      go d h (some b) e = (h, e)

  creates_file :
      (bucket : Str) (b : Bucket) (name : Str) (size : ℕ) (mime : Str) (owner : Option ℕ)
      → is_too_large size b.max_file_size ≡ false
      → is_allowed_type b.allowed_mime_types mime ≡ true
      → Keeps (With bucket b) (create_file b.id name size mime owner)
  unfolding create_file
  creates_file bucket b name size mime owner fits allowed =
      Keeps-catch _ _
        (Keeps-insert _ λ row t d h. (
          insert_file-IsSound h.0 row b.id name size mime owner t (
              select-AllAdmit (has_bucket_name bucket) d.buckets b size mime h.0.bucket_ids h.1 fits
                allowed),
          buckets_stay row b.id name size mime owner t d ∙ h.1,
        ))
        λ e. Keeps-if (is_pg_code e "23505") _ _ (Keeps-fail _) (Keeps-raise e)
    where
      buckets_stay :
          (row id : ℕ) (name : Str) (size : ℕ) (mime : Str) (owner : Option ℕ) (t : ℕ)
          (d : Storage O)
          → select (has_bucket_name bucket) (insert_file row id name size mime owner t d).1.buckets
            ≡ select (has_bucket_name bucket) d.buckets
      buckets_stay row id name size mime owner t d =
          ap (select (has_bucket_name bucket)) (insert_file-buckets row id name size mime owner t d)

  deletes_file : (id : ℕ) (name : Str) → Keeps (IsSound {O = O}) (delete_file id name)
  unfolding delete_file
  deletes_file id name =
      Keeps-bind _ _ (Keeps-send _ λ t d h. remove_file-IsSound h id name t)
        λ affected. Keeps-if affected _ _ (Keeps-pure tt) (Keeps-fail _)

  uploads :
      (bucket name content : Str) (size : ℕ) (mime : Str) (owner : Option ℕ)
      → Keeps IsSound (upload s bucket name content size mime owner)
  unfolding upload store_file
  uploads bucket name content size mime owner =
      Keeps-after _ _ (λ b d h. h.0) (finds_bucket bucket)
        λ b.
          Keeps-test (is_too_large size b.max_file_size) _ _ (λ u. Keeps-fail _)
            λ fits.
              Keeps-test (is_allowed_type b.allowed_mime_types mime) _ _
                (λ allowed.
                  Keeps-bind _ _
                    (Keeps-wrapped "failed to upload to S3" _
                      (puts (With bucket b) _ content size mime (objects-With bucket b)))
                    λ u.
                      Keeps-catch _ _ (creates_file bucket b name size mime owner fits allowed) λ e.
                        Keeps-bind _ _
                          (Keeps-ignore _ (deletes (With bucket b) _ (objects-With bucket b)))
                          λ v. Keeps-raise e)
                (λ u. Keeps-fail _)
    where
      objects-With :
          (bucket : Str) (b : Bucket) (d : Storage O) (o : O)
          → With bucket b d
          → With bucket b (record d { objects = o })
      objects-With bucket b d o h = (objects-IsSound h.0 o, h.1)

  after-IsSound : (r : Request) (w : World (Storage O)) → IsSound w.db → IsSound (after r w).db
  unfolding download remove signed_url
  after-IsSound (Request.add_bucket name is_public max types) w h =
      (creates_bucket name is_public max types).at w h
  after-IsSound (Request.drop_bucket name) w h = (deletes_bucket name).at w h
  after-IsSound (Request.put_file bucket name content size mime owner) w h =
      (uploads bucket name content size mime owner).at w h
  after-IsSound (Request.read_file bucket name) w h =
      (Keeps-bind _ _ (gets_bucket bucket) λ b.
          Keeps-bind _ _ (gets_file b.id name) λ f. Keeps-bind _ _ (reads _) λ o. Keeps-pure _).at
        w h
  after-IsSound (Request.drop_file bucket name) w h =
      (Keeps-bind _ _ (gets_bucket bucket) λ b.
          Keeps-bind _ _ (deletes IsSound _ (λ d o h. objects-IsSound h o))
            λ u. deletes_file b.id name).at
        w h
  after-IsSound (Request.sign_file bucket name expiry) w h =
      (Keeps-bind _ _ (gets_bucket bucket)
          λ b. Keeps-bind _ _ (gets_file b.id name) λ f. signs _ expiry).at
        w h

  -- From tables that satisfy the constraints of the migrations, and in which every file has a size and
  -- a type that the limits of its bucket admit, every sequence of requests, with calls failing and
  -- time passing in any way, leads to tables of this kind: no upload gets past the limits of its
  -- bucket.
  pub reach-IsSound : (w v : World (Storage O)) → IsSound w.db → Reach w v → IsSound v.db
  reach-IsSound w _ h Reach.start = h
  reach-IsSound w _ h (Reach.request r before) = after-IsSound r _ (reach-IsSound w _ h before)
  reach-IsSound w _ h (Reach.meanwhile now faults before) = reach-IsSound w _ h before
