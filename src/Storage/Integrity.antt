-- ===== src/Storage/Integrity.antt =====
-- The constraints that services/storage/migrations declare, and the limits that a bucket puts on its
-- files (services/storage/internal/service), under each statement of the storage service.
use garance.Prelude.{
  ℕ, Str, Bool, true, false, not, ◌||◌, ◌&&◌, ◌==◌, eq_of_==, ==_refl, ==_false, some, ◌≢◌, sym,
  refl, Option, List, [], ◌∷◌, ◌≡◌, All, All-map, arith, nat_eq, str_eq, pair_eq, Bool-cases, inl,
  inr,
}
use mathlib.Core.Option.{some-injective}
use garance.Sql.{select, exists, delete}
use garance.Sql.Index.{
  IsUnique, IsUnique-delete, All-ne_of_exists, All-delete, All-delete_of, All-select,
}
use garance.Sql.Lookup.{exists-cons}
use garance.Storage.Tables.{ℤ, Bucket, File, Storage}
use garance.Storage.Store.Buckets.{
  has_bucket_id, has_bucket_name, new_bucket, is_file_of, insert_bucket, remove_bucket,
}
use garance.Storage.Service.{is_too_large, is_allowed_type}
use garance.Storage.Store.Files.{has_file_id, is_named, insert_file, remove_file}

abbrev pub place : File → ℕ × Str
place f = (f.bucket_id, f.name)

-- REFERENCES garance_storage.buckets(id)
abbrev pub IsBucket : List Bucket → ℕ → Type 0
IsBucket buckets id = exists (has_bucket_id id) buckets ≡ true

-- A file of that bucket, size and type is one that the bucket admits, if the bucket is this one.
abbrev pub admits : Bucket → ℕ → ℕ → Str → Bool
admits b bucket_id size mime =
    not (b.id == bucket_id)
    || (not (is_too_large size b.max_file_size) && is_allowed_type b.allowed_mime_types mime)

abbrev pub AllAdmit : List Bucket → ℕ → ℕ → Str → Type 0
AllAdmit buckets bucket_id size mime = All (λ b. admits b bucket_id size mime ≡ true) buckets

-- Primary keys, unique columns, the foreign key, and the limits of the buckets.
pub record IsSound {O : Type 0} (d : Storage O) : Type 0 where
  pub bucket_ids : IsUnique (λ (b : Bucket). b.id) d.buckets
  pub bucket_names : IsUnique (λ (b : Bucket). b.name) d.buckets
  pub file_ids : IsUnique (λ (f : File). f.id) d.files
  pub places : IsUnique place d.files
  pub file_buckets : All (λ (f : File). IsBucket d.buckets f.bucket_id) d.files
  pub within_limits : All (λ (f : File). AllAdmit d.buckets f.bucket_id f.size f.mime_type) d.files

-- A bucket with a new id does not bear on the files that are there.
fresh-admits :
    (b : Bucket) (buckets : List Bucket) (bucket_id size : ℕ) (mime : Str)
    → exists (has_bucket_id b.id) buckets ≡ false
    → IsBucket buckets bucket_id
    → admits b bucket_id size mime ≡ true
fresh-admits b buckets bucket_id size mime fresh known = elim (Bool-cases (b.id == bucket_id)) [
  | inl same ↦ cc (eq_of_== b.id bucket_id same)
  | inr other ↦ rw other refl
]

All-both :
    (P Q R : File → Type 0) (fs : List File)
    → ((f : File) → P f → Q f → R f)
    → All P fs
    → All Q fs
    → All R fs
All-both P Q R [] g h k = tt
All-both P Q R (f ∷ fs) g h k = (g f h.0 k.0, All-both P Q R fs g h.1 k.1)

-- A bucket with another name stays when the named one is deleted.
bucket_stays :
    (name : Str) (id : ℕ) (buckets : List Bucket)
    → exists (λ b. has_bucket_name name b && has_bucket_id id b) buckets ≡ false
    → IsBucket buckets id
    → IsBucket (delete (has_bucket_name name) buckets) id
unfolding exists delete
bucket_stays name id [] absent known = known
bucket_stays name id (b ∷ buckets) absent known = ground (arith, bucket_stays name id buckets)

module _ {O : Type 0} {d : Storage O} (h : IsSound d) where
  pub insert_bucket-IsSound :
      (id : ℕ) (name : Str) (is_public : Bool) (max : Option ℤ) (types : List Str) (t : ℕ)
      → IsSound (insert_bucket id name is_public max types t d).1
  unfolding insert_bucket
  insert_bucket-IsSound id name is_public max types t =
      elim (Bool-cases (exists (has_bucket_id id) d.buckets)) [
        | inl e ↦ rw e h
        | inr e ↦ elim (Bool-cases (exists (has_bucket_name name) d.buckets)) [
          | inl f ↦ rw (e, f) h
          | inr f ↦
              rw (e, f)
                (record {
                  bucket_ids =
                      (All-ne_of_exists (λ (b : Bucket). b.id) id d.buckets e, h.bucket_ids);
                  bucket_names =
                      (All-ne_of_exists (λ (b : Bucket). b.name) name d.buckets f, h.bucket_names);
                  file_ids = h.file_ids;
                  places = h.places;
                  file_buckets =
                      All-map _ _ d.files
                        (λ g k.
                          exists-cons (has_bucket_id g.bucket_id)
                            (new_bucket id name is_public max types t) d.buckets k)
                        h.file_buckets;
                  within_limits =
                      All-both _ _ _ d.files
                        (λ g known k. (
                          fresh-admits (new_bucket id name is_public max types t) d.buckets
                              g.bucket_id g.size g.mime_type e known,
                          k,
                        ))
                        h.file_buckets h.within_limits;
                })
        ]
      ]

  pub remove_bucket-IsSound : (name : Str) (t : ℕ) → IsSound (remove_bucket name t d).1
  remove_bucket-IsSound name t = record {
    bucket_ids =
        IsUnique-delete (λ (b : Bucket). b.id) (has_bucket_name name) d.buckets h.bucket_ids;
    bucket_names =
        IsUnique-delete (λ (b : Bucket). b.name) (has_bucket_name name) d.buckets h.bucket_names;
    file_ids =
        IsUnique-delete (λ (f : File). f.id) (is_file_of (has_bucket_name name) d.buckets) d.files
          h.file_ids;
    places = IsUnique-delete place (is_file_of (has_bucket_name name) d.buckets) d.files h.places;
    file_buckets =
        All-delete_of _ _ (is_file_of (has_bucket_name name) d.buckets) d.files
          (λ f other known. bucket_stays name f.bucket_id d.buckets other known) h.file_buckets;
    within_limits = All-delete _ (is_file_of (has_bucket_name name) d.buckets) d.files (
        All-map _ _ d.files (λ f k. All-delete _ (has_bucket_name name) d.buckets k)
          h.within_limits);
  }

  pub insert_file-IsSound :
      (id bucket_id : ℕ) (name : Str) (size : ℕ) (mime : Str) (owner : Option ℕ) (t : ℕ)
      → AllAdmit d.buckets bucket_id size mime
      → IsSound (insert_file id bucket_id name size mime owner t d).1
  unfolding insert_file
  insert_file-IsSound id bucket_id name size mime owner t fits =
      elim (Bool-cases (exists (has_file_id id) d.files)) [
        | inl e ↦ rw e h
        | inr e ↦ elim (Bool-cases (exists (is_named bucket_id name) d.files)) [
          | inl f ↦ rw (e, f) h
          | inr f ↦ elim (Bool-cases (exists (has_bucket_id bucket_id) d.buckets)) [
            | inr g ↦ rw (e, f, g) h
            | inl g ↦
                rw (e, f, g)
                  (record {
                    bucket_ids = h.bucket_ids;
                    bucket_names = h.bucket_names;
                    file_ids = (All-ne_of_exists (λ (x : File). x.id) id d.files e, h.file_ids);
                    places = (All-ne_of_exists place (bucket_id, name) d.files f, h.places);
                    file_buckets = (g, h.file_buckets);
                    within_limits = (fits, h.within_limits);
                  })
          ]
        ]
      ]

  pub remove_file-IsSound :
      (bucket_id : ℕ) (name : Str) (t : ℕ) → IsSound (remove_file bucket_id name t d).1
  remove_file-IsSound bucket_id name t = record {
    bucket_ids = h.bucket_ids;
    bucket_names = h.bucket_names;
    file_ids = IsUnique-delete (λ (f : File). f.id) (is_named bucket_id name) d.files h.file_ids;
    places = IsUnique-delete place (is_named bucket_id name) d.files h.places;
    file_buckets = All-delete _ (is_named bucket_id name) d.files h.file_buckets;
    within_limits = All-delete _ (is_named bucket_id name) d.files h.within_limits;
  }

  -- S3 is not constrained.
  pub objects-IsSound : (o : O) → IsSound (record d { objects = o })
  objects-IsSound o = record {
    bucket_ids = h.bucket_ids;
    bucket_names = h.bucket_names;
    file_ids = h.file_ids;
    places = h.places;
    file_buckets = h.file_buckets;
    within_limits = h.within_limits;
  }

-- The bucket that was found is the only one with its id.
pub select-AllAdmit :
    (p : Bucket → Bool) (buckets : List Bucket) (b : Bucket) (size : ℕ) (mime : Str)
    → IsUnique (λ (x : Bucket). x.id) buckets
    → select p buckets ≡ some b
    → is_too_large size b.max_file_size ≡ false
    → is_allowed_type b.allowed_mime_types mime ≡ true
    → AllAdmit buckets b.id size mime
unfolding select
select-AllAdmit p [] b size mime unique found fits allowed = cc
select-AllAdmit p (c ∷ buckets) b size mime unique found fits allowed = elim (Bool-cases (p c)) [
  | inl here ↦
      let same : c ≡ b = some-injective _ _ (rw here at found) in
      let others : All (λ (x : Bucket). x.id ≢ b.id) buckets = rw same at unique.0 in
      (
        rw same (rw (fits, allowed, ==_refl b.id) refl),
        All-map _ _ buckets (λ x n. rw (==_false x.id b.id n) refl) others,
      )
  | inr further ↦
      let there : select p buckets ≡ some b = rw further at found in
      let other : b.id ≢ c.id = All-select _ p buckets unique.0 there in
      (
        rw (==_false c.id b.id (λ e. other (sym e))) refl,
        select-AllAdmit p buckets b size mime unique.1 there fits allowed,
      )
]

pub insert_file-buckets :
    {O : Type 0} (id bucket_id : ℕ) (name : Str) (size : ℕ) (mime : Str) (owner : Option ℕ) (t : ℕ)
    (d : Storage O)
    → (insert_file id bucket_id name size mime owner t d).1.buckets ≡ d.buckets
unfolding insert_file
insert_file-buckets id bucket_id name size mime owner t d =
    elim (Bool-cases
      (exists (has_file_id id) d.files || exists (is_named bucket_id name) d.files)) [
        | inl taken ↦ rw taken refl
        | inr free ↦ elim (Bool-cases (exists (has_bucket_id bucket_id) d.buckets)) [
          | inl known ↦ rw (free, known) refl
          | inr unknown ↦ rw (free, unknown) refl
        ]
      ]
