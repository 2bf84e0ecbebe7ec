-- ===== src/Storage/Keys.antt =====
-- The keys under which services/storage/internal/service/storage.go keeps files in S3.
mod Tests
use garance.Prelude.{
  ℕ, Str, [], ◌∷◌, ◌≡◌, ◌≢◌, refl, sym, ap, ◌∙◌, All, ◌==◌, nat_eq, ==_refl, ==_false,
  if◌then◌else◌,
}
use garance.Storage.Service.{object_key}

-- The bucket and the file of a key whose bucket has no slash.
abbrev bucket_of : Str → Str
bucket_of [] = []
bucket_of (c ∷ key) = let rest = bucket_of key in if c == b'/' then [] else c ∷ rest

abbrev file_of : Str → Str
file_of [] = []
file_of (c ∷ key) = let rest = file_of key in if c == b'/' then key else rest

-- A name without a slash.
abbrev pub IsSegment : Str → Type 0
IsSegment = All (λ c. c ≢ b'/')

bucket_of-object_key :
    (bucket file : Str) → IsSegment bucket → bucket_of (object_key bucket file) ≡ bucket
bucket_of-object_key [] file h = refl
bucket_of-object_key (c ∷ bucket) file h =
    rw (==_false c b'/' h.0) (ap (λ s. c ∷ s) (bucket_of-object_key bucket file h.1))

file_of-object_key :
    (bucket file : Str) → IsSegment bucket → file_of (object_key bucket file) ≡ file
file_of-object_key [] file h = refl
file_of-object_key (c ∷ bucket) file h =
    rw (==_false c b'/' h.0) (file_of-object_key bucket file h.1)

-- Two files that differ in their bucket or in their name are kept under different keys, if the names of
-- their buckets have no slash.
pub object_key-ne :
    (file other : Str × Str)
    → IsSegment file.0
    → IsSegment other.0
    → file ≢ other
    → object_key file.0 file.1 ≢ object_key other.0 other.1
object_key-ne (bucket, name) (bucket', name') h k different e = different λ i. (
  (sym (bucket_of-object_key bucket name h) ∙ ap bucket_of e ∙ bucket_of-object_key bucket' name' k)
      i,
  (sym (file_of-object_key bucket name h) ∙ ap file_of e ∙ file_of-object_key bucket' name' k) i,
)
