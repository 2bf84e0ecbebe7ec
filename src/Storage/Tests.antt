-- ===== src/Storage/Tests.antt =====
-- Examples that exercise the storage service, with a concrete S3.
use garance.Prelude.{
  Str, bytes, false, Option, none, some, List, [], ◌∷◌, ◌≡◌, refl, ◌==◌, str_eq, ==_refl, arith,
  if◌then◌else◌,
}
use mathlib.Core.Path.{subst}
use mathlib.Core.Option.{some-injective}
use garance.Errors.{Error, Sentinel}
use garance.Exec.{World, Result, ok, err}
use garance.Auth.Toy.{value_or, ok-value_or}
use garance.Storage.Tables.{ℤ, File, Storage}
use garance.Storage.Store.Buckets.{new_bucket}
use garance.Storage.Store.Files.{new_file}
use garance.Storage.Objects.{ObjectStore, ObjectLaws, kept_type}
use garance.Storage.Service.{upload, download, object_key}
use garance.Storage.Integrity.{IsSound}
use garance.Storage.Reach.{Request, Reach, after as step, reach-IsSound}
use garance.Storage.Transfer.{IsStored, upload-IsStored, download-upload, upload-taken}

-- Objects by their keys, the newest first.
abbrev pub Objects : Type 0
Objects = List (Str × (Str × Str))

abbrev find_object : Str → Objects → Option (Str × Str)
find_object key [] = none
find_object key ((k, v) ∷ o) = if k == key then some v else find_object key o

abbrev remove_object : Str → Objects → Objects
remove_object key [] = []
remove_object key ((k, v) ∷ o) =
    let rest = remove_object key o in if k == key then rest else (k, v) ∷ rest

abbrev pub list_store : ObjectStore Objects
list_store = record {
  put = λ key content size mime o. some ((key, (content, kept_type mime)) ∷ o);
  find = find_object;
  remove = remove_object;
  presign = λ key expiry o. some key;
}

find-remove_object : (key : Str) (o : Objects) → find_object key (remove_object key o) ≡ none
find-remove_object key [] = refl
find-remove_object key ((k, v) ∷ o) = ground (arith, find-remove_object key o)

pub list_laws : ObjectLaws list_store
list_laws = record {
  find-put = λ key content size mime o p e.
      subst (λ q. find_object key q ≡ some (content, kept_type mime)) (some-injective _ _ e)
        (rw (==_refl key) refl);
  find-remove = find-remove_object;
}

abbrev pub photos : Storage Objects
photos = record {
  buckets = new_bucket 1 (bytes "photos") false (some (ℤ.pos 10)) [] 0 ∷ [];
  files = [];
  objects = [];
}

abbrev pub before : World (Storage Objects)
before = record { db = photos; faults = []; now = 5; entropy = λ i. i; drawn = 7 }

abbrev pub uploaded : Result File × World (Storage Objects)
uploaded =
    upload list_store (bytes "photos") (bytes "a.txt") (1 ∷ 2 ∷ []) 2 (bytes "text/plain") none
      before

abbrev no_file : File
no_file = new_file 0 0 [] 0 [] none 0

abbrev pub file : File
file = value_or no_file uploaded.0

pub uploads : uploaded.0 ≡ ok file
unfolding upload garance.Exec.◌>>=◌ garance.Storage.Store.Buckets.get_bucket_by_name
    garance.Exec.catch garance.Exec.call garance.Sql.select garance.Storage.Service.store_file
    garance.Exec.wrapped garance.Storage.Objects.upload_object
    garance.Storage.Store.Files.create_file garance.Exec.draw garance.Sql.exists
uploads = ok-value_or no_file uploaded.0 refl

upload-IsStored_example :
    IsStored list_store list_laws
      (bytes "photos")
      (bytes "a.txt")
      (1 ∷ 2 ∷ [])
      2
      (bytes "text/plain")
      file
      uploaded.1.db
upload-IsStored_example =
    upload-IsStored list_store list_laws (bytes "photos") (bytes "a.txt") (1 ∷ 2 ∷ []) 2
      (bytes "text/plain") none before file uploads

abbrev pub after : World (Storage Objects)
after = record before { db = uploaded.1.db }

download-upload_example :
    (download list_store (bytes "photos") (bytes "a.txt") after).0 ≡ ok (1 ∷ 2 ∷ [], file)
download-upload_example =
    download-upload list_store list_laws (bytes "photos") (bytes "a.txt") (1 ∷ 2 ∷ []) 2
      (bytes "text/plain") none before after file uploads refl refl

-- The same name again.
abbrev crowded : World (Storage Objects)
crowded = record before {
  db = record photos {
    files = new_file 3 1 (bytes "a.txt") 2 (bytes "text/plain") none 4 ∷ [];
    objects = (bytes "photos/a.txt", (1 ∷ 2 ∷ [], bytes "text/plain")) ∷ [];
  };
}

abbrev again : Result File × World (Storage Objects)
again =
    upload list_store (bytes "photos") (bytes "a.txt") (9 ∷ []) 1 (bytes "text/plain") none crowded

upload-taken_example :
    (again.0 ≡ err (Error.sentinel Sentinel.file_already_exists))
    × (find_object (object_key (bytes "photos") (bytes "a.txt")) again.1.db.objects ≡ none)
unfolding garance.Sql.select garance.Sql.exists
upload-taken_example =
    upload-taken list_store list_laws (bytes "photos") (bytes "a.txt") (9 ∷ []) 1
      (bytes "text/plain") none crowded (new_bucket 1 (bytes "photos") false (some (ℤ.pos 10)) [] 0)
      ((bytes "photos/a.txt", (9 ∷ [], bytes "text/plain")) ∷ crowded.db.objects) refl refl refl
      refl refl refl

-- A bucket is made and a file is put into it.
abbrev nothing : World (Storage Objects)
nothing = record before { db = record { buckets = []; files = []; objects = [] } }

nothing-IsSound : IsSound nothing.db
nothing-IsSound = record {
  bucket_ids = tt;
  bucket_names = tt;
  file_ids = tt;
  places = tt;
  file_buckets = tt;
  within_limits = tt;
}

abbrev make_photos : Request
make_photos = Request.add_bucket (bytes "photos") false (some (ℤ.pos 10)) (bytes "text/plain" ∷ [])

abbrev put_photo : Request
put_photo = Request.put_file (bytes "photos") (bytes "a.txt") (1 ∷ []) 1 (bytes "text/plain") none

reach-IsSound_example : IsSound (step list_store put_photo (step list_store make_photos nothing)).db
reach-IsSound_example =
    reach-IsSound list_store nothing
      (step list_store put_photo (step list_store make_photos nothing)) nothing-IsSound
      (Reach.request put_photo (Reach.request make_photos Reach.start))
