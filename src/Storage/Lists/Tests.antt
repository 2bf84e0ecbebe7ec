-- ===== src/Storage/Lists/Tests.antt =====
-- Examples of lists of a bucket's files.
use garance.Prelude.{
  ℕ, Str, bytes, ◌∷◌, [], Bool, true, false, none, List, ◌≡◌, ◌≤◌, refl, length, leb, All, arith,
}
use mathlib.Core.List.{Perm}
use garance.Exec.{World, Result, ok}
use garance.Sql.Order.{select_all}
use garance.Sql.Order.Pages.{IsLiteral}
use garance.Storage.Tables.{ℤ, Bucket, File, Storage}
use garance.Storage.Store.Buckets.{new_bucket}
use garance.Storage.Store.Files.{new_file}
use garance.Storage.Service.{list_files}
use garance.Storage.Tests.{Objects}
use garance.Storage.Lists.{
  has_prefix, sorted, read_pages, IsMatch, list_files-pages, list_files-IsPage,
}

abbrev bucket : Bucket
bucket = new_bucket 1 (bytes "photos") false none [] 0

abbrev file_in : ℕ → ℕ → Str → File
file_in id bucket_id name = new_file id bucket_id name 2 (bytes "text/plain") none 4

abbrev album : Storage Objects
album = record {
  buckets = bucket ∷ new_bucket 2 (bytes "notes") true none [] 0 ∷ [];
  files =
      file_in 3 1 (bytes "cats")
      ∷ file_in 4 2 (bytes "cat")
      ∷ file_in 5 1 (bytes "dog")
      ∷ file_in 6 1 (bytes "cat")
      ∷ [];
  objects = [];
}

abbrev quiet : World (Storage Objects)
quiet = record { db = album; faults = []; now = 9; entropy = λ i. i; drawn = 0 }

-- A collation: the shorter name first.
abbrev shorter : Str → Str → Bool
shorter s t = leb (length s) (length t)

plain_ca : All IsLiteral (bytes "ca")
plain_ca = (
  ((λ e. omega (arith, e)), (λ e. omega (arith, e)), λ e. omega (arith, e)),
  (((λ e. omega (arith, e)), (λ e. omega (arith, e)), λ e. omega (arith, e)), tt),
)

list_files-pages_example :
    (read_pages shorter (bytes "photos") (bytes "ca") 1 2 0 quiet
      ≡ (ok (sorted shorter 1 (bytes "ca") album), quiet))
    × Perm
        (sorted shorter 1 (bytes "ca") album)
        (select_all (has_prefix 1 (bytes "ca")) album.files)
unfolding garance.Sql.select select_all
list_files-pages_example =
    list_files-pages shorter (bytes "photos") (bytes "ca") bucket plain_ca 1 2 quiet refl refl
      (omega arith)

-- The connection is lost after one row.
abbrev shaky : World (Storage Objects)
shaky = record quiet { faults = false ∷ false ∷ true ∷ []; drawn = 1 }

abbrev page : List File
page = file_in 6 1 (bytes "cat") ∷ []

cut : (list_files shorter (bytes "photos") (bytes "ca") (ℤ.pos 5) (ℤ.pos 0) shaky).0 ≡ ok page
unfolding list_files garance.Storage.Store.Files.list_files garance.Storage.Store.Files.select_files
    garance.Storage.Store.Buckets.get_bucket_by_name garance.Exec.catch garance.Exec.call
    garance.Exec.◌>>=◌ garance.Exec.read_rows garance.Sql.select select_all garance.Prelude.sort_by
    garance.Prelude.insert_by garance.Sql.Order.like garance.Sql.Order.some_suffix
cut = refl

list_files-IsPage_example : (length page ≤ 5) × All (IsMatch 1 (bytes "ca")) page
unfolding garance.Sql.select
list_files-IsPage_example =
    list_files-IsPage shorter (bytes "photos") (bytes "ca") bucket plain_ca 5 (ℤ.pos 0) shaky page
      refl cut
