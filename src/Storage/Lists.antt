-- ===== src/Storage/Lists.antt =====
-- ListFiles of services/storage/internal/store/file.go and service/storage.go: the pages of a bucket.
mod Tests
use garance.Prelude.{
  length-sort_by, sort_by, sort_by-All, sort_by-perm, ℕ, zero, suc, ◌+◌, ◌*◌, ◌≤◌, ◌≡◌, refl, ap,
  sym, ◌∙◌, Bool, true, false, ◌||◌, ◌&&◌, Option, some, List, [], ◌∷◌, ◌++◌, Str, ◌==◌, nat_eq,
  str_eq, take, drop, length, All, eq_of_==, ==_refl, arith,
}
use mathlib.Core.List.{Perm}
use mathlib.Core.Path.{subst}
use mathlib.Core.Option.{some-injective}
use garance.Sql.{select}
use garance.Sql.Order.{select_all, limit_offset, like}
use garance.Sql.Order.Pages.{
  starts_with, IsLiteral, like-prefix, length-take, length-take_le, take-append_drop, take-All,
  drop-All, select_all-All, drop-drop, take_all,
}
use garance.Exec.{Result, World, Action, ok, pure, call, ◌>>=◌, catch, read_rows, read_rows_at}
use garance.Exec.Yields.{
  Yields, Yields-bind, Yields-catch, Yields-send, Yields-replace_error, ok-injective,
}
use garance.Auth.Service.Rotation.{row-ok}
use garance.Storage.Tables.{ℤ, Bucket, File, Storage}
use garance.Storage.Store.Buckets.{has_bucket_name, get_bucket_by_name}
use garance.Storage.Store.Files.{is_listed, by_name, select_files}
use garance.Storage.Store.Files
use garance.Storage.Service.{list_files}

-- A file of the bucket whose name starts with the prefix.
abbrev pub has_prefix : ℕ → Str → File → Bool
has_prefix bucket_id prefix f = f.bucket_id == bucket_id && starts_with prefix f.name

pattern_prefix :
    (prefix name : Str)
    → All IsLiteral prefix
    → (prefix == [] || like false (prefix ++ b'%' ∷ []) name) ≡ starts_with prefix name
pattern_prefix [] name h = refl
pattern_prefix (c ∷ prefix) name h = like-prefix (c ∷ prefix) name h

is_listed-has_prefix :
    (bucket_id : ℕ) (prefix : Str)
    → All IsLiteral prefix
    → is_listed bucket_id prefix ≡ has_prefix bucket_id prefix
is_listed-has_prefix bucket_id prefix h i f =
    f.bucket_id == bucket_id && pattern_prefix prefix f.name h i

and_true : (p : Bool) {q : Bool} → (p && q) ≡ true → (p ≡ true) × (q ≡ true)
and_true true e = (refl, e)
and_true false e = cc

pages-append :
    (n j m : ℕ) (files : List File)
    → take n (drop m files) ++ take j (drop (m + n) files) ≡ take (n + j) (drop m files)
pages-append n j m files = rw (← drop-drop n m files) (take-append_drop n j (drop m files))

suc_mul : (k n : ℕ) → suc k * n ≡ n + k * n
suc_mul k n = grind arith

-- A file of this bucket, with the prefix.
abbrev pub IsMatch : ℕ → Str → File → Type 0
IsMatch bucket_id prefix f = (f.bucket_id ≡ bucket_id) × (starts_with prefix f.name ≡ true)

has_prefix-IsMatch :
    (bucket_id : ℕ) (prefix : Str) (f : File)
    → has_prefix bucket_id prefix f ≡ true
    → IsMatch bucket_id prefix f
has_prefix-IsMatch bucket_id prefix f e = (
  eq_of_== f.bucket_id bucket_id (and_true (f.bucket_id == bucket_id) e).0,
  (and_true (f.bucket_id == bucket_id) e).1,
)

-- At most n files, all of them of the bucket.
abbrev IsPage : ℕ → Str → ℕ → List File → Type 0
IsPage bucket_id prefix n files = (length files ≤ n) × All (IsMatch bucket_id prefix) files

IsPage-take :
    (bucket_id : ℕ) (prefix : Str) (n j : ℕ) (files : List File)
    → IsPage bucket_id prefix n files
    → IsPage bucket_id prefix n (take j files)
IsPage-take bucket_id prefix n j files h =
    (omega (arith, length-take_le j files, h.0), take-All (IsMatch bucket_id prefix) j files h.1)

-- The files of a bucket with the prefix, by name.
abbrev pub sorted : {O : Type 0} → (Str → Str → Bool) → ℕ → Str → Storage O → List File
sorted collate bucket_id prefix d =
    sort_by (by_name collate) (select_all (has_prefix bucket_id prefix) d.files)

-- A client that asks for k pages of n files, one after the other.
abbrev pub read_pages :
    {O : Type 0} → (Str → Str → Bool) → Str → Str → ℕ → ℕ → ℕ → Action (Storage O) (List File)
read_pages collate bucket_name prefix n zero m = pure []
read_pages collate bucket_name prefix n (suc k) m =
    list_files collate bucket_name prefix (ℤ.pos n) (ℤ.pos m) >>= λ page.
    read_pages collate bucket_name prefix n k (m + n) >>= λ rest. pure (page ++ rest)

module _ {O : Type 0} (collate : Str → Str → Bool) (bucket_name prefix : Str) (b : Bucket)
    (plain : All IsLiteral prefix) where
  list_files-page :
      (n m : ℕ) (w : World (Storage O))
      → w.faults ≡ []
      → select (has_bucket_name bucket_name) w.db.buckets ≡ some b
      → list_files collate bucket_name prefix (ℤ.pos n) (ℤ.pos m) w
        ≡ (ok (take n (drop m (sorted collate b.id prefix w.db))), w)
  unfolding list_files get_bucket_by_name Files.list_files catch call ◌>>=◌ read_rows
  list_files-page n m w calm found =
      rw (calm, found)
        (ap
          (λ p. (
            ok (take n (drop m (sort_by (by_name collate) (select_all p w.db.files)))),
            record w { faults = [] },
          ))
          (is_listed-has_prefix b.id prefix plain))

  read_pages-take :
      (n k m : ℕ) (w : World (Storage O))
      → w.faults ≡ []
      → select (has_bucket_name bucket_name) w.db.buckets ≡ some b
      → read_pages collate bucket_name prefix n k m w
        ≡ (ok (take (k * n) (drop m (sorted collate b.id prefix w.db))), w)
  unfolding ◌>>=◌
  read_pages-take n zero m w calm found =
      let none_left : 0 ≡ zero * n = omega arith in
      ap (λ j. (ok (take j (drop m (sorted collate b.id prefix w.db))), w)) none_left
  read_pages-take n (suc k) m w calm found =
      rw (list_files-page n m w calm found, read_pages-take n k (m + n) w calm found)
        (ap (λ files. (ok files, w))
          (pages-append n (k * n) m (sorted collate b.id prefix w.db)
            ∙ ap (λ j. take j (drop m (sorted collate b.id prefix w.db))) (sym (suc_mul k n))))

  -- On a quiet database, a client that reads pages of n files until they cover the files of the
  -- bucket whose names start with the prefix, a prefix without the characters `%`, `_` and `\\`, has
  -- every one of these files once, in the order of their names, and has changed nothing.
  pub list_files-pages :
      (n k : ℕ) (w : World (Storage O))
      → w.faults ≡ []
      → select (has_bucket_name bucket_name) w.db.buckets ≡ some b
      → length (select_all (has_prefix b.id prefix) w.db.files) ≤ k * n
      → (read_pages collate bucket_name prefix n k 0 w ≡ (ok (sorted collate b.id prefix w.db), w))
        × Perm (sorted collate b.id prefix w.db) (select_all (has_prefix b.id prefix) w.db.files)
  list_files-pages n k w calm found enough = (
    read_pages-take n k 0 w calm found
        ∙ ap (λ files. (ok files, w))
            (take_all (k * n) (sorted collate b.id prefix w.db) (
              rw (length-sort_by (by_name collate) (select_all (has_prefix b.id prefix) w.db.files))
                enough)),
    sort_by-perm (by_name collate) _,
  )

  abbrev Found : ℕ → Storage O → Type 0
  Found t d = select (has_bucket_name bucket_name) d.buckets ≡ some b

  finds : Yields Found (get_bucket_by_name {O = O} bucket_name) (λ a t d. a ≡ b)
  unfolding get_bucket_by_name
  finds =
      Yields-catch _ _
        (Yields-send _ λ t d a p e.
          some-injective _ _ (sym (row-ok (select (has_bucket_name bucket_name) d.buckets) e) ∙ p))
        (λ e. Yields-replace_error _ _ e)

  abbrev Page : ℕ → List File → ℕ → Storage O → Type 0
  Page n files t d = IsPage b.id prefix n files

  selects :
      (n : ℕ) (offset : ℤ) (t : ℕ) (d : Storage O) (files : List File)
      → (select_files collate b.id prefix (ℤ.pos n) offset t d).0 ≡ ok files
      → Page n files t d
  unfolding select_files
  selects n (ℤ.pos m) t d files e =
      let rows : List File = select_all (is_listed b.id prefix) d.files in
      subst (IsPage b.id prefix n) (ok-injective e) (
        length-take n (drop m (sort_by (by_name collate) rows)),
        take-All _ n _ (
            drop-All _ m _ (
              sort_by-All _ (by_name collate) rows (
                select_all-All _ (is_listed b.id prefix) d.files (λ f h.
                  has_prefix-IsMatch b.id prefix f
                    (sym (ap (λ p. p f) (is_listed-has_prefix b.id prefix plain)) ∙ h))))),
      )
  selects n (ℤ.negsuc m) t d files e = cc

  reads : (n : ℕ) (files : List File) → Yields (Page n files) (read_rows files) (Page n)
  unfolding read_rows
  reads n files = record { at = λ w a p e. go w.faults w a p e }
    where
      go :
          (fs : List Bool) (w : World (Storage O)) (a : List File)
          → IsPage b.id prefix n files
          → (read_rows_at fs files w).0 ≡ ok a
          → IsPage b.id prefix n a
      go [] w a p e = subst (IsPage b.id prefix n) (ok-injective e) p
      go (false ∷ fs) w a p e = subst (IsPage b.id prefix n) (ok-injective e) p
      go (true ∷ fs) w a p e =
          subst (IsPage b.id prefix n) (ok-injective e)
            (IsPage-take b.id prefix n (w.entropy w.drawn) files p)

  lists :
      (n : ℕ) (offset : ℤ)
      → Yields Found (list_files collate bucket_name prefix (ℤ.pos n) offset) (Page n)
  unfolding list_files Files.list_files
  lists n offset = Yields-bind _ _ finds λ c.
      Yields-bind {R = Page n} _ _
        (Yields-send _ λ t d files same e. selects n offset t d files (
          subst (λ x. (select_files collate x.id prefix (ℤ.pos n) offset t d).0 ≡ ok files) same e))
        (reads n)

  -- Whatever fails, a list of files that is returned has at most as many files as were asked for, and
  -- each is a file of the bucket whose name starts with the prefix, if the prefix has none of the
  -- characters `%`, `_` and `\`.
  pub list_files-IsPage :
      (n : ℕ) (offset : ℤ) (w : World (Storage O)) (files : List File)
      → select (has_bucket_name bucket_name) w.db.buckets ≡ some b
      → (list_files collate bucket_name prefix (ℤ.pos n) offset w).0 ≡ ok files
      → (length files ≤ n) × All (IsMatch b.id prefix) files
  list_files-IsPage n offset w files found e = (lists n offset).at w files found e
