-- ===== src/Storage/Tables.antt =====
-- The rows of the storage service's tables (services/storage/migrations, and the structs of
-- services/storage/internal/store), beside the objects that S3 keeps. A size is a length in bytes.
pub use garance.Encoding.Integer.{ℤ}
use garance.Prelude.{ℕ, Str, Bool, true, Option, List, ltb}

-- `size > limit` for a size that is not negative
abbrev pub exceeds : ℕ → ℤ → Bool
exceeds size (ℤ.pos limit) = ltb limit size
exceeds size (ℤ.negsuc _) = true

pub record Bucket : Type 0 where
  pub id : ℕ
  pub name : Str
  pub is_public : Bool
  pub max_file_size : Option ℤ
  -- null and the empty array read alike
  pub allowed_mime_types : List Str
  pub created_at : ℕ
  pub updated_at : ℕ

pub record File : Type 0 where
  pub id : ℕ
  pub bucket_id : ℕ
  pub name : Str
  pub size : ℕ
  pub mime_type : Str
  pub owner_id : Option ℕ
  pub metadata : Str
  pub created_at : ℕ
  pub updated_at : ℕ

-- The two tables, and the objects O.
pub record Storage (O : Type 0) : Type 0 where
  pub buckets : List Bucket
  pub files : List File
  pub objects : O
