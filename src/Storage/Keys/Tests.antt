-- ===== src/Storage/Keys/Tests.antt =====
-- Examples of keys.
use garance.Prelude.{bytes, ◌≡◌, ◌≢◌, refl, arith}
use garance.Storage.Service.{object_key}
use garance.Storage.Keys.{IsSegment, object_key-ne}

ab-IsSegment : IsSegment (bytes "ab")
ab-IsSegment = ((λ e. omega (arith, e)), ((λ e. omega (arith, e)), tt))

object_key-ne_example : object_key (bytes "ab") (bytes "c/d") ≢ object_key (bytes "ab") (bytes "c")
object_key-ne_example =
    object_key-ne (bytes "ab", bytes "c/d") (bytes "ab", bytes "c") ab-IsSegment ab-IsSegment
      (λ e. cc)

-- With a slash in the name of a bucket, two buckets share a key.
collision : object_key (bytes "ab") (bytes "c/d") ≡ object_key (bytes "ab/c") (bytes "d")
collision = refl
