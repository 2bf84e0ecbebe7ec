-- ===== src/Auth/Handler/Pages/Tests.antt =====
-- Examples of pages of users.
use garance.Prelude.{IsSorted, sort_by, bytes, [], ◌∷◌, none, ◌≡◌, refl, take, drop, arith}
use mathlib.Core.List.{Perm}
use garance.Encoding.Decimal.{format}
use garance.Exec.{World}
use garance.Http.{Response}
use garance.Auth.Tables.{Db, empty_db}
use garance.Auth.Toy.{calm}
use garance.Auth.Store.Users.{new_user, newest_first}
use garance.Auth.Handler.Lists.{list_users}
use garance.Auth.Handler.Pages.{list_users-page}

abbrev crowd : World Db
crowd = calm (record empty_db {
  users =
      new_user 1 (bytes "ann@x.org") none 100
      ∷ new_user 2 (bytes "bob@x.org") none 300
      ∷ new_user 3 (bytes "cat@x.org") none 200
      ∷ [];
})

list_users-page_example :
    (list_users (format 2) (format 1) crowd ≡ (
      Response.json 200
          (record { users = take 2 (drop 1 (sort_by newest_first crowd.db.users)); total = 3 }),
      crowd,
    ))
    × Perm (sort_by newest_first crowd.db.users) crowd.db.users
    × IsSorted newest_first (sort_by newest_first crowd.db.users)
list_users-page_example = list_users-page 2 1 crowd (omega arith) (omega arith) refl
