-- ===== src/Auth/Handler/Pages.antt =====
-- The pages of users that ListUsers shows (services/auth/internal/handler/handler.go).
mod Tests
use garance.Prelude.{
  IsSorted, sort_by, sort_by-IsSorted, sort_by-perm, ℕ, ◌+◌, ◌*◌, ◌^◌, ◌≤◌, ◌<◌, ◌≡◌, refl, Str,
  List, [], take, drop, length, ◌++◌, arith,
}
use mathlib.Core.List.{Perm}
use garance.Encoding.Decimal.{format}
use garance.Encoding.Integer.{ℤ}
use garance.Encoding.Integer.RoundTrip.{atoi_or-format}
use garance.Exec.{World, call, ◌>>=◌, read_rows, catch}
use garance.Http.{Response, serve}
use garance.Auth.Tables.{Db, User}
use garance.Auth.Store.Users.{newest_first}
use garance.Auth.Store.Users
use garance.Auth.Handler.Lists.{list_users, count_or_zero}

-- On a quiet database, a request for n users from the m-th on, with both numbers printed in decimal and
-- below 2^63, is answered with the users from the m-th on in a list of all users, the newest
-- first, n of them at most, and with the number of all users; nothing changes.
pub list_users-page :
    (n m : ℕ) (w : World Db)
    → n < 2 ^ 63
    → m < 2 ^ 63
    → w.faults ≡ []
    → (list_users (format n) (format m) w ≡ (
      Response.json 200 (record {
        users = take n (drop m (sort_by newest_first w.db.users));
        total = length w.db.users;
      }),
      w,
    ))
      × Perm (sort_by newest_first w.db.users) w.db.users
      × IsSorted newest_first (sort_by newest_first w.db.users)
unfolding list_users Users.list_users serve count_or_zero catch Users.count_users call ◌>>=◌
    read_rows
list_users-page n m w small_n small_m calm = (
  rw (atoi_or-format (ℤ.pos 50) n small_n, atoi_or-format (ℤ.pos 0) m small_m, calm) refl,
  sort_by-perm newest_first w.db.users,
  sort_by-IsSorted newest_first (λ u v h. ground arith) (λ u v x h k. ground arith) w.db.users,
)
