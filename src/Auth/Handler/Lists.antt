-- ===== src/Auth/Handler/Lists.antt =====
-- The lists of services/auth/internal/handler/handler.go: users and OAuth providers.
use garance.Prelude.{ℕ, Str, bytes, Bool, List, map}
use garance.Exec.{Action, pure, catch}
use garance.Encoding.Integer.{ℤ, atoi_or}
use garance.Http.{Response, Handler, serve}
use garance.Auth.Packages.{Packages}
use garance.Auth.Tables.{Db, User}
use garance.Auth.Store.Users
use garance.Auth.Store.Providers
use garance.Auth.Handler.Admin.{ProviderResponse, to_provider_response, internal, and_then}

pub record UserList : Type 0 where
  pub users : List User
  pub total : ℕ

-- `count, _ := ...`: the zero value where the count fails
unfoldable pub count_or_zero : Action Db ℕ
unfolding catch Users.count_users
count_or_zero = catch Users.count_users λ e. pure 0

-- The texts of the parameters limit and offset.
unfoldable pub list_users : Str → Str → Handler Db UserList
unfolding Users.list_users serve
list_users limit offset =
    and_then (Users.list_users (atoi_or (ℤ.pos 50) limit) (atoi_or (ℤ.pos 0) offset))
      (internal (bytes "failed to list users"))
      λ users.
        serve count_or_zero (internal (bytes "failed to count users"))
          (λ count. Response.json 200 (record { users = users; total = count }))

unfoldable pub list_providers :
    Packages → (ℕ → Str) → Str → (Str → Str → Bool) → Handler Db (List ProviderResponse)
unfolding Providers.list_providers serve
list_providers pkg print_time key collate =
    serve (Providers.list_providers collate) (internal (bytes "failed to list providers"))
      (λ providers. Response.json 200 (map (to_provider_response pkg print_time key) providers))
