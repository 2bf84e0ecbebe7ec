-- ===== src/Auth/Store/Identities.antt =====
-- services/auth/internal/store/identity.go
use garance.Prelude.{ℕ, Str, Bool, ◌||◌, ◌&&◌, ◌∷◌, ◌==◌, nat_eq, str_eq, if◌then◌else◌}
use garance.Errors.{Sentinel, unique_violation, foreign_key_violation}
use garance.Sql.{select, exists, update}
use garance.Exec.{Result, ok, err, Action, statement, call, ◌>>=◌, catch, replace_error, draw}
use garance.Auth.Tables.{Db, Identity}
use garance.Auth.Store.Users.{has_id, row_or_no_rows}

-- UNIQUE (provider, provider_user_id)
abbrev pub has_account : Str → Str → Identity → Bool
has_account provider account i = i.provider == provider && i.provider_user_id == account

abbrev pub has_identity_id : ℕ → Identity → Bool
has_identity_id id i = i.id == id

abbrev pub new_identity : ℕ → ℕ → Str → Str → Str → ℕ → Identity
new_identity id user_id provider account raw t = record {
  id = id;
  user_id = user_id;
  provider = provider;
  provider_user_id = account;
  provider_data = raw;
  created_at = t;
  updated_at = t;
}

unfoldable pub insert_identity : ℕ → ℕ → Str → Str → Str → ℕ → Db → Result Identity × Db
insert_identity id user_id provider account raw t d =
    if exists (has_identity_id id) d.identities
      || exists (has_account provider account) d.identities
    then (err unique_violation, d)
    else if exists (has_id user_id) d.users
    then (
      ok (new_identity id user_id provider account raw t),
      record d { identities = new_identity id user_id provider account raw t ∷ d.identities },
    )
    else (err foreign_key_violation, d)

unfoldable pub create_identity : ℕ → Str → Str → Str → Action Db Identity
unfolding insert_identity
create_identity user_id provider account raw =
    call (draw >>= λ id. statement (insert_identity id user_id provider account raw))

abbrev pub select_identity : Str → Str → ℕ → Db → Result Identity × Db
select_identity provider account t d =
    (row_or_no_rows (select (has_account provider account) d.identities), d)

unfoldable pub get_identity_by_provider : Str → Str → Action Db Identity
get_identity_by_provider provider account =
    catch (call (statement (select_identity provider account)))
      (replace_error Sentinel.no_rows Sentinel.identity_not_found)

abbrev pub with_provider_data : Str → ℕ → Identity → Identity
with_provider_data raw t i = record i { provider_data = raw; updated_at = t }

abbrev pub set_provider_data : Str → Str → Str → ℕ → Db → Result (Unit {0}) × Db
set_provider_data provider account raw t d = (
  ok tt,
  record d {
    identities = update (has_account provider account) (with_provider_data raw t) d.identities;
  },
)

unfoldable pub update_identity_provider_data : Str → Str → Str → Action Db (Unit {0})
update_identity_provider_data provider account raw =
    call (statement (set_provider_data provider account raw))
