-- ===== src/Auth/Service/Renewal/Tests.antt =====
-- An example of a session that is renewed.
use garance.Prelude.{Str, bytes, [], ◌∷◌, Option, none, some, ◌≡◌, refl}
use garance.Sql.{select}
use garance.Exec.{World, ok}
use garance.Auth.Tables.{Db, User, Session, empty_db}
use garance.Auth.Toy.{toy, toy_tokens, calm}
use garance.Auth.Token.{claims_for}
use garance.Auth.Store.Users.{new_user}
use garance.Auth.Store.Sessions.{is_live, new_session}
use garance.Auth.Service.{make_pair, refresh_token}
use garance.Auth.Service.Renewal.{next_token, next_session, refresh_token-renews}

abbrev ann : User
ann = new_user 4 (bytes "ann@x.org") none 500

abbrev session : Session
session = new_session 6 4 (bytes "token") [] [] 700

abbrev quiet : World Db
quiet = calm (record empty_db { users = ann ∷ []; sessions = session ∷ [] })

abbrev or_empty : {A : Type 0} → A → Option A → A
or_empty d none = d
or_empty d (some a) = a

abbrev access : Str
access =
    or_empty [] (toy.sign (claims_for toy toy_tokens 4 [] (bytes "user") 1000) (bytes "secret"))

refresh_token-renews_example :
    ((refresh_token toy toy_tokens (bytes "token") [] [] quiet).0
      ≡ ok (record { user = ann; token_pair = make_pair access (next_token quiet) }))
    × (select
          (is_live (next_token quiet) 1000)
          (refresh_token toy toy_tokens (bytes "token") [] [] quiet).1.db.sessions
        ≡ some (next_session quiet ann [] []))
unfolding select garance.Sql.exists garance.Encoding.Hex.encode
refresh_token-renews_example =
    refresh_token-renews toy toy_tokens (bytes "token") [] [] access quiet session ann refl refl
      refl refl refl refl refl
