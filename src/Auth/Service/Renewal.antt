-- ===== src/Auth/Service/Renewal.antt =====
-- That services/auth/internal/service/auth.go renews a session that is live.
mod Tests
use garance.Prelude.{
  ℕ, ◌+◌, Str, bytes, [], Bool, true, false, none, some, ◌≡◌, refl, ◌∷◌, nat_eq, ◌==◌, eq_of_==,
  ==_refl, arith,
}
use garance.Sql.{select, exists}
use garance.Sql.Lookup.{exists-update, select-eq-some, exists-of-select}
use garance.Exec.{World, Result, ok, call, ◌>>=◌, catch, wrapped, draw, random_bytes, bytes_from}
use garance.Encoding.Hex.{encode}
use garance.Auth.Packages.{Packages}
use garance.Auth.Tables.{Db, User, Session}
use garance.Auth.Token.{Manager, claims_for, generate_access_token, generate_refresh_token}
use garance.Auth.Store.Users.{has_id, get_user_by_id}
use garance.Auth.Store.Sessions.{
  is_live, has_session_id, has_refresh_token, revoked_at_time, get_session_by_refresh_token,
  revoke_session, create_session, insert_session, new_session, set_revoked,
}
use garance.Auth.Service.{AuthResult, make_pair, refresh_token, respond, create_token_pair}

module _ {D : Type 0} where
  -- The refresh token and the id of the session that the random source gives next.
  abbrev pub next_token : World D → Str
  next_token w = encode (bytes_from w.entropy w.drawn 32)

  abbrev pub next_id : World D → ℕ
  next_id w = w.entropy (w.drawn + 32)

-- The database after the session is revoked.
abbrev revoked : World Db → Session → Db
revoked w s = (set_revoked s.id w.now w.db).1

inserts :
    (agent ip : Str) (w : World Db) (s : Session) (user : User)
    → select (has_id s.user_id) w.db.users ≡ some user
    → exists (has_session_id (next_id w)) w.db.sessions ≡ false
    → exists (has_refresh_token (next_token w)) w.db.sessions ≡ false
    → insert_session (next_id w) user.id (next_token w) agent ip w.now (revoked w s) ≡ (
      ok (new_session (next_id w) user.id (next_token w) agent ip w.now),
      record (revoked w s) {
        sessions =
            new_session (next_id w) user.id (next_token w) agent ip w.now ∷ (revoked w s).sessions;
      },
    )
unfolding insert_session
inserts agent ip w s user found fresh_id fresh_token =
    rw
      (
        exists-update (has_session_id s.id) (has_session_id (next_id w)) (revoked_at_time w.now)
            w.db.sessions (λ x. refl),
        fresh_id,
        exists-update (has_session_id s.id) (has_refresh_token (next_token w))
            (revoked_at_time w.now) w.db.sessions (λ x. refl),
        fresh_token,
        known_user,
      )
      refl
  where
    known_user : exists (has_id user.id) w.db.users ≡ true
    known_user =
        rw (eq_of_== user.id s.user_id (select-eq-some (has_id s.user_id) w.db.users found))
          (exists-of-select (has_id s.user_id) w.db.users found)

-- The session that the next token gets.
abbrev pub next_session : World Db → User → Str → Str → Session
next_session w user agent ip = new_session (next_id w) user.id (next_token w) agent ip w.now

next_session-is_live :
    (token : Str) (id user_id : ℕ) (agent ip : Str) (t : ℕ)
    → is_live token t (new_session id user_id token agent ip t) ≡ true
next_session-is_live token id user_id agent ip t = rw (==_refl token) (ground arith)

module _ (pkg : Packages) (tokens : Manager) where
  renews :
      (token agent ip access : Str) (w : World Db) (s : Session) (user : User)
      → w.faults ≡ []
      → select (is_live token w.now) w.db.sessions ≡ some s
      → select (has_id s.user_id) w.db.users ≡ some user
      → user.banned_at ≡ none
      → pkg.sign (claims_for pkg tokens user.id [] user.role w.now) tokens.secret ≡ some access
      → exists (has_session_id (next_id w)) w.db.sessions ≡ false
      → exists (has_refresh_token (next_token w)) w.db.sessions ≡ false
      → ((refresh_token pkg tokens token agent ip w).0
          ≡ ok (record { user = user; token_pair = make_pair access (next_token w) }))
        × ((refresh_token pkg tokens token agent ip w).1.db.sessions
            ≡ next_session w user agent ip ∷ (revoked w s).sessions)
  unfolding refresh_token get_session_by_refresh_token revoke_session get_user_by_id respond
      create_token_pair generate_access_token generate_refresh_token create_session call ◌>>=◌ catch
      wrapped draw random_bytes
  renews token agent ip access w s user calm live found free signed fresh_id fresh_token =
      rw (calm, live, found, free, signed, inserts agent ip w s user found fresh_id fresh_token)
        (refl, refl)

  -- Where no call fails, RefreshToken accepts a refresh token that finds a live session of a user who is
  -- not banned, if the access token can be signed and the next token and session id are not in use;
  -- it answers with the user, the signed token and the next refresh token, and that token finds a
  -- live session of the same user in the database that it leaves.
  pub refresh_token-renews :
      (token agent ip access : Str) (w : World Db) (s : Session) (user : User)
      → w.faults ≡ []
      → select (is_live token w.now) w.db.sessions ≡ some s
      → select (has_id s.user_id) w.db.users ≡ some user
      → user.banned_at ≡ none
      → pkg.sign (claims_for pkg tokens user.id [] user.role w.now) tokens.secret ≡ some access
      → exists (has_session_id (next_id w)) w.db.sessions ≡ false
      → exists (has_refresh_token (next_token w)) w.db.sessions ≡ false
      → ((refresh_token pkg tokens token agent ip w).0
          ≡ ok (record { user = user; token_pair = make_pair access (next_token w) }))
        × (select
              (is_live (next_token w) w.now)
              (refresh_token pkg tokens token agent ip w).1.db.sessions
            ≡ some (next_session w user agent ip))
  unfolding select
  refresh_token-renews token agent ip access w s user calm live found free signed fresh_id
        fresh_token =
      let r =
        renews token agent ip access w s user calm live found free signed fresh_id fresh_token in
      (r.0, rw (r.1, next_session-is_live (next_token w) (next_id w) user.id agent ip w.now) refl)
