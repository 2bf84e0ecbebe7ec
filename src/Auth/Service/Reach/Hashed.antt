-- ===== src/Auth/Service/Reach/Hashed.antt =====
-- Stored passwords over everything that the service does.
use garance.Prelude.{
  Str, Bool, ◌≡◌, refl, Option, none, some, [], ltb, length, ◌==◌, nat_eq, str_eq,
}
use garance.Exec.{World, Action}
use garance.Exec.Keeps.{Keeps, Keeps-bind, Keeps-fail, Keeps-random_bytes}
use garance.Exec.Ends.{
  Ends, Ends-bind, Ends-of-Keeps, Ends-pure, Ends-wrapped, Keeps-after, Keeps-test,
}
use garance.Auth.Packages.{Packages}
use garance.Auth.Tables.{Db}
use garance.Auth.Token.{Manager}
use garance.Auth.OAuth.{Remote}
use garance.Auth.Crypto.Encoded.{default_params}
use garance.Auth.Crypto.Password.{hash_password, pure_hash}
use garance.Auth.Service.{get_user, delete_user as service_delete, sign_up}
use garance.Auth.Service.Keeping.{
  StoreKeeps, respond-Keeps, sign_in-Keeps, refresh_token-Keeps, sign_out-Keeps,
}
use garance.Auth.Service.KeepingOAuth.{OAuthStoreKeeps, oauth_authorize-Keeps, oauth_callback-Keeps}
use garance.Auth.Service.Reach.{Request, after, Reach}
use garance.Auth.Store.Hashed.{
  IsHashOf, AllHashed, creates_user, gets_user, deletes_user, creates_session, finds_user,
  gets_session, revokes, verifies, links, gets_identity, updates_identity, gets_provider, consumes,
  creates_state, creates_provider, updates_provider, deletes_provider,
}

module _ (pkg : Packages) where
  store_keeps-AllHashed : StoreKeeps (AllHashed pkg)
  store_keeps-AllHashed = record {
    creates_user = λ email. creates_user pkg email none tt;
    gets_user = gets_user pkg;
    finds_user = finds_user pkg;
    creates_session = creates_session pkg;
    gets_session = gets_session pkg;
    revokes = revokes pkg;
  }

  oauth_store_keeps-AllHashed : OAuthStoreKeeps (AllHashed pkg)
  oauth_store_keeps-AllHashed = record {
    store = store_keeps-AllHashed;
    verifies = verifies pkg;
    links = links pkg;
    gets_identity = gets_identity pkg;
    updates_identity = updates_identity pkg;
    gets_provider = gets_provider pkg;
    consumes = consumes pkg;
  }

  -- HashPassword returns a hash of the password.
  hashes :
      (password : Str)
      → Ends
          (AllHashed pkg)
          (hash_password pkg password)
          (λ text d. AllHashed pkg d × IsHashOf pkg password text)
          (AllHashed pkg)
  unfolding hash_password
  hashes password =
      Ends-bind _ _ (Ends-of-Keeps _ (Keeps-random_bytes default_params.salt_length))
        λ salt. go salt _ refl
    where
      go :
          (salt : Str) (hash : Option Str)
          → pkg.argon2_id_key password salt default_params.iterations default_params.memory
              default_params.parallelism default_params.key_length
            ≡ hash
          → Ends
              (AllHashed pkg)
              (pure_hash pkg default_params salt hash)
              (λ text d. AllHashed pkg d × IsHashOf pkg password text)
              (AllHashed pkg)
      go salt none e = record { at = λ w h. h }
      go salt (some hash) e = Ends-pure _ λ d h. (h, (salt, hash, (e, refl)))

  -- What is known of a value may be used.
  given :
      {A C : Type 0} (m : Action Db A)
      → (C → Keeps (AllHashed pkg) m)
      → Keeps (λ d. AllHashed pkg d × C) m
  given m k = record { at = λ w h. ((k h.1).at w h.0, h.1) }

  module _ (net : Remote) (tokens : Manager) where
    signs_up :
        (email password agent ip : Str)
        → Keeps (AllHashed pkg) (sign_up pkg tokens email password agent ip)
    unfolding sign_up
    signs_up email password agent ip =
        Keeps-test (password == []) _ _ (λ e. Keeps-fail _)
          λ e.
            Keeps-test (ltb (length password) 8) _ _ (λ short. Keeps-fail _)
              λ long.
                Keeps-after _ _ (λ text d h. h.0)
                  (Ends-wrapped "failed to hash password" _ (hashes password))
                  λ text. given _ λ hashed.
                    Keeps-bind _ _ (creates_user pkg email (some text) (password, (long, hashed)))
                      λ user. respond-Keeps pkg tokens store_keeps-AllHashed user agent ip

    after-AllHashed :
        (r : Request) (w : World Db)
        → AllHashed pkg w.db
        → AllHashed pkg (after pkg net tokens r w).db
    unfolding get_user service_delete
    after-AllHashed (Request.signup email password agent ip) w h =
        (signs_up email password agent ip).at w h
    after-AllHashed (Request.signin email password agent ip) w h =
        (sign_in-Keeps pkg tokens store_keeps-AllHashed email password agent ip).at w h
    after-AllHashed (Request.refresh token agent ip) w h =
        (refresh_token-Keeps pkg tokens store_keeps-AllHashed token agent ip).at w h
    after-AllHashed (Request.signout token) w h =
        (sign_out-Keeps store_keeps-AllHashed token).at w h
    after-AllHashed (Request.read_user id) w h = (gets_user pkg id).at w h
    after-AllHashed (Request.remove_account id) w h = (deletes_user pkg id).at w h
    after-AllHashed (Request.authorize name redirect base key) w h =
        (oauth_authorize-Keeps pkg net tokens oauth_store_keeps-AllHashed name redirect base key
            λ state. creates_state pkg state name redirect).at
          w h
    after-AllHashed (Request.callback name code state base agent ip key) w h =
        (oauth_callback-Keeps pkg net tokens oauth_store_keeps-AllHashed name code state base agent
            ip key).at
          w h
    after-AllHashed (Request.add_provider name client_id secret scopes) w h =
        (creates_provider pkg name client_id secret scopes).at w h
    after-AllHashed (Request.change_provider name client_id secret on scopes) w h =
        (updates_provider pkg name client_id secret on scopes).at w h
    after-AllHashed (Request.drop_provider name) w h = (deletes_provider pkg name).at w h

    -- From a database in which every password that is stored is the argon2 hash, with the default
    -- parameters and some salt, of a password of at least 8 bytes, every sequence of requests, with
    -- calls failing and time passing in any way, leads to databases of this kind: no request stores
    -- a password in another form.
    pub reach-AllHashed :
        (allowed : Request → Bool) (w v : World Db)
        → AllHashed pkg w.db
        → Reach pkg net tokens allowed w v
        → AllHashed pkg v.db
    reach-AllHashed allowed w _ h Reach.start = h
    reach-AllHashed allowed w _ h (Reach.request r _ before) =
        after-AllHashed r _ (reach-AllHashed allowed w _ h before)
    reach-AllHashed allowed w _ h (Reach.meanwhile now faults before) =
        reach-AllHashed allowed w _ h before
