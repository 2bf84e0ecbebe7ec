-- ===== src/Auth/Service/SignUp.antt =====
-- Whom SignUp of services/auth/internal/service/auth.go lets in.
use garance.Prelude.{
  ℕ, Str, [], true, false, ◌||◌, ◌<◌, Option, none, some, ◌≡◌, refl, ap, ◌∙◌, ◌==◌, str_eq, ==_refl,
  length, ltb, All, Bool-cases, inl, inr,
}
use mathlib.Core.Path.{subst}
use garance.Sql.{select, exists}
use garance.Exec.{World, ok, random_bytes}
use garance.Exec.Runs.{bytes_from-All}
use garance.Exec.Yields.{
  Yields, Yields-bind, Yields-catch, Yields-insert, Yields-wrapped, Yields-if, Yields-pure,
  Yields-fail, Yields-crash, Yields-raise, Yields-call, Yields-weaken, ok-injective,
}
use garance.Auth.Packages.{Packages, HashLaws}
use garance.Auth.Tables.{Db, User}
use garance.Auth.Token.{Manager}
use garance.Auth.Crypto.Encoded.{default_params}
use garance.Auth.Crypto.Password.{
  hash_password, hash_password_with_params, pure_hash, verify_password, verify_password-encode_hash,
}
use garance.Auth.Store.Users.{has_id, has_email, create_user, insert_user, is_duplicate_key}
use garance.Auth.Service.{AuthResult, sign_up}
use garance.Auth.Service.Grants.{IsAdmitted, Checked, admits}
use garance.Auth.Service.Answer.{refused}

draws_bytes :
    {P : ℕ → Db → Type 0} (n : ℕ) → Yields P (random_bytes n) (λ salt t d. All (λ b. b < 256) salt)
unfolding random_bytes
draws_bytes n = Yields-call _ (record {
  at = λ w a p e. subst (All (λ b. b < 256)) (ok-injective e) (bytes_from-All w.entropy w.drawn n);
})

module _ (pkg : Packages) (laws : HashLaws pkg) where
  hashes_with :
      (password salt : Str) (o : Option Str)
      → pkg.argon2_id_key password salt 3 65536 2 32 ≡ o
      → Yields
          (λ t d. All (λ b. b < 256) salt)
          (pure_hash {D = Db} pkg default_params salt o)
          (λ e t d. verify_password pkg password e ≡ ok true)
  hashes_with password salt none h = Yields-crash
  hashes_with password salt (some hash) h = Yields-pure _ λ t d bs.
      verify_password-encode_hash pkg password salt hash bs
        (laws.hash-bytes password salt 3 65536 2 32 hash h)
        (rw (laws.length-hash password salt 3 65536 2 32 hash h) h)
      ∙ ap ok (==_refl hash)

  hashes :
      (password : Str)
      → Yields {D = Db}
          (λ t d. Unit)
          (hash_password pkg password)
          (λ e t d. verify_password pkg password e ≡ ok true)
  unfolding hash_password hash_password_with_params
  hashes password = Yields-bind _ _ (draws_bytes 16) λ salt. hashes_with password salt _ refl

module _ (pkg : Packages) (tokens : Manager) where
  insert_user-Checked :
      (id : ℕ) (email password hash : Str) (t : ℕ) (d : Db) (user : User)
      → verify_password pkg password hash ≡ ok true
      → (insert_user id email (some hash) t d).0 ≡ ok user
      → Checked pkg tokens email password user (insert_user id email (some hash) t d).1.users
  unfolding insert_user select
  insert_user-Checked id email password hash t d user v e =
      elim (Bool-cases (exists (has_id id) d.users || exists (has_email email) d.users)) [
        | inl taken ↦ absurd (refused (rw (taken, insert_user) at e))
        | inr free ↦
            subst
              (λ u.
                Checked pkg tokens email password u (insert_user id email (some hash) t d).1.users)
              (ok-injective (rw (free, insert_user) at e))
              (rw (free, ==_refl email) ((refl, refl), (hash, (refl, v))))
      ]

  creates :
      (email password hash : Str)
      → Yields
          (λ t d. verify_password pkg password hash ≡ ok true)
          (create_user email (some hash))
          (λ user t d. Checked pkg tokens email password user d.users)
  unfolding create_user
  creates email password hash =
      Yields-catch _ _
        (Yields-insert _ λ id t d user v e. insert_user-Checked id email password hash t d user v e)
        λ e. Yields-if (is_duplicate_key e) _ _ (λ _. Yields-fail _) (λ _. Yields-raise e)

  signs_up :
      (email password agent ip : Str)
      → HashLaws pkg
      → Yields
          (λ t d. Unit)
          (sign_up pkg tokens email password agent ip)
          (λ r t d. (ltb (length password) 8 ≡ false) × IsAdmitted pkg tokens email password r t d)
  unfolding sign_up
  signs_up email password agent ip laws =
      Yields-if (password == []) _ _ (λ _. Yields-fail _)
        λ _.
          Yields-if (ltb (length password) 8) _ _ (λ _. Yields-fail _)
            λ long.
              Yields-weaken _ (λ t d h. h) (λ r t d h. (long, h))
                (Yields-bind _ _
                  (Yields-wrapped "failed to hash password" _ (hashes pkg laws password))
                  λ hash.
                    Yields-bind _ _ (creates email password hash)
                      λ user. admits pkg tokens email password user agent ip)

  -- If argon2 yields as many bytes as it is asked for and SignUp accepts a request, then the
  -- password has at least 8 bytes, and the answer holds, at the time and in the database that SignUp
  -- leaves, what SignIn would make sure of: the address is that of a user who is not banned and whose
  -- stored hash verifies the password, with a live session of that user under the refresh token and
  -- an access token signed over the user's id and role.
  pub sign_up-IsAdmitted :
      (email password agent ip : Str) (w : World Db) (r : AuthResult)
      → HashLaws pkg
      → (sign_up pkg tokens email password agent ip w).0 ≡ ok r
      → (ltb (length password) 8 ≡ false)
        × IsAdmitted pkg tokens email password r
            (sign_up pkg tokens email password agent ip w).1.now
            (sign_up pkg tokens email password agent ip w).1.db
  sign_up-IsAdmitted email password agent ip w r laws e =
      (signs_up email password agent ip laws).at w r tt e
