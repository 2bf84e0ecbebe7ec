-- ===== src/Auth/Store/Integrity/Accounts.antt =====
-- The statements on users keep the constraints, those of the tables that refer to users too.
use garance.Prelude.{
  ℕ, Str, Bool, true, false, Option, none, some, List, ◌∷◌, ◌≡◌, refl, All-map, arith, Bool-cases,
  inl, inr, ◌==◌, nat_eq, str_eq,
}
use garance.Sql.{exists, delete, update}
use garance.Sql.Index.{All-ne_of_exists, IsUnique-delete, IsUnique-update, All-delete_of}
use garance.Sql.Lookup.{exists-delete_disjoint, exists-update, exists-cons}
use garance.Auth.Tables.{User, Session, Identity, VerificationToken, Db}
use garance.Auth.Store.Users.{
  has_id, has_email, new_user, insert_user, verified_at, with_password, set_email_verified,
  set_password, remove_user, session_of, identity_of, token_of, is_owner,
}
use garance.Auth.Store.Verification.{is_null_or_user}
use garance.Auth.Store.Integrity.{IsUser, IsConsistent, account}

IsUser-cons : (u : User) (users : List User) (id : ℕ) → IsUser users id → IsUser (u ∷ users) id
IsUser-cons u users id h = exists-cons (has_id id) u users h

null_or_user-cons :
    (u : User) (users : List User) (id : Option ℕ)
    → is_null_or_user id users ≡ true
    → is_null_or_user id (u ∷ users) ≡ true
null_or_user-cons u users none h = refl
null_or_user-cons u users (some id) h = IsUser-cons u users id h

IsUser-update :
    (p : User → Bool) (f : User → User) (users : List User) (id : ℕ)
    → ((u : User) → (f u).id ≡ u.id)
    → IsUser users id
    → IsUser (update p f users) id
IsUser-update p f users id k h = rw (exists-update p (has_id id) f users (λ u. ap_id u)) h
  where
    ap_id : (u : User) → has_id id (f u) ≡ has_id id u
    ap_id u = rw (k u)

IsUser-delete :
    (gone : ℕ) (users : List User) (id : ℕ)
    → (id == gone) ≡ false
    → IsUser users id
    → IsUser (delete (has_id gone) users) id
IsUser-delete gone users id ne h =
    rw (exists-delete_disjoint (has_id gone) (has_id id) users (λ u. ground arith)) h

null_or_user-update :
    (p : User → Bool) (f : User → User) (users : List User) (id : Option ℕ)
    → ((u : User) → (f u).id ≡ u.id)
    → is_null_or_user id users ≡ true
    → is_null_or_user id (update p f users) ≡ true
null_or_user-update p f users none k h = refl
null_or_user-update p f users (some id) k h = IsUser-update p f users id k h

null_or_user-delete :
    (gone : ℕ) (users : List User) (id : Option ℕ)
    → is_owner gone id ≡ false
    → is_null_or_user id users ≡ true
    → is_null_or_user id (delete (has_id gone) users) ≡ true
null_or_user-delete gone users none ne h = refl
null_or_user-delete gone users (some id) ne h = IsUser-delete gone users id ne h

module _ {d : Db} (h : IsConsistent d) where
  pub insert_user-IsConsistent :
      (id : ℕ) (email : Str) (pw : Option Str) (t : ℕ)
      → IsConsistent (insert_user id email pw t d).1
  unfolding insert_user
  insert_user-IsConsistent id email pw t = elim (Bool-cases (exists (has_id id) d.users)) [
    | inl e ↦ rw e h
    | inr e ↦ elim (Bool-cases (exists (has_email email) d.users)) [
      | inl f ↦ rw (e, f) h
      | inr f ↦
          let u = new_user id email pw t in
          rw (e, f)
            (record {
              user_ids = (All-ne_of_exists (λ (r : User). r.id) id d.users e, h.user_ids);
              emails = (All-ne_of_exists (λ (r : User). r.email) email d.users f, h.emails);
              session_ids = h.session_ids;
              refresh_tokens = h.refresh_tokens;
              session_users =
                  All-map (λ (s : Session). IsUser d.users s.user_id) _ d.sessions
                    (λ s. IsUser-cons u d.users s.user_id) h.session_users;
              identity_ids = h.identity_ids;
              accounts = h.accounts;
              identity_users =
                  All-map (λ (s : Identity). IsUser d.users s.user_id) _ d.identities
                    (λ s. IsUser-cons u d.users s.user_id) h.identity_users;
              token_ids = h.token_ids;
              tokens = h.tokens;
              token_users =
                  All-map (λ (v : VerificationToken). is_null_or_user v.user_id d.users ≡ true) _
                    d.verification_tokens (λ s. null_or_user-cons u d.users s.user_id)
                    h.token_users;
              provider_ids = h.provider_ids;
              provider_names = h.provider_names;
              states = h.states;
            })
    ]
  ]

  -- An UPDATE of users that leaves ids and emails alone.
  users_update-IsConsistent :
      (p : User → Bool) (f : User → User)
      → ((u : User) → (f u).id ≡ u.id)
      → ((u : User) → (f u).email ≡ u.email)
      → IsConsistent (record d { users = update p f d.users })
  users_update-IsConsistent p f ki ke = record {
    user_ids = IsUnique-update (λ (r : User). r.id) p f d.users ki h.user_ids;
    emails = IsUnique-update (λ (r : User). r.email) p f d.users ke h.emails;
    session_ids = h.session_ids;
    refresh_tokens = h.refresh_tokens;
    session_users =
        All-map (λ (s : Session). IsUser d.users s.user_id) _ d.sessions
          (λ s. IsUser-update p f d.users s.user_id ki) h.session_users;
    identity_ids = h.identity_ids;
    accounts = h.accounts;
    identity_users =
        All-map (λ (s : Identity). IsUser d.users s.user_id) _ d.identities
          (λ s. IsUser-update p f d.users s.user_id ki) h.identity_users;
    token_ids = h.token_ids;
    tokens = h.tokens;
    token_users =
        All-map (λ (v : VerificationToken). is_null_or_user v.user_id d.users ≡ true) _
          d.verification_tokens (λ v. null_or_user-update p f d.users v.user_id ki) h.token_users;
    provider_ids = h.provider_ids;
    provider_names = h.provider_names;
    states = h.states;
  }

  pub set_email_verified-IsConsistent : (id t : ℕ) → IsConsistent (set_email_verified id t d).1
  set_email_verified-IsConsistent id t =
      users_update-IsConsistent (has_id id) (verified_at t) (λ u. refl) (λ u. refl)

  pub set_password-IsConsistent :
      (id : ℕ) (pw : Str) (t : ℕ) → IsConsistent (set_password id pw t d).1
  set_password-IsConsistent id pw t =
      users_update-IsConsistent (has_id id) (with_password pw t) (λ u. refl) (λ u. refl)

  pub remove_user-IsConsistent : (id t : ℕ) → IsConsistent (remove_user id t d).1
  remove_user-IsConsistent id t = record {
    user_ids = IsUnique-delete (λ (r : User). r.id) (has_id id) d.users h.user_ids;
    emails = IsUnique-delete (λ (r : User). r.email) (has_id id) d.users h.emails;
    session_ids = IsUnique-delete (λ (s : Session). s.id) (session_of id) d.sessions h.session_ids;
    refresh_tokens =
        IsUnique-delete (λ (s : Session). s.refresh_token) (session_of id) d.sessions
          h.refresh_tokens;
    session_users =
        All-delete_of (λ (s : Session). IsUser d.users s.user_id) _ (session_of id) d.sessions
          (λ s. IsUser-delete id d.users s.user_id) h.session_users;
    identity_ids =
        IsUnique-delete (λ (i : Identity). i.id) (identity_of id) d.identities h.identity_ids;
    accounts = IsUnique-delete account (identity_of id) d.identities h.accounts;
    identity_users =
        All-delete_of (λ (s : Identity). IsUser d.users s.user_id) _ (identity_of id) d.identities
          (λ s. IsUser-delete id d.users s.user_id) h.identity_users;
    token_ids =
        IsUnique-delete (λ (v : VerificationToken). v.id) (token_of id) d.verification_tokens
          h.token_ids;
    tokens =
        IsUnique-delete (λ (v : VerificationToken). v.token) (token_of id) d.verification_tokens
          h.tokens;
    token_users =
        All-delete_of (λ (v : VerificationToken). is_null_or_user v.user_id d.users ≡ true) _
          (token_of id) d.verification_tokens (λ v. null_or_user-delete id d.users v.user_id)
          h.token_users;
    provider_ids = h.provider_ids;
    provider_names = h.provider_names;
    states = h.states;
  }
