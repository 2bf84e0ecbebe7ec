-- ===== src/Auth/Store/Integrity/Rows.antt =====
-- The statements on the other tables keep the constraints.
use garance.Prelude.{
  ℕ, Str, Bool, true, Option, List, ◌∷◌, ◌≡◌, refl, All, Bool-cases, inl, inr, nat_eq, str_eq,
  pair_eq,
}
use garance.Sql.{exists, delete, update}
use garance.Sql.Index.{IsUnique, All-ne_of_exists, IsUnique-delete, IsUnique-update, All-update}
use garance.Auth.Tables.{Session, Identity, VerificationToken, OAuthState, Db}
use garance.Auth.Store.Users.{has_id}
use garance.Auth.Store.Sessions.{
  has_session_id, has_refresh_token, new_session, insert_session, revoked_at_time, set_revoked,
  is_open_session_of, set_all_revoked,
}
use garance.Auth.Store.Identities.{
  has_identity_id, has_account, new_identity, insert_identity, with_provider_data,
  set_provider_data,
}
use garance.Auth.Store.Verification.{
  has_token_id, has_token, new_token, insert_token, is_null_or_user, used_at_time, set_used,
}
use garance.Auth.Store.States.{
  has_state, new_state, insert_state, is_expired, remove_expired_states, is_pending, take_state,
}
use garance.Auth.Store.Integrity.{IsUser, IsConsistent, account}

module _ {d : Db} (h : IsConsistent d) where
  -- The invariant with another table of sessions.
  sessions-IsConsistent :
      (rows : List Session)
      → IsUnique (λ (s : Session). s.id) rows
      → IsUnique (λ (s : Session). s.refresh_token) rows
      → All (λ (s : Session). IsUser d.users s.user_id) rows
      → IsConsistent (record d { sessions = rows })
  sessions-IsConsistent rows a b c = record {
    user_ids = h.user_ids;
    emails = h.emails;
    session_ids = a;
    refresh_tokens = b;
    session_users = c;
    identity_ids = h.identity_ids;
    accounts = h.accounts;
    identity_users = h.identity_users;
    token_ids = h.token_ids;
    tokens = h.tokens;
    token_users = h.token_users;
    provider_ids = h.provider_ids;
    provider_names = h.provider_names;
    states = h.states;
  }

  identities-IsConsistent :
      (rows : List Identity)
      → IsUnique (λ (i : Identity). i.id) rows
      → IsUnique account rows
      → All (λ (i : Identity). IsUser d.users i.user_id) rows
      → IsConsistent (record d { identities = rows })
  identities-IsConsistent rows a b c = record {
    user_ids = h.user_ids;
    emails = h.emails;
    session_ids = h.session_ids;
    refresh_tokens = h.refresh_tokens;
    session_users = h.session_users;
    identity_ids = a;
    accounts = b;
    identity_users = c;
    token_ids = h.token_ids;
    tokens = h.tokens;
    token_users = h.token_users;
    provider_ids = h.provider_ids;
    provider_names = h.provider_names;
    states = h.states;
  }

  tokens-IsConsistent :
      (rows : List VerificationToken)
      → IsUnique (λ (v : VerificationToken). v.id) rows
      → IsUnique (λ (v : VerificationToken). v.token) rows
      → All (λ (v : VerificationToken). is_null_or_user v.user_id d.users ≡ true) rows
      → IsConsistent (record d { verification_tokens = rows })
  tokens-IsConsistent rows a b c = record {
    user_ids = h.user_ids;
    emails = h.emails;
    session_ids = h.session_ids;
    refresh_tokens = h.refresh_tokens;
    session_users = h.session_users;
    identity_ids = h.identity_ids;
    accounts = h.accounts;
    identity_users = h.identity_users;
    token_ids = a;
    tokens = b;
    token_users = c;
    provider_ids = h.provider_ids;
    provider_names = h.provider_names;
    states = h.states;
  }

  states-IsConsistent :
      (rows : List OAuthState)
      → IsUnique (λ (s : OAuthState). s.state) rows
      → IsConsistent (record d { oauth_states = rows })
  states-IsConsistent rows a = record {
    user_ids = h.user_ids;
    emails = h.emails;
    session_ids = h.session_ids;
    refresh_tokens = h.refresh_tokens;
    session_users = h.session_users;
    identity_ids = h.identity_ids;
    accounts = h.accounts;
    identity_users = h.identity_users;
    token_ids = h.token_ids;
    tokens = h.tokens;
    token_users = h.token_users;
    provider_ids = h.provider_ids;
    provider_names = h.provider_names;
    states = a;
  }

  pub insert_session-IsConsistent :
      (id user_id : ℕ) (token agent ip : Str) (t : ℕ)
      → IsConsistent (insert_session id user_id token agent ip t d).1
  unfolding insert_session
  insert_session-IsConsistent id user_id token agent ip t =
      elim (Bool-cases (exists (has_session_id id) d.sessions)) [
        | inl e ↦ rw e h
        | inr e ↦ elim (Bool-cases (exists (has_refresh_token token) d.sessions)) [
          | inl f ↦ rw (e, f) h
          | inr f ↦ elim (Bool-cases (exists (has_id user_id) d.users)) [
            | inr g ↦ rw (e, f, g) h
            | inl g ↦
                rw (e, f, g)
                  (sessions-IsConsistent (new_session id user_id token agent ip t ∷ d.sessions)
                    (All-ne_of_exists (λ (s : Session). s.id) id d.sessions e, h.session_ids)
                    (
                      All-ne_of_exists (λ (s : Session). s.refresh_token) token d.sessions f,
                      h.refresh_tokens,
                    )
                    (g, h.session_users))
          ]
        ]
      ]

  sessions_update-IsConsistent :
      (p : Session → Bool) (t : ℕ)
      → IsConsistent (record d { sessions = update p (revoked_at_time t) d.sessions })
  sessions_update-IsConsistent p t =
      let f = revoked_at_time t in
      sessions-IsConsistent (update p f d.sessions)
        (IsUnique-update (λ (s : Session). s.id) p f d.sessions (λ s. refl) h.session_ids)
        (IsUnique-update (λ (s : Session). s.refresh_token) p f d.sessions (λ s. refl)
          h.refresh_tokens)
        (All-update (λ (s : Session). IsUser d.users s.user_id) p f d.sessions (λ s k. k)
          h.session_users)

  pub set_revoked-IsConsistent : (id t : ℕ) → IsConsistent (set_revoked id t d).1
  set_revoked-IsConsistent id t = sessions_update-IsConsistent (has_session_id id) t

  pub set_all_revoked-IsConsistent : (user_id t : ℕ) → IsConsistent (set_all_revoked user_id t d).1
  set_all_revoked-IsConsistent user_id t =
      sessions_update-IsConsistent (is_open_session_of user_id) t

  pub insert_identity-IsConsistent :
      (id user_id : ℕ) (provider name raw : Str) (t : ℕ)
      → IsConsistent (insert_identity id user_id provider name raw t d).1
  unfolding insert_identity
  insert_identity-IsConsistent id user_id provider name raw t =
      elim (Bool-cases (exists (has_identity_id id) d.identities)) [
        | inl e ↦ rw e h
        | inr e ↦ elim (Bool-cases (exists (has_account provider name) d.identities)) [
          | inl f ↦ rw (e, f) h
          | inr f ↦ elim (Bool-cases (exists (has_id user_id) d.users)) [
            | inr g ↦ rw (e, f, g) h
            | inl g ↦
                rw (e, f, g)
                  (identities-IsConsistent
                    (new_identity id user_id provider name raw t ∷ d.identities)
                    (All-ne_of_exists (λ (i : Identity). i.id) id d.identities e, h.identity_ids)
                    (All-ne_of_exists account (provider, name) d.identities f, h.accounts)
                    (g, h.identity_users))
          ]
        ]
      ]

  pub set_provider_data-IsConsistent :
      (provider name raw : Str) (t : ℕ) → IsConsistent (set_provider_data provider name raw t d).1
  set_provider_data-IsConsistent provider name raw t =
      let p = has_account provider name in
      let f = with_provider_data raw t in
      identities-IsConsistent (update p f d.identities)
        (IsUnique-update (λ (i : Identity). i.id) p f d.identities (λ i. refl) h.identity_ids)
        (IsUnique-update account p f d.identities (λ i. refl) h.accounts)
        (All-update (λ (i : Identity). IsUser d.users i.user_id) p f d.identities (λ i k. k)
          h.identity_users)

  pub insert_token-IsConsistent :
      (id : ℕ) (user_id : Option ℕ) (email token type : Str) (ttl t : ℕ)
      → IsConsistent (insert_token id user_id email token type ttl t d).1
  unfolding insert_token
  insert_token-IsConsistent id user_id email token type ttl t =
      elim (Bool-cases (exists (has_token_id id) d.verification_tokens)) [
        | inl e ↦ rw e h
        | inr e ↦ elim (Bool-cases (exists (has_token token) d.verification_tokens)) [
          | inl f ↦ rw (e, f) h
          | inr f ↦ elim (Bool-cases (is_null_or_user user_id d.users)) [
            | inr g ↦ rw (e, f, g) h
            | inl g ↦
                rw (e, f, g)
                  (tokens-IsConsistent
                    (new_token id user_id email token type ttl t ∷ d.verification_tokens)
                    (
                      All-ne_of_exists (λ (v : VerificationToken). v.id) id d.verification_tokens e,
                      h.token_ids,
                    )
                    (
                      All-ne_of_exists (λ (v : VerificationToken). v.token) token
                          d.verification_tokens f,
                      h.tokens,
                    )
                    (g, h.token_users))
          ]
        ]
      ]

  pub set_used-IsConsistent : (id t : ℕ) → IsConsistent (set_used id t d).1
  set_used-IsConsistent id t =
      let p = has_token_id id in
      let f = used_at_time t in
      tokens-IsConsistent (update p f d.verification_tokens)
        (IsUnique-update (λ (v : VerificationToken). v.id) p f d.verification_tokens (λ v. refl)
          h.token_ids)
        (IsUnique-update (λ (v : VerificationToken). v.token) p f d.verification_tokens (λ v. refl)
          h.tokens)
        (All-update (λ (v : VerificationToken). is_null_or_user v.user_id d.users ≡ true) p f
          d.verification_tokens (λ v k. k) h.token_users)

  pub insert_state-IsConsistent :
      (state provider redirect : Str) (t : ℕ)
      → IsConsistent (insert_state state provider redirect t d).1
  unfolding insert_state
  insert_state-IsConsistent state provider redirect t =
      elim (Bool-cases (exists (has_state state) d.oauth_states)) [
        | inl e ↦ rw e h
        | inr e ↦ rw e (
            states-IsConsistent (new_state state provider redirect t ∷ d.oauth_states)
              (All-ne_of_exists (λ (s : OAuthState). s.state) state d.oauth_states e, h.states))
      ]

  pub remove_expired_states-IsConsistent : (t : ℕ) → IsConsistent (remove_expired_states t d).1
  remove_expired_states-IsConsistent t =
      states-IsConsistent (delete (is_expired t) d.oauth_states)
        (IsUnique-delete (λ (s : OAuthState). s.state) (is_expired t) d.oauth_states h.states)

  pub take_state-IsConsistent : (state : Str) (t : ℕ) → IsConsistent (take_state state t d).1
  take_state-IsConsistent state t =
      states-IsConsistent (delete (is_pending state t) d.oauth_states)
        (IsUnique-delete (λ (s : OAuthState). s.state) (is_pending state t) d.oauth_states h.states)
