-- ===== src/Auth/Store/Integrity/Providers.antt =====
-- The UPDATE that UpdateProvider assembles, against a description of it by columns; the
-- statements on providers keep the constraints.
use garance.Prelude.{
  ℕ, Str, Bool, Option, none, some, List, ◌∷◌, ◌≡◌, refl, arith, Bool-cases, inl, inr, nat_eq,
  str_eq, true,
}
use garance.Sql.{exists, delete, update}
use garance.Sql.Index.{IsUnique, All-ne_of_exists, IsUnique-delete, IsUnique-update}
use garance.Exec.{ok}
use garance.Auth.Tables.{OAuthProvider, Db}
use mathlib.Core.Path.{fun_ext}
use garance.Auth.Store.Providers.{
  Arg, has_name, has_provider_id, new_provider_row, insert_provider, build_update, placeholder,
  is_well_typed, apply_update, run_update, remove_provider,
}
use garance.Auth.Store.Integrity.{IsConsistent}

-- COALESCE(given, old)
abbrev pub given_or {ℓ} : {A : Type ℓ} → Option A → A → A
given_or none old = old
given_or (some new) old = new

-- What UpdateProvider is for: each value that is given replaces its column.
abbrev pub patch :
    Option Str → Option Str → Option Bool → Option Str → ℕ → OAuthProvider → OAuthProvider
patch id secret on scope t p = record p {
  client_id = given_or id p.client_id;
  client_secret_encrypted = given_or secret p.client_secret_encrypted;
  enabled = given_or on p.enabled;
  scopes = given_or scope p.scopes;
  updated_at = t;
}

module _ (name : Str) where
  apply_update-eq-patch :
      (id secret : Option Str) (on : Option Bool) (scope : Option Str) (t : ℕ) (p : OAuthProvider)
      → apply_update (build_update name id secret on scope) t p ≡ patch id secret on scope t p
  apply_update-eq-patch id secret on scope t p = ground arith

  where_placeholder :
      (id secret : Option Str) (on : Option Bool) (scope : Option Str)
      → let q = build_update name id secret on scope in
        placeholder q.arg_idx q.args ≡ some (Arg.text name)
  where_placeholder id secret on scope = ground arith

  is_well_typed-build_update :
      (id secret : Option Str) (on : Option Bool) (scope : Option Str)
      → is_well_typed (build_update name id secret on scope) ≡ true
  is_well_typed-build_update id secret on scope = ground arith

  -- The assembled statement does what the method promises, whichever of its four values are given:
  -- in the row of that provider it replaces the given columns and the time of the update, no other
  -- row changes, and it reports whether there was such a row.
  pub run_update-eq-patch :
      (id secret : Option Str) (on : Option Bool) (scope : Option Str) (t : ℕ) (d : Db)
      → run_update (build_update name id secret on scope) t d ≡ (
        ok (exists (has_name name) d.providers),
        record d { providers = update (has_name name) (patch id secret on scope t) d.providers },
      )
  run_update-eq-patch id secret on scope t d = rw (
    is_well_typed-build_update id secret on scope,
    where_placeholder id secret on scope,
    fun_ext (apply_update-eq-patch id secret on scope t),
  )

module _ {d : Db} (h : IsConsistent d) where
  providers-IsConsistent :
      (rows : List OAuthProvider)
      → IsUnique (λ (p : OAuthProvider). p.id) rows
      → IsUnique (λ (p : OAuthProvider). p.provider) rows
      → IsConsistent (record d { providers = rows })
  providers-IsConsistent rows a b = record {
    user_ids = h.user_ids;
    emails = h.emails;
    session_ids = h.session_ids;
    refresh_tokens = h.refresh_tokens;
    session_users = h.session_users;
    identity_ids = h.identity_ids;
    accounts = h.accounts;
    identity_users = h.identity_users;
    token_ids = h.token_ids;
    tokens = h.tokens;
    token_users = h.token_users;
    provider_ids = a;
    provider_names = b;
    states = h.states;
  }

  pub insert_provider-IsConsistent :
      (id : ℕ) (name client secret scopes : Str) (t : ℕ)
      → IsConsistent (insert_provider id name client secret scopes t d).1
  unfolding insert_provider
  insert_provider-IsConsistent id name client secret scopes t =
      elim (Bool-cases (exists (has_provider_id id) d.providers)) [
        | inl e ↦ rw e h
        | inr e ↦ elim (Bool-cases (exists (has_name name) d.providers)) [
          | inl f ↦ rw (e, f) h
          | inr f ↦
              rw (e, f)
                (providers-IsConsistent
                  (new_provider_row id name client secret scopes t ∷ d.providers)
                  (All-ne_of_exists (λ (p : OAuthProvider). p.id) id d.providers e, h.provider_ids)
                  (
                    All-ne_of_exists (λ (p : OAuthProvider). p.provider) name d.providers f,
                    h.provider_names,
                  ))
        ]
      ]

  pub run_update-IsConsistent :
      (name : Str) (id secret : Option Str) (on : Option Bool) (scope : Option Str) (t : ℕ)
      → IsConsistent (run_update (build_update name id secret on scope) t d).1
  run_update-IsConsistent name id secret on scope t =
      let p = has_name name in
      let f = patch id secret on scope t in
      rw (run_update-eq-patch name id secret on scope t d) (
        providers-IsConsistent (update p f d.providers)
          (IsUnique-update (λ (r : OAuthProvider). r.id) p f d.providers (λ r. refl) h.provider_ids)
          (IsUnique-update (λ (r : OAuthProvider). r.provider) p f d.providers (λ r. refl)
            h.provider_names))

  pub remove_provider-IsConsistent :
      (name : Str) (t : ℕ) → IsConsistent (remove_provider name t d).1
  remove_provider-IsConsistent name t =
      let p = has_name name in
      providers-IsConsistent (delete p d.providers)
        (IsUnique-delete (λ (r : OAuthProvider). r.id) p d.providers h.provider_ids)
        (IsUnique-delete (λ (r : OAuthProvider). r.provider) p d.providers h.provider_names)
