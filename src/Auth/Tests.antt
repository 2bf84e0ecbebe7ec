-- ===== src/Auth/Tests.antt =====
-- Examples that exercise the auth service.
use garance.Prelude.{
  ◌<◌, ◌+◌, arith, Str, bytes, [], ◌∷◌, true, false, Option, none, some, ◌≡◌, ◌≢◌, refl, str_eq,
  ltb, length,
}
use garance.Sql.{select, exists, delete, update}
use garance.Exec.{
  World, Result, ok, call, ◌>>=◌, either, catch, ignore, draw, wrapped, random_bytes,
}
use garance.Auth.Tables.{Db, User, Session, empty_db}
use garance.Auth.Token.{generate_access_token, generate_refresh_token}
use garance.Auth.Crypto.Encoded.{encode_hash, parse_hash}
use garance.Auth.Crypto.Password.{hash_password, hash_password_with_params, verify_password}
use garance.Auth.Crypto.Encrypt.{decrypt}
use garance.Auth.OAuth.{new_provider}
use garance.Auth.OAuth.Client.{request, exchange_code, get_user_profile}
use garance.Auth.Store.Users.{
  create_user, insert_user, get_user_by_email, get_user_by_id, verify_user_email,
}
use garance.Auth.Store.Sessions.{
  create_session, insert_session, get_session_by_refresh_token, revoke_session, is_live,
}
use garance.Auth.Store.Identities.{create_identity, insert_identity, get_identity_by_provider}
use garance.Auth.Store.States.{get_and_consume_oauth_state, new_state}
use garance.Auth.Store.Providers.{
  get_provider, new_provider_row, run_update, build_update, has_name,
}
use garance.Auth.Store.Integrity.Providers.{patch, run_update-eq-patch}
use garance.Auth.Store.Integrity.{IsConsistent}
use garance.Auth.Service.{
  AuthResult, create_token_pair, respond, sign_up, sign_in, refresh_token, sign_out,
}
use garance.Auth.Service.OAuth.{
  oauth_callback, finish_flow, enabled_provider, find_or_create_oauth_user, link_or_create,
  create_oauth_user, create_or_get,
}
use garance.Auth.Service.Reach.{Request, Reach, after, any_request}
use garance.Auth.Service.Reach.Consistent.{after-IsConsistent}
use garance.Auth.Store.Hashed.{AllHashed}
use garance.Auth.Service.Reach.Hashed.{reach-AllHashed}
use garance.Auth.Service.Reach.States.{Consumed}
use garance.Auth.Service.Rotation.{refresh_token-once, sign_out-refuses}
use garance.Auth.Service.Grants.{IsAdmitted, sign_in-IsAdmitted, validate_access_token-sign_in}
use garance.Auth.Service.SignUp.{sign_up-IsAdmitted}
use garance.Auth.Service.Flow.{is_pending_for, oauth_callback-Consumed, oauth_callback-once}
use garance.Auth.Token.{claims_for, validate_access_token}
use garance.Auth.Toy.{
  toy-TokenLaws, toy, toy-HashLaws, toy_tokens, toy_remote, calm, value_or, ok-value_or,
}

abbrev email : Str
email = bytes "ann@x.org"

abbrev password : Str
password = bytes "correct horse"

abbrev no_user : User
no_user = record {
  id = 0;
  email = [];
  encrypted_password = none;
  email_verified = false;
  role = [];
  metadata = [];
  created_at = 0;
  updated_at = 0;
  banned_at = none;
}

abbrev no_result : AuthResult
no_result = record {
  user = no_user;
  token_pair = record { access_token = []; refresh_token = []; expires_in = 0; token_type = [] };
}

empty-IsConsistent : IsConsistent empty_db
empty-IsConsistent = record {
  user_ids = tt;
  emails = tt;
  session_ids = tt;
  refresh_tokens = tt;
  session_users = tt;
  identity_ids = tt;
  accounts = tt;
  identity_users = tt;
  token_ids = tt;
  tokens = tt;
  token_users = tt;
  provider_ids = tt;
  provider_names = tt;
  states = tt;
}

-- Ann signs up.
abbrev start : World Db
start = calm empty_db

abbrev signup : Request
signup = Request.signup email password [] []

abbrev with_ann : World Db
with_ann = after toy toy_remote toy_tokens signup start

with_ann-IsConsistent : IsConsistent with_ann.db
with_ann-IsConsistent = after-IsConsistent toy toy_remote toy_tokens signup start empty-IsConsistent

reach-AllHashed_example : AllHashed toy with_ann.db
reach-AllHashed_example =
    reach-AllHashed toy toy_remote toy_tokens any_request start with_ann tt
      (Reach.request signup refl Reach.start)

abbrev ann : AuthResult
ann = value_or no_result (sign_up toy toy_tokens email password [] [] start).0

signs_up : (sign_up toy toy_tokens email password [] [] start).0 ≡ ok ann
unfolding sign_up hash_password hash_password_with_params random_bytes call ◌>>=◌ wrapped catch
    create_user insert_user draw exists respond create_token_pair generate_access_token
    generate_refresh_token create_session insert_session
signs_up = ok-value_or no_result (sign_up toy toy_tokens email password [] [] start).0 refl

sign_up-IsAdmitted_example :
    (ltb (length password) 8 ≡ false)
    × IsAdmitted toy toy_tokens email password ann
        (sign_up toy toy_tokens email password [] [] start).1.now
        (sign_up toy toy_tokens email password [] [] start).1.db
sign_up-IsAdmitted_example =
    sign_up-IsAdmitted toy toy_tokens email password [] [] start ann toy-HashLaws signs_up

-- She signs in.
abbrev ann_again : AuthResult
ann_again = value_or no_result (sign_in toy toy_tokens email password [] [] with_ann).0

signs_in : (sign_in toy toy_tokens email password [] [] with_ann).0 ≡ ok ann_again
unfolding sign_up hash_password hash_password_with_params random_bytes call ◌>>=◌ wrapped catch
    create_user insert_user draw exists respond create_token_pair generate_access_token
    generate_refresh_token create_session insert_session sign_in get_user_by_email select
    verify_password encode_hash parse_hash garance.Encoding.Split.split
    garance.Encoding.Decimal.format garance.Encoding.Base64.encode_raw
    garance.Encoding.Decimal.scan_literal garance.Encoding.Decimal.scan_int
    garance.Encoding.Decimal.scan_uint garance.Encoding.Base64.decode_raw
    garance.Encoding.Hex.encode
signs_in = ok-value_or no_result (sign_in toy toy_tokens email password [] [] with_ann).0 refl

sign_in-IsAdmitted_example :
    IsAdmitted toy toy_tokens email password ann_again
      (sign_in toy toy_tokens email password [] [] with_ann).1.now
      (sign_in toy toy_tokens email password [] [] with_ann).1.db
sign_in-IsAdmitted_example =
    sign_in-IsAdmitted toy toy_tokens email password [] [] with_ann ann_again signs_in

-- She refreshes her session, and the token is sent a second time an hour later.
abbrev ann_token : Str
ann_token = ann.token_pair.refresh_token

abbrev refreshed : Result AuthResult × World Db
refreshed = refresh_token toy toy_tokens ann_token [] [] with_ann

refreshes : refreshed.0 ≡ ok (value_or no_result refreshed.0)
unfolding sign_up hash_password hash_password_with_params random_bytes call ◌>>=◌ wrapped catch
    create_user insert_user draw exists respond create_token_pair generate_access_token
    generate_refresh_token create_session insert_session refresh_token get_session_by_refresh_token
    select revoke_session update get_user_by_id encode_hash garance.Encoding.Hex.encode
refreshes = ok-value_or no_result refreshed.0 refl

abbrev later : World Db
later = record refreshed.1 { now = 4600; faults = [] }

refresh_token-once_example : (refresh_token toy toy_tokens ann_token [] [] later).0 ≢ ok ann
refresh_token-once_example =
    refresh_token-once toy toy_remote toy_tokens ann_token [] [] [] [] with_ann later
      (value_or no_result refreshed.0) ann with_ann-IsConsistent refreshes
      (Reach.meanwhile 4600 [] Reach.start)

-- She signs out.
abbrev ann_session : Option Session
ann_session = select (is_live ann_token with_ann.now) with_ann.db.sessions

abbrev no_session : Session
no_session = record {
  id = 0;
  user_id = 0;
  refresh_token = [];
  user_agent = none;
  ip_address = none;
  created_at = 0;
  expires_at = 0;
  revoked_at = none;
}

abbrev session_or : Session → Option Session → Session
session_or d none = d
session_or d (some s) = s

finds_session : ann_session ≡ some (session_or no_session ann_session)
unfolding sign_up hash_password hash_password_with_params random_bytes call ◌>>=◌ wrapped catch
    create_user insert_user draw exists respond create_token_pair generate_access_token
    generate_refresh_token create_session insert_session refresh_token get_session_by_refresh_token
    select revoke_session update get_user_by_id encode_hash garance.Encoding.Hex.encode
finds_session = refl

no_faults : with_ann.faults ≡ []
unfolding sign_up hash_password hash_password_with_params random_bytes call ◌>>=◌ wrapped catch
    create_user insert_user draw exists respond create_token_pair generate_access_token
    generate_refresh_token create_session insert_session refresh_token get_session_by_refresh_token
    select revoke_session update get_user_by_id encode_hash garance.Encoding.Hex.encode
no_faults = refl

sign_out-refuses_example :
    (refresh_token toy toy_tokens ann_token [] [] (sign_out ann_token with_ann).1).0 ≢ ok ann
sign_out-refuses_example =
    sign_out-refuses toy toy_remote toy_tokens ann_token [] [] with_ann
      (sign_out ann_token with_ann).1 (session_or no_session ann_session) ann with_ann-IsConsistent
      no_faults finds_session Reach.start

-- A user of Google comes back to the callback.
abbrev flow_db : Db
flow_db = record empty_db {
  providers =
      new_provider_row 1 (bytes "google") (bytes "client") (bytes "AAAAAAAAAAAAAAAA") [] 0 ∷ [];
  oauth_states = new_state (bytes "s1") (bytes "google") (bytes "https://x.org") 900 ∷ [];
}

abbrev flow : World Db
flow = calm flow_db

flow-IsConsistent : IsConsistent flow_db
flow-IsConsistent = record {
  user_ids = tt;
  emails = tt;
  session_ids = tt;
  refresh_tokens = tt;
  session_users = tt;
  identity_ids = tt;
  accounts = tt;
  identity_users = tt;
  token_ids = tt;
  tokens = tt;
  token_users = tt;
  provider_ids = (tt, tt);
  provider_names = (tt, tt);
  states = (tt, tt);
}

abbrev key : Str
key = bytes "0123456789abcdef0123456789abcdef"

abbrev returned : Result (AuthResult × Str) × World Db
returned =
    oauth_callback toy toy_remote toy_tokens (bytes "google") (bytes "code") (bytes "s1")
      (bytes "https://x.org") [] [] key flow

abbrev landing : AuthResult × Str
landing = value_or (no_result, []) returned.0

returns : returned.0 ≡ ok landing
unfolding oauth_callback either get_and_consume_oauth_state ignore catch call ◌>>=◌ delete select
    exists finish_flow enabled_provider get_provider decrypt wrapped new_provider exchange_code
    request get_user_profile find_or_create_oauth_user get_identity_by_provider link_or_create
    get_user_by_email create_oauth_user create_or_get create_user insert_user draw verify_user_email
    update create_identity insert_identity get_user_by_id respond create_token_pair
    generate_access_token generate_refresh_token create_session insert_session random_bytes
    garance.Encoding.Base64.decode_std
returns = ok-value_or (no_result, []) returned.0 refl

oauth_callback-Consumed_example :
    (exists (is_pending_for (bytes "s1") (bytes "google") 1000) flow_db.oauth_states ≡ true)
    × Consumed (bytes "s1") returned.1.db
oauth_callback-Consumed_example =
    oauth_callback-Consumed toy toy_remote toy_tokens (bytes "google") (bytes "code") (bytes "s1")
      (bytes "https://x.org") [] [] key flow landing flow-IsConsistent returns

oauth_callback-once_example :
    (oauth_callback toy toy_remote toy_tokens
      (bytes "google")
      (bytes "code")
      (bytes "s1")
      (bytes "https://x.org")
      []
      []
      key
      returned.1).0
    ≢ ok landing
oauth_callback-once_example =
    oauth_callback-once toy toy_remote toy_tokens (bytes "google") (bytes "code") (bytes "s1")
      (bytes "https://x.org") [] [] key (bytes "google") (bytes "code") (bytes "https://x.org") []
      [] key flow returned.1 landing landing flow-IsConsistent returns Reach.start

-- A provider is switched off and gets new scopes.
run_update-eq-patch_example :
    run_update
      (build_update (bytes "google") none none (some false) (some (bytes "email")))
      950
      flow_db
    ≡ (
      ok (exists (has_name (bytes "google")) flow_db.providers),
      record flow_db {
        providers =
            update
              (has_name (bytes "google"))
              (patch none none (some false) (some (bytes "email")) 950)
              flow_db.providers;
      },
    )
run_update-eq-patch_example =
    run_update-eq-patch (bytes "google") none none (some false) (some (bytes "email")) 950 flow_db

-- Ten minutes later her access token is still good.
answered_at : (sign_in toy toy_tokens email password [] [] with_ann).1.now ≡ 1000
unfolding sign_up hash_password hash_password_with_params random_bytes call ◌>>=◌ wrapped catch
    create_user insert_user draw exists respond create_token_pair generate_access_token
    generate_refresh_token create_session insert_session sign_in get_user_by_email select
    verify_password encode_hash parse_hash garance.Encoding.Split.split
    garance.Encoding.Decimal.format garance.Encoding.Base64.encode_raw
    garance.Encoding.Decimal.scan_literal garance.Encoding.Decimal.scan_int
    garance.Encoding.Decimal.scan_uint garance.Encoding.Base64.decode_raw
    garance.Encoding.Hex.encode
answered_at = refl

in_time : 1600 < (sign_in toy toy_tokens email password [] [] with_ann).1.now + 900
in_time = rw answered_at (omega arith)

validate_access_token-sign_in_example :
    (validate_access_token toy toy_tokens ann_again.token_pair.access_token
      (record with_ann { now = 1600 })).0
    ≡ ok (
        claims_for toy toy_tokens ann_again.user.id [] ann_again.user.role
          (sign_in toy toy_tokens email password [] [] with_ann).1.now)
validate_access_token-sign_in_example =
    validate_access_token-sign_in toy toy_tokens toy-TokenLaws email password [] [] with_ann
      (record with_ann { now = 1600 }) ann_again signs_in in_time
