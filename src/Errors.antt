-- ===== src/Errors.antt =====
-- Go errors as values: the sentinels that the packages declare, the codes of PostgreSQL, messages,
-- and `fmt.Errorf("...: %w", err)`, with `errors.Is`.
use garance.Prelude.{ℕ, String, Bool, false, ◌==◌, nat_eq, string_eq, Str, bytes, ◌++◌, ◌∷◌}

pub data Sentinel : Type 0 where
  -- pgx
  no_rows : Sentinel
  -- services/auth/internal/store
  user_not_found email_already_taken session_not_found token_not_found : Sentinel
  oauth_state_not_found identity_not_found provider_not_found provider_already_exists : Sentinel
  -- services/auth/internal/service
  invalid_credentials user_banned email_not_verified password_required weak_password : Sentinel
  oauth_provider_not_configured oauth_no_email invalid_redirect_uri invalid_oauth_state : Sentinel
  -- services/storage/internal
  bucket_not_found bucket_already_exists file_not_found file_already_exists : Sentinel
  file_too_large mime_type_not_allowed : Sentinel

-- A number for each sentinel: two of them are one error value when their numbers agree.
abbrev pub tag : Sentinel → ℕ
tag Sentinel.no_rows = 0
tag Sentinel.user_not_found = 1
tag Sentinel.email_already_taken = 2
tag Sentinel.session_not_found = 3
tag Sentinel.token_not_found = 4
tag Sentinel.oauth_state_not_found = 5
tag Sentinel.identity_not_found = 6
tag Sentinel.provider_not_found = 7
tag Sentinel.provider_already_exists = 8
tag Sentinel.invalid_credentials = 9
tag Sentinel.user_banned = 10
tag Sentinel.email_not_verified = 11
tag Sentinel.password_required = 12
tag Sentinel.weak_password = 13
tag Sentinel.oauth_provider_not_configured = 14
tag Sentinel.oauth_no_email = 15
tag Sentinel.invalid_redirect_uri = 16
tag Sentinel.invalid_oauth_state = 17
tag Sentinel.bucket_not_found = 18
tag Sentinel.bucket_already_exists = 19
tag Sentinel.file_not_found = 20
tag Sentinel.file_already_exists = 21
tag Sentinel.file_too_large = 22
tag Sentinel.mime_type_not_allowed = 23

pub data Error : Type 0 where
  sentinel : Sentinel → Error
  -- *pgconn.PgError with its Code
  pg : String → Error
  -- any other error, by its message
  failure : String → Error
  wrap : String → Error → Error

-- errors.Is(err, target)
abbrev pub errors_is : Error → Sentinel → Bool
errors_is (Error.sentinel s) target = tag s == tag target
errors_is (Error.pg code) target = false
errors_is (Error.failure message) target = false
errors_is (Error.wrap message e) target = errors_is e target

-- errors.As(err, &pgErr) && pgErr.Code == code
abbrev pub is_pg_code : Error → String → Bool
is_pg_code (Error.sentinel s) code = false
is_pg_code (Error.pg c) code = c == code
is_pg_code (Error.failure message) code = false
is_pg_code (Error.wrap message e) code = is_pg_code e code

-- The SQLSTATE codes that the statements of the stores can raise.
abbrev pub unique_violation : Error
unique_violation = Error.pg "23505"

abbrev pub foreign_key_violation : Error
foreign_key_violation = Error.pg "23503"

-- The text of each, in bytes.
abbrev pub text : Sentinel → Str
text Sentinel.no_rows = bytes "no rows in result set"
text Sentinel.user_not_found = bytes "user not found"
text Sentinel.email_already_taken = bytes "email already taken"
text Sentinel.session_not_found = bytes "session not found"
text Sentinel.token_not_found = bytes "verification token not found"
text Sentinel.oauth_state_not_found = bytes "oauth state not found or expired"
text Sentinel.identity_not_found = bytes "identity not found"
text Sentinel.provider_not_found = bytes "provider not found"
text Sentinel.provider_already_exists = bytes "provider already exists"
text Sentinel.invalid_credentials = bytes "invalid email or password"
text Sentinel.user_banned = bytes "user is banned"
text Sentinel.email_not_verified = bytes "email not verified"
text Sentinel.password_required = bytes "password is required"
text Sentinel.weak_password = bytes "password must be at least 8 characters"
text Sentinel.oauth_provider_not_configured = bytes "OAuth provider not configured or disabled"
text Sentinel.invalid_redirect_uri = bytes "redirect_uri is not allowed"
text Sentinel.invalid_oauth_state = bytes "invalid or expired OAuth state"
text Sentinel.bucket_not_found = bytes "bucket not found"
text Sentinel.bucket_already_exists = bytes "bucket already exists"
text Sentinel.file_not_found = bytes "file not found"
text Sentinel.file_already_exists = bytes "file already exists"
text Sentinel.file_too_large = bytes "file exceeds maximum allowed size"
text Sentinel.mime_type_not_allowed = bytes "file type not allowed"
text Sentinel.oauth_no_email =
    bytes "email is required "
    ++ (226 ∷ 128 ∷ 148 ∷ bytes " please make your email public in your provider settings")

-- err.Error(); the message that the database server adds to its code is not kept.
abbrev pub message : Error → Str
message (Error.sentinel s) = text s
message (Error.pg code) = bytes "ERROR: (SQLSTATE " ++ (bytes code ++ bytes ")")
message (Error.failure m) = bytes m
message (Error.wrap m e) = bytes m ++ (bytes ": " ++ message e)
