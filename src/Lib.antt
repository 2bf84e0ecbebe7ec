-- ===== src/Lib.antt =====
-- Garance: a verification library for the Go services of this repository.
--
-- The auth service keeps users, sessions, linked identities, verification tokens, OAuth providers
-- and OAuth states in PostgreSQL, and answers gRPC and HTTP requests: SignUp, SignIn, RefreshToken, SignOut,
-- GetUser, DeleteUser, OAuthAuthorize, OAuthCallback and the administration of providers.
--
-- Shared modules:
--   Prelude        Boolean tests, equality as an interface, lists, sorting, byte strings
--   Sql            tables as lists of rows, and SELECT, INSERT's tests, UPDATE and DELETE on them;
--                  Sql.Order has LIMIT, OFFSET and LIKE (ORDER BY is Prelude.Sort)
--   Errors         Go errors as values: sentinels, PostgreSQL codes, wrapping, errors.Is
--   Exec           actions: a result (value, error, panic) and a world with the database, the time,
--                  the random source, and which of the calls to come fail; Exec.Keeps has the rules
--                  for invariants, Exec.Yields those for what holds after a call that returned,
--                  Exec.Ends those for both ways to end, Exec.Quiet those for runs in which no
--                  call fails, Exec.Errs those for which errors come back
--   Encoding       hexadecimal, base64, decimal numbers, integers (Encoding.Integer: strconv.Atoi,
--                  strconv.ParseInt, fmt.Sscanf), strings.Split, and url.Values.Encode of
--                  Go's library, as functions on bytes
--
-- The auth service (services/auth/internal):
--   Auth.Tables    the rows of the tables (store/*.go, services/auth/migrations)
--   Auth.Store     store/user.go, session.go, identity.go, verification.go, oauth_state.go and
--                  provider.go: each statement, and the method around it with its error mapping;
--                  Auth.Store.Integrity has the constraints of the tables, Auth.Store.Spent the refresh
--                  tokens that are used up, Auth.Store.Hashed the form of the passwords
--   Auth.Crypto    crypto/password.go (Encoded, Password) and crypto/encrypt.go (Encrypt)
--   Auth.Token     token/jwt.go
--   Auth.OAuth     oauth/provider.go, github.go, gitlab.go and google.go
--   Auth.Service   service/auth.go, and Auth.Service.OAuth service/oauth.go; below it
--                  Keeping and KeepingOAuth (what the store keeps, the service keeps), Reach (the
--                  service as a step relation on worlds, with its invariants), Rotation, Renewal,
--                  Answer, Grants, SignUp and Flow
--   Auth.Grpc      grpcserver/server.go
--   Auth.Handler   handler/handler.go (with Flow for OAuth, Admin for the providers and
--                  Lists for the lists of users and providers) and
--                  handler/middleware.go (Middleware)
--   Auth.Packages, Auth.Toy   what the service uses of other code, and an instance of it
--
-- The storage service (services/storage/internal) keeps buckets and files in PostgreSQL and the
-- contents in S3:
--   Storage.Tables, Storage.Store   store/bucket.go and store/file.go
--   Storage.Objects   s3/client.go, over a parameter that stands for S3
--   Storage.Service   service/storage.go; Storage.Transfer has what an upload stores,
--                  Storage.Refusals the errors that come back, Storage.Lists the pages of a bucket,
--                  Storage.Keys the keys of the objects,
--                  Storage.Integrity and Storage.Reach the constraints of the tables and the limits
--                  of the buckets
--   Storage.Grpc   grpcserver/server.go
--   Storage.Handler   handler/handler.go; Middleware is handler/middleware.go and Routes the routes
--                  behind it and beside it, Storage.Access which requests they refuse
--
-- The gateway (services/gateway/internal) takes HTTP requests and calls the services over gRPC:
--   Gateway.Cors, Gateway.Jwt   middleware/cors.go and middleware/jwt.go; Gateway.Cors.Origins has which
--                  origins are admitted
--   Gateway.Errors, Gateway.AuthProxy   proxy/helpers.go and proxy/auth.go, with
--                  Gateway.Passage for its OAuth routes
--                  A call of a generated client gets through, does not reach the service, or loses its
--                  reply (Gateway.Errors.Transit); a message of more than 4 MB is refused, for the two
--                  messages that carry a file by its encoded size, else as one of these two failures
--   Gateway.StorageProxy, Gateway.EngineProxy   proxy/storage.go and proxy/engine.go
--   Gateway.Agreement, Gateway.Files   the gateway's path beside the own HTTP handlers of the auth and
--                  of the storage service, with Gateway.Carried for what becomes of a call;
--                  Gateway.Callers what the Engine is told of who asks
--
-- The command line tool (cli) migrates and seeds the project's database and writes its files:
--   Cli.Machine    the disk, PostgreSQL and the Engine as the tool sees them (Cli.Folder, Machine.Rules)
--   Cli.Schema, Cli.Db, Cli.Change   internal/schema/compile.go, internal/db/migrate.go and cmd/db.go;
--                  Cli.Migrate, Cli.Change.Safety and Cli.Change.Order have what they do, Cli.Lines and
--                  Cli.Lines.Env how .env.local is read
--   Cli.Templates, Cli.Project, Cli.Compose   internal/project/templates.go and project.go, cmd/init.go,
--                  gen.go and status.go, internal/compose, and cmd/dev.go; Cli.Project.Init what init writes
--
-- Http has the responses of all handlers (handler/response.go of each service), Http.Status the
-- statuses of gRPC.
--
-- A uuid and a time are natural numbers, a time counts seconds, a string is a list of bytes. Columns
-- that the database numbers or dates by itself take the next number of the random source and the
-- time of the world. Every statement and every read of the random source may fail, before it has an
-- effect, as a list of Booleans in the world says; a theorem that needs a call to succeed says so.
-- Loops are structural recursion on lists; only Encoding.Decimal prints a number n with n + 1 rounds of
-- fuel, which is more than it has digits, as its theorems on reading the number back show.
--
-- Parameters: argon2, AES-GCM, golang-jwt, uuid, url.Parse and strings.ToLower (Auth.Packages), the
-- network and encoding/json (Auth.OAuth.Remote), S3 (Storage.Objects.ObjectStore), the Engine
-- (Gateway.EngineProxy.Engine), the HTTP client that passes the OAuth routes on
-- (Gateway.Passage.Client), the collation by which the database sorts names (an argument of the
-- lists), the encoded sizes of protobuf messages (Gateway.StorageProxy.Sizes), and what the command
-- line tool calls (Cli.Machine.Outside).
-- Laws on them are records that a theorem takes.
--
-- Not modelled: the gateway's WebSocket tunnel to the realtime service, DeriveKey, the connection
-- pool and migrations at start (store/db.go), logging, configuration, main programs, contexts
-- and cancellation, transactions (the code uses none), what the command line tool prints
-- and the formatted values in some of its error messages, the Rust engine,
-- the TypeScript, Elixir and dashboard code, and generated protobuf code. Two statements of different
-- requests do not interleave within a request.
pub mod Prelude
pub mod Sql
pub mod Errors
pub mod Exec
pub mod Encoding
pub mod Http
pub mod Auth
pub mod Storage
pub mod Gateway
pub mod Cli
