-- ===== src/Gateway/Errors.antt =====
-- services/gateway/internal/proxy/helpers.go
use garance.Prelude.{ℕ, Str, bytes, Bool, true, leb, if◌then◌else◌}
use garance.Http.{Response, Problem, problem_of, Handler}
use garance.Http.Status.{Code, Status, Reply, Method, status, refuse}

-- The switch of writeGRPCError on the code; every error of a generated client is a status.
abbrev pub problem_for : Code → Str → Problem
problem_for Code.not_found message = problem_of (bytes "NOT_FOUND") message 404
problem_for Code.invalid_argument message = problem_of (bytes "VALIDATION_ERROR") message 400
problem_for Code.unauthenticated message = problem_of (bytes "UNAUTHORIZED") message 401
problem_for Code.permission_denied message = problem_of (bytes "PERMISSION_DENIED") message 403
problem_for Code.already_exists message = problem_of (bytes "CONFLICT") message 409
problem_for Code.internal message = problem_of (bytes "INTERNAL_ERROR") (bytes "internal error") 500
problem_for Code.unavailable message =
    problem_of (bytes "INTERNAL_ERROR") (bytes "internal error") 500
problem_for Code.resource_exhausted message =
    problem_of (bytes "INTERNAL_ERROR") (bytes "internal error") 500

unfoldable pub write_grpc_error : Status → Problem
write_grpc_error st = problem_for st.code st.message

-- A call of a generated client, and what the proxy writes; where the server is gone, the client
-- reports that it is unavailable.
module _ {A B : Type 0} where
  abbrev pub render : Reply A → (A → Response B) → Response B
  render (Reply.reply a) g = g a
  render (Reply.refusal st) g = Response.problem (write_grpc_error st)
  render Reply.down g = Response.problem (
      write_grpc_error (record { code = Code.unavailable; message = bytes "transport is closing" }))

-- What becomes of a call of a generated client: it gets through, or its request does not reach the
-- service, or the service serves it and the reply is lost (the connection, the deadline, the limits).
pub data Transit : Type 0 where
  through : Transit
  unsent : Transit
  unanswered : Transit

abbrev broken : {A : Type 0} → Reply A
broken = Reply.refusal (status Code.unavailable (bytes "connection error"))

module _ {D A B : Type 0} where
  unfoldable pub forward : Transit → Method D A → (A → Response B) → Handler D B
  forward Transit.through m g w = (render (m w).0 g, (m w).1)
  forward Transit.unsent m g w = (render broken g, w)
  forward Transit.unanswered m g w = (render broken g, (m w).1)

-- What grpc.NewServer and grpc.NewClient without options receive at most: 4 MB in a message.
abbrev pub max_message : ℕ
max_message = 4194304

abbrev pub reply_fits : {A : Type 0} → (A → ℕ) → Reply A → Bool
reply_fits size (Reply.reply a) = leb (size a) max_message
reply_fits size (Reply.refusal st) = true
reply_fits size Reply.down = true

module _ {D A : Type 0} where
  -- The server refuses a request of more bytes before the method sees it.
  unfoldable pub within_request : ℕ → Method D A → Method D A
  within_request size m =
      if leb size max_message
      then m
      else refuse Code.resource_exhausted (bytes "grpc: received message larger than max")

  -- The client refuses a reply of more bytes, which the method has already made.
  unfoldable pub within_reply : (A → ℕ) → Method D A → Method D A
  within_reply size m w =
      if reply_fits size (m w).0
      then m w
      else refuse Code.resource_exhausted (bytes "grpc: received message larger than max") (m w).1
