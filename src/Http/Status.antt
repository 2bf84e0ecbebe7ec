-- ===== src/Http/Status.antt =====
-- gRPC statuses (google.golang.org/grpc/codes) as far as the services use them, and the replies of
-- gRPC methods.
use garance.Prelude.{Str}
use garance.Errors.{Error}
use garance.Exec.{Result, World, Action}

pub data Code : Type 0 where
  not_found invalid_argument unauthenticated permission_denied already_exists internal : Code
  -- what the transport itself reports
  unavailable resource_exhausted : Code

pub record Status : Type 0 where
  pub code : Code
  pub message : Str

abbrev pub status : Code → Str → Status
status code message = record { code = code; message = message }

-- A reply, a status, or a panic, from which a gRPC server does not recover.
pub data Reply (A : Type 0) : Type 0 where
  reply : A → Reply A
  refusal : Status → Reply A
  down : Reply A

abbrev pub Method : Type 0 → Type 0 → Type 0
Method D A = World D → Reply A × World D

module _ {D B : Type 0} where
  abbrev pub refuse : Code → Str → Method D B
  refuse code message w = (Reply.refusal (status code message), w)

module _ {D A B : Type 0} where
  abbrev pub conclude : Result A → (Error → Status) → (A → B) → Method D B
  conclude (Result.ok a) f g w = (Reply.reply (g a), w)
  conclude (Result.err e) f g w = (Reply.refusal (f e), w)
  conclude Result.panic f g w = (Reply.down, w)

  -- `result, err := m; if err != nil { return nil, f(err) }; return g(result), nil`
  unfoldable pub answer : Action D A → (Error → Status) → (A → B) → Method D B
  answer m f g w = let (r, v) = m w in conclude r f g v
