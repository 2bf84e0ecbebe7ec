-- ===== src/Gateway/Carried.antt =====
-- What becomes of a call of a generated client, beside the same action behind a handler of the service
-- (the proxies of services/gateway/internal/proxy).
use garance.Prelude.{
  ℕ, bytes, Bool, true, false, ◌≡◌, refl, nat_eq, str_eq, leb, Bool-cases, inl, inr,
}
use garance.Exec.{World}
use garance.Http.{Response, status_of}
use garance.Http.Status.{Code, Method, refuse}
use garance.Gateway.Errors.{
  Transit, write_grpc_error, forward, render, within_request, within_reply, reply_fits, max_message,
}

-- The same world, and the second status, changed by k, is the first.
abbrev pub IsSameEnd :
    {D B C : Type 0} → (ℕ → ℕ) → Response B × World D → Response C × World D → Type 0
IsSameEnd k x y = (status_of x.0 ≡ k (status_of y.0)) × (x.1 ≡ y.1)

abbrev pub same : ℕ → ℕ
same n = n

-- The gateway's answer and world x beside those y of a handler of the service, from the world w: as
-- IsSameEnd says where the call gets through, and else the status 500, with the world as it was or,
-- where the reply is lost, as the service has left it.
abbrev pub IsCarried :
    {D B C : Type 0}
    → Transit
    → (ℕ → ℕ)
    → World D
    → Response B × World D
    → Response C × World D
    → Type 0
IsCarried Transit.through k w x y = IsSameEnd k x y
IsCarried Transit.unsent k w x y = (status_of x.0 ≡ 500) × (x.1 ≡ w)
IsCarried Transit.unanswered k w x y = (status_of x.0 ≡ 500) × (x.1 ≡ y.1)

-- A call with a request over the limit does not reach the service.
abbrev pub sent : Bool → Transit → Transit
sent true call = call
sent false call = Transit.unsent

-- A call with a reply over the limit stays without an answer.
abbrev pub received : Bool → Transit → Transit
received true call = call
received false Transit.through = Transit.unanswered
received false Transit.unsent = Transit.unsent
received false Transit.unanswered = Transit.unanswered

module _ {D A B C : Type 0} (k : ℕ → ℕ) (m : Method D A) (g : A → Response B)
    (y : Response C × World D) (w : World D) where
  pub forward-IsCarried :
      (call : Transit)
      → IsSameEnd k (render (m w).0 g, (m w).1) y
      → IsCarried call k w (forward call m g w) y
  unfolding forward write_grpc_error
  forward-IsCarried Transit.through h = h
  forward-IsCarried Transit.unsent h = (refl, refl)
  forward-IsCarried Transit.unanswered h = (refl, h.1)

  pub within_request-IsCarried :
      (size : ℕ) (call : Transit)
      → IsSameEnd k (render (m w).0 g, (m w).1) y
      → IsCarried
          (sent (leb size max_message) call)
          k
          w
          (forward call (within_request size m) g w)
          y
  unfolding forward within_request write_grpc_error
  within_request-IsCarried size call h = elim (Bool-cases (leb size max_message)) [
    | inl fits ↦ rw fits (forward-IsCarried call h)
    | inr over ↦ rw over (refused call)
  ]
    where
      refused :
          (call : Transit)
          → IsCarried Transit.unsent k w
              (forward call
                (refuse Code.resource_exhausted (bytes "grpc: received message larger than max"))
                g
                w)
              y
      refused Transit.through = (refl, refl)
      refused Transit.unsent = (refl, refl)
      refused Transit.unanswered = (refl, refl)

  pub within_reply-IsCarried :
      (size : A → ℕ) (call : Transit)
      → IsSameEnd k (render (m w).0 g, (m w).1) y
      → IsCarried
          (received (reply_fits size (m w).0) call)
          k
          w
          (forward call (within_reply size m) g w)
          y
  unfolding forward within_reply write_grpc_error
  within_reply-IsCarried size call h = go (reply_fits size (m w).0) refl call
    where
      go :
          (b : Bool)
          → reply_fits size (m w).0 ≡ b
          → (call : Transit)
          → IsCarried (received b call) k w (forward call (within_reply size m) g w) y
      go true fits Transit.through = rw fits h
      go true fits Transit.unsent = (refl, refl)
      go true fits Transit.unanswered = rw fits (refl, h.1)
      go false over Transit.through = rw over (refl, h.1)
      go false over Transit.unsent = (refl, refl)
      go false over Transit.unanswered = rw over (refl, h.1)
