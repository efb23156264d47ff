-- ===== src/ResponseQueue.antt =====
-- `ResponseQueue` of backend/include/response_queue.hpp: a `std::queue` behind a mutex, with a flag.
-- A method is one step, and the loop of `pop` gives the mutex up while it waits.
use concurrent_banking_syste.Prelude.{Bool, false, true, List, [], ◌∷◌, ◌++◌, if◌then◌else◌}
use concurrent_banking_syste.RequestQueue.{Popped, waits, returns_false, returns_true}
use concurrent_banking_syste.Requests.{TransactionResponse}

pub record ResponseQueue : Type 0 where
  pub queue : List TransactionResponse
  pub shutting_down : Bool

abbrev pub new : ResponseQueue
new = record { queue = []; shutting_down = false }

unfoldable pub push : TransactionResponse → ResponseQueue → ResponseQueue
push resp rq = if rq.shutting_down then rq else record rq { queue = rq.queue ++ resp ∷ [] }

-- One round of the loop of `pop`.
unfoldable pub pop : ResponseQueue → Popped TransactionResponse × ResponseQueue
pop rq = elim rq.queue [
  | [] ↦ (if rq.shutting_down then returns_false else waits, rq)
  | resp ∷ rest ↦ (returns_true resp, record rq { queue = rest })
]

unfoldable pub shutdown : ResponseQueue → ResponseQueue
shutdown rq = record rq { shutting_down = true }
