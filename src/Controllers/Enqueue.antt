-- ===== src/Controllers/Enqueue.antt =====
-- What a text message does to the queue of transactions, and what its sender is told.
use mathlib.Core.List.{append-nil}
use concurrent_banking_syste.Prelude.{
  ℕ, ◌≡◌, refl, sym, Option, none, some, Bool, String, List, [], ◌∷◌, ◌++◌, Option-cases, inl, inr,
}
use concurrent_banking_syste.Run.{Returns}
use concurrent_banking_syste.Json.{Json}
use concurrent_banking_syste.Requests.{TransactionRequest}
use concurrent_banking_syste.RequestQueue.{RequestQueue}
use concurrent_banking_syste.RequestQueue.Promise.{Shows, push_items, push_refines}
use concurrent_banking_syste.Controllers.{transaction_parser}
use concurrent_banking_syste.Controllers.Handlers.{Front, reply, enqueue, handle_transaction}

-- The front's queue holds the items `xs`.
pub record Queues {T : Type 0} (f : Front T) (xs : List T) (closed : Bool) (room : ℕ) : Type 0 where
  pub queue : RequestQueue T
  pub queue_at : f.queue ≡ some queue
  pub shows : Shows queue xs closed room

-- The items after a message: those that `push` leaves for the request in it, if there is one.
abbrev pub after : {T : Type 0} → Option T → List T → Bool → ℕ → List T
after none xs closed room = xs
after (some t) xs closed room = (push_items t xs closed room).1

-- What the sender is told: an error for a message that is no request, and else nothing.
abbrev pub told_bad : {T : Type 0} → ℕ → Option T → List (ℕ × String)
told_bad socket none = (socket, "ERR_BAD_STRUCTURE") ∷ []
told_bad socket (some t) = []

module _ (json : Json) where
  -- A text message to the controller of transactions, whose queue holds the items `xs`, changes the
  -- items as `push` does with the request that the parser finds, and not at all if it finds none;
  -- the sender is told of a message that is no request, and otherwise nothing, whatever became of
  -- the request.
  pub handle_transaction_lem :
      (message : String) (socket : ℕ) (f : Front TransactionRequest) (xs : List TransactionRequest)
      (closed : Bool) (room : ℕ)
      → Queues f xs closed room
      → Returns (handle_transaction json message socket f) λ f'.
        let parsed = transaction_parser json message (some socket) in
        Queues f' (after parsed xs closed room) closed room
        × (f'.sent ≡ f.sent ++ told_bad socket parsed)
  unfolding handle_transaction enqueue
  handle_transaction_lem message socket f xs closed room q =
      elim (Option-cases (transaction_parser json message (some socket))) [
        | inl e ↦ (
          reply socket "ERR_BAD_STRUCTURE" f,
          rw (handle_transaction, e),
          (rw e (record { queue = q.queue; queue_at = q.queue_at; shows = q.shows }), rw e),
        )
        | inr (t, e) ↦
            let (r, run, (_, s)) = push_refines q.queue t xs closed room q.shows in
            (
              record f { queue = some r.1 },
              rw (handle_transaction, e, q.queue_at, enqueue, run),
              (
                rw e (record { queue = r.1; queue_at = refl; shows = s }),
                rw e (sym (append-nil f.sent)),
              ),
            )
      ]
