-- ===== src/WorkerPool.antt =====
-- `WorkerPool::runTransactionWorker` in backend/include/worker_pool.hpp.
pub mod Serve
pub mod Logins
mod Tests
mod LoginTests
use concurrent_banking_syste.Prelude.{
  ℕ, zero, suc, Bool, Option, none, some, String, List, [], ◌∷◌, ◌++◌, not, if◌then◌else◌,
}
use concurrent_banking_syste.Prelude.Int.{ℤ, pos}
use concurrent_banking_syste.Run.{Run, ok}
use concurrent_banking_syste.Exec.{
  Outcome, done, thrown, stuck, Action, ◌>>=◌, ◌>>◌, give, reading, modify, lift, continue,
}
use concurrent_banking_syste.HashTable.{Key}
use concurrent_banking_syste.Memory.{get_balance}
use concurrent_banking_syste.Requests.{TransactionRequest, TransactionResponse}
use concurrent_banking_syste.RequestQueue
use concurrent_banking_syste.RequestQueue.{RequestQueue, Popped, waits, returns_false, returns_true}
use concurrent_banking_syste.RequestQueue.Drain.{Leaves, ended, asleep, running}
use concurrent_banking_syste.ResponseQueue
use concurrent_banking_syste.ResponseQueue.{ResponseQueue}
use concurrent_banking_syste.Postgres.{Postgres, Reply}
use concurrent_banking_syste.LoadDb.{World, ask, transaction}

-- What a worker reaches: the queue of requests, the database with the memory, and the responses.
pub record Pool (Database : Type 0) : Type 0 where
  pub queue : RequestQueue TransactionRequest
  pub world : World Database
  pub responses : ResponseQueue

module _ {Database : Type 0} where
  placed : {A : Type 0} → Pool Database → Outcome (World Database) A → Outcome (Pool Database) A
  placed p (done x w) = done x (record p { world = w })
  placed p (thrown e w) = thrown e (record p { world = w })
  placed p (stuck u) = stuck u

  unfoldable pub on_world : {A : Type 0} → Action (World Database) A → Action (Pool Database) A
  unfolding placed
  on_world action p = placed p (action p.world)

  unfoldable pub take : Action (Pool Database) (Popped TransactionRequest)
  take = do
    (popped, queue) ← reading (λ p. RequestQueue.pop p.queue)
    modify (λ p. record p { queue = queue })
    give popped

-- The response to a request, from the answer of `transaction` and the balance that memory has.
unfoldable pub response : TransactionRequest → Bool → Option ℤ → TransactionResponse
response req ok_ bal = record {
  request_id = pos 0;
  success = ok_;
  message = "";
  new_balance_cents = elim bal [ some b ↦ b | none ↦ pos 0 ];
  type = req.transaction_type;
  amount = req.transaction_amount;
}

module _ (pg : Postgres) ⦃key : Key ℤ⦄ where
  open pg use {Database}

  -- The body of the loop.
  unfoldable pub serve : TransactionRequest → Action (Pool Database) (Unit {0})
  serve req = do
    answer ← on_world (transaction pg req)
    bal ← reading (λ p. get_balance req.account_id p.world.memory)
    modify (λ p. record p { responses = ResponseQueue.push (response req answer bal) p.responses })

  next_round :
      Action (Pool Database) Leaves → Popped TransactionRequest → Action (Pool Database) Leaves
  next_round again waits = give asleep
  next_round again returns_false = give ended
  next_round again (returns_true req) = serve req >> again

  -- `while (transactionQueue_.pop(req))`, with fuel for the rounds.
  unfoldable pub run_transaction_worker : ℕ → Action (Pool Database) Leaves
  unfolding next_round
  run_transaction_worker zero = give running
  run_transaction_worker (suc fuel) =
      take >>= λ popped. next_round (run_transaction_worker fuel) popped

  -- The whole of `runTransactionWorker`: `none` where it returns before the loop. A connection that
  -- fails throws out of the thread.
  unfoldable pub transaction_worker :
      Bool → Reply (Unit {0}) → ℕ → Action (Pool Database) (Option Leaves)
  transaction_worker url_set connect fuel =
      if not url_set
      then give none
      else on_world (ask connect) >> (run_transaction_worker fuel >>= λ how. give (some how))
