-- ===== src/WorkerPool/Tests.antt =====
-- A worker with a withdrawal and a transfer in its queue.
use concurrent_banking_syste.Prelude.{◌≡◌, refl, false, List, [], ◌∷◌, ◌++◌, replicate, arith, All}
use concurrent_banking_syste.Prelude.Int.{pos, ◌+ℤ◌}
use concurrent_banking_syste.Run.{returned}
use concurrent_banking_syste.Exec.{done}
use concurrent_banking_syste.HashTable.IntKey.{cast_key}
use concurrent_banking_syste.Requests.{TransactionRequest, TransactionResponse}
use concurrent_banking_syste.CircularQueue
use concurrent_banking_syste.CircularQueue.{remainder}
use concurrent_banking_syste.RequestQueue
use concurrent_banking_syste.RequestQueue.{RequestQueue}
use concurrent_banking_syste.RequestQueue.Promise.{
  Shows, push_items, admit, push_refines, new-Shows,
}
use concurrent_banking_syste.RequestQueue.Drain.{asleep}
use concurrent_banking_syste.ResponseQueue
use concurrent_banking_syste.Postgres.Ledger.{Ledger, ledger}
use concurrent_banking_syste.LoadDb.Example.{world, world-Synced, withdraw_30, transfer_30}
use concurrent_banking_syste.WorkerPool.{Pool, run_transaction_worker}
use concurrent_banking_syste.WorkerPool.Serve.{
  Proper, proper_withdraw, proper_transfer, Served, Mirrors, worker_serves,
}

abbrev empty : RequestQueue TransactionRequest
empty = RequestQueue.new withdraw_30 2

empty-Shows : Shows empty [] false 2
empty-Shows = new-Shows withdraw_30 2 (omega arith)

abbrev one : RequestQueue TransactionRequest
one = record {
  queue = record { head = pos 0; tail = pos 0; max = 2; arr = withdraw_30 ∷ withdraw_30 ∷ [] };
  shutting_down = false;
}

one-Shows : Shows one (withdraw_30 ∷ []) false 2
unfolding push_items admit RequestQueue.push CircularQueue.push remainder RequestQueue.new
    CircularQueue.new ◌+ℤ◌ replicate
one-Shows = (returned (push_refines empty withdraw_30 [] false 2 empty-Shows) refl).1

abbrev queue : RequestQueue TransactionRequest
queue = record {
  queue = record { head = pos 0; tail = pos 1; max = 2; arr = withdraw_30 ∷ transfer_30 ∷ [] };
  shutting_down = false;
}

queue-Shows : Shows queue (withdraw_30 ∷ transfer_30 ∷ []) false 2
unfolding push_items admit RequestQueue.push CircularQueue.push remainder ◌+ℤ◌
queue-Shows = (returned (push_refines one transfer_30 (withdraw_30 ∷ []) false 2 one-Shows) refl).1

abbrev pool : Pool Ledger
pool = record { queue = queue; world = world; responses = ResponseQueue.new }

requests-Proper : All Proper (withdraw_30 ∷ transfer_30 ∷ [])
requests-Proper = (
  proper_withdraw refl (ground arith),
  (proper_transfer (pos 2) refl refl (ground arith) (ground arith), tt),
)

worker_serves_example :
    (p' : Pool Ledger) × (rs : List TransactionResponse) × (run_transaction_worker ledger
        ⦃key = cast_key⦄ 3 pool
      ≡ done asleep p')
    × Served ledger ⦃key = cast_key⦄ (withdraw_30 ∷ transfer_30 ∷ []) world rs p'.world
    × (p'.responses.queue ≡ ResponseQueue.new.queue ++ rs)
    × Mirrors ledger ⦃key = cast_key⦄ p'.world
    × Shows p'.queue [] false 2
worker_serves_example =
    worker_serves ledger ⦃key = cast_key⦄ 3 (withdraw_30 ∷ transfer_30 ∷ []) pool false 2
      (omega arith) queue-Shows requests-Proper (λ d d' e h. absurd (cc)) world-Synced refl
