-- ===== src/WorkerPool/LoginTests.antt =====
-- A login worker with one login in its queue.
use concurrent_banking_syste.Prelude.{refl, false, [], ◌∷◌, replicate, arith}
use concurrent_banking_syste.Prelude.Int.{pos, ◌+ℤ◌}
use concurrent_banking_syste.Run.{returned}
use concurrent_banking_syste.HashTable.IntKey.{cast_key}
use concurrent_banking_syste.Requests.{LoginRequest}
use concurrent_banking_syste.CircularQueue
use concurrent_banking_syste.CircularQueue.{remainder}
use concurrent_banking_syste.RequestQueue
use concurrent_banking_syste.RequestQueue.{RequestQueue}
use concurrent_banking_syste.RequestQueue.Promise.{
  Shows, push_items, admit, push_refines, new-Shows,
}
use concurrent_banking_syste.Login.Example.{sessions, connecting, world, request}
use concurrent_banking_syste.WorkerPool.Logins.{
  run_login_worker, login_each, EndsAs, run_login_worker_lem,
}

abbrev asked : LoginRequest
asked = request "secret" false

abbrev queue : RequestQueue LoginRequest
queue = record {
  queue = record { head = pos 0; tail = pos 0; max = 2; arr = asked ∷ asked ∷ [] };
  shutting_down = false;
}

queue-Shows : Shows queue (asked ∷ []) false 2
unfolding push_items admit RequestQueue.push CircularQueue.push remainder RequestQueue.new
    CircularQueue.new ◌+ℤ◌ replicate
queue-Shows =
    (returned
      (push_refines (RequestQueue.new asked 2) asked [] false 2 (new-Shows asked 2 (omega arith)))
      refl).1

run_login_worker_example :
    EndsAs sessions ⦃key = cast_key⦄
      (λ _. connecting)
      false
      2
      (login_each sessions ⦃key = cast_key⦄ (λ _. connecting) (asked ∷ []) world)
      (run_login_worker sessions ⦃key = cast_key⦄
        (λ _. connecting)
        2
        (record { queue = queue; world = world }))
run_login_worker_example =
    run_login_worker_lem sessions ⦃key = cast_key⦄ (λ _. connecting) 2 (asked ∷ []) queue world
      false 2 (omega arith) queue-Shows
