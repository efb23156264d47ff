-- ===== src/RequestQueue.antt =====
-- `RequestQueue<T>` of backend/include/request_queue.hpp: the ring behind a mutex, with a condition
-- variable on which consumers sleep. A method is one step, since it holds the mutex; the loop of
-- `pop` gives the mutex up in `pthread_cond_wait` and tests again when it is woken.
pub mod Promise
pub mod Drain
mod Tests
use concurrent_banking_syste.Prelude.{Bool, true, false, ◌&&◌, not, ℕ, if◌then◌else◌, List, [], ◌∷◌}
use concurrent_banking_syste.Run.{Run, ok, ◌>>=◌}
use concurrent_banking_syste.CircularQueue
use concurrent_banking_syste.CircularQueue.{CircularQueue}

pub record RequestQueue {ℓ} (T : Type ℓ) : Type ℓ where
  pub queue : CircularQueue T
  pub shutting_down : Bool

-- The constructor's default capacity.
abbrev pub default_capacity : ℕ
default_capacity = 1500

unfoldable pub new {ℓ} : {T : Type ℓ} → T → ℕ → RequestQueue T
new blank capacity = record { queue = CircularQueue.new blank capacity; shutting_down = false }

-- How one round of `pop` ends: asleep in `pthread_cond_wait`, or returned.
pub data Popped {ℓ} (T : Type ℓ) : Type ℓ where
  waits : Popped T
  returns_false : Popped T
  returns_true : T → Popped T

module _ {ℓ} {T : Type ℓ} where
  -- The result of the ring's `push` is not looked at.
  unfoldable pub push : T → RequestQueue T → Run (Bool × RequestQueue T)
  push req rq =
      if rq.shutting_down
      then ok (false, rq)
      else (do (_, queue) ← CircularQueue.push req rq.queue; ok (true, record rq { queue = queue }))

  unfoldable pub shutdown : RequestQueue T → RequestQueue T
  shutdown rq = record rq { shutting_down = true }

  unfoldable pub pop : RequestQueue T → Run (Popped T × RequestQueue T)
  pop rq =
      if CircularQueue.is_empty rq.queue && not rq.shutting_down
      then ok (waits, rq)
      else if CircularQueue.is_empty rq.queue
      then ok (returns_false, rq)
      else (do
        req ← CircularQueue.front rq.queue
        (_, queue) ← CircularQueue.pop rq.queue
        ok (returns_true req, record rq { queue = queue }))
