-- ===== src/WorkerPool/Logins.antt =====
-- The loop of `WorkerPool::runLoginWorker` in backend/include/worker_pool.hpp. What it prints is left
-- out.
use concurrent_banking_syste.Prelude.{
  ℕ, zero, suc, ◌<◌, ◌≡◌, refl, Bool, true, false, List, [], ◌∷◌, length, arith,
}
use concurrent_banking_syste.Prelude.Int.{ℤ}
use concurrent_banking_syste.Exec.{
  Outcome, done, thrown, stuck, Action, ◌>>=◌, ◌>>◌, give, reading, modify, continue,
}
use concurrent_banking_syste.HashTable.{Key}
use concurrent_banking_syste.Requests.{LoginRequest}
use concurrent_banking_syste.RequestQueue
use concurrent_banking_syste.RequestQueue.{RequestQueue, Popped, waits, returns_false, returns_true}
use concurrent_banking_syste.RequestQueue.Promise.{Shows, pop_items, pop_refines}
use concurrent_banking_syste.RequestQueue.Drain.{Leaves, ended, asleep, running, leaving}
use concurrent_banking_syste.LoadDb.{World}
use concurrent_banking_syste.Login.{Sessions, Connecting, login}

-- What a login worker reaches.
pub record LoginPool (Database : Type 0) : Type 0 where
  pub queue : RequestQueue LoginRequest
  pub world : World Database

module _ {Database : Type 0} where
  placed :
      {A : Type 0}
      → RequestQueue LoginRequest
      → Outcome (World Database) A
      → Outcome (LoginPool Database) A
  placed q (done x w) = done x (record { queue = q; world = w })
  placed q (thrown e w) = thrown e (record { queue = q; world = w })
  placed q (stuck u) = stuck u

  unfoldable pub on_login_world :
      {A : Type 0} → Action (World Database) A → Action (LoginPool Database) A
  unfolding placed
  on_login_world action p = placed p.queue (action p.world)

  unfoldable pub take_login : Action (LoginPool Database) (Popped LoginRequest)
  take_login = do
    (popped, queue) ← reading (λ p. RequestQueue.pop p.queue)
    modify (λ p. record p { queue = queue })
    give popped

-- What the environment and the attempt to connect come to, for each request.
module _ (sessions : Sessions) ⦃key : Key ℤ⦄ (connecting : LoginRequest → Connecting) where
  open sessions use {Database}

  next_login :
      Action (LoginPool Database) Leaves → Popped LoginRequest → Action (LoginPool Database) Leaves
  next_login again waits = give asleep
  next_login again returns_false = give ended
  next_login again (returns_true req) =
      on_login_world (login sessions (connecting req) req) >> again

  -- `while (loginQueue_.pop(req))`, with fuel for the rounds.
  unfoldable pub run_login_worker : ℕ → Action (LoginPool Database) Leaves
  unfolding next_login
  run_login_worker zero = give running
  run_login_worker (suc fuel) = take_login >>= λ popped. next_login (run_login_worker fuel) popped

  -- The logins of a list, one after the other.
  pub login_each : List LoginRequest → Action (World Database) (Unit {0})
  login_each [] = give tt
  login_each (l ∷ ls) = login sessions (connecting l) l >> login_each ls

  -- How the loop ends for the way that the logins end: it leaves an empty queue, or it ends with the
  -- login that threw or never returned.
  abbrev pub EndsAs :
      Bool → ℕ → Outcome (World Database) (Unit {0}) → Outcome (LoginPool Database) Leaves → Type 0
  EndsAs closed cap (done _ w) o =
      (q : RequestQueue LoginRequest) × (o
        ≡ done (leaving closed) (record { queue = q; world = w }))
      × Shows q [] closed cap
  EndsAs closed cap (thrown e w) o =
      (q : RequestQueue LoginRequest) × (o ≡ thrown e (record { queue = q; world = w }))
  EndsAs closed cap (stuck u) o = o ≡ stuck u

  next_ends :
      (closed : Bool) (cap fuel : ℕ) (ls : List LoginRequest) (q : RequestQueue LoginRequest)
      (first : Outcome (World Database) (Unit {0}))
      → ((w : World Database)
          → EndsAs closed cap
              (login_each ls w)
              (run_login_worker fuel (record { queue = q; world = w })))
      → EndsAs closed cap
          (continue (λ _. login_each ls) first)
          (continue (λ _. run_login_worker fuel) (placed q first))
  unfolding placed
  next_ends closed cap fuel ls q (done _ w) rest = rest w
  next_ends closed cap fuel ls q (thrown e w) rest = (q, refl)
  next_ends closed cap fuel ls q (stuck u) rest = refl

  -- A login worker alone, with one round more than there are requests, on a queue that holds the
  -- requests `ls`: its loop does what the logins of `ls` do one after the other, in the order of
  -- arrival and each once; if all of them return, it leaves an empty queue, by the end of the loop
  -- if the queue is closed and asleep if not, and else it ends as the first login that throws or
  -- never returns.
  pub run_login_worker_lem :
      (fuel : ℕ) (ls : List LoginRequest) (q : RequestQueue LoginRequest) (w : World Database)
      (closed : Bool) (cap : ℕ)
      → length ls < fuel
      → Shows q ls closed cap
      → EndsAs closed cap
          (login_each ls w)
          (run_login_worker fuel (record { queue = q; world = w }))
  unfolding run_login_worker take_login pop_items login_each on_login_world
  run_login_worker_lem zero ls q w closed cap l s = absurd (omega arith)
  run_login_worker_lem (suc fuel) [] q w true cap l s =
      let (r, run, (said, s')) = pop_refines q [] true cap s in (r.1, rw (run, said) refl, s')
  run_login_worker_lem (suc fuel) [] q w false cap l s =
      let (r, run, (said, s')) = pop_refines q [] false cap s in (r.1, rw (run, said) refl, s')
  run_login_worker_lem (suc fuel) (l ∷ ls) q w closed cap le s =
      let (r, run, (said, s')) = pop_refines q (l ∷ ls) closed cap s in
      rw (run, said)
        (next_ends closed cap fuel ls r.1 (login sessions (connecting l) l w)
          (λ v. run_login_worker_lem fuel ls r.1 v closed cap (omega arith) s'))
