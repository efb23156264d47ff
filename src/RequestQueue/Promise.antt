-- ===== src/RequestQueue/Promise.antt =====
-- What `RequestQueue` promises: a FIFO list of at most `max` requests, closed by `shutdown`.
use concurrent_banking_syste.Prelude.{
  ℕ, ◌<◌, ◌≡◌, refl, ◌∙◌, List, [], ◌∷◌, ◌++◌, Bool, true, false, arith, length, if◌then◌else◌, ltb,
}
use concurrent_banking_syste.Run.{◌>>=◌, Returns}
use concurrent_banking_syste.CircularQueue.Holds.{Holds}
use concurrent_banking_syste.CircularQueue.Refine.{
  new-Holds, max-new, push_full, push_room, empty_lem, front_lem, pop_lem,
}
use concurrent_banking_syste.RequestQueue.{
  RequestQueue, Popped, waits, returns_false, returns_true, new, push, pop, shutdown,
}
use native.Mathlib.Decide.{dec_lt}

-- The queue holds the items `xs`, and has the flag and the capacity.
pub record Shows {T : Type 0} (rq : RequestQueue T) (xs : List T) (closed : Bool) (cap : ℕ)
    : Type 0 where
  pub ring : Holds rq.queue xs
  pub flag : rq.shutting_down ≡ closed
  pub capacity : rq.queue.max ≡ cap

module _ {T : Type 0} where
  -- The items after a request arrives, which is dropped where there is no room.
  unfoldable pub admit : T → List T → ℕ → List T
  admit x xs cap = if ltb (length xs) cap then xs ++ x ∷ [] else xs

  pub admit-room : (x : T) (xs : List T) (cap : ℕ) → length xs < cap → admit x xs cap ≡ xs ++ x ∷ []
  unfolding admit
  admit-room x xs cap h = ground arith

  pub admit-full : (x : T) (xs : List T) (cap : ℕ) → ¬ (length xs < cap) → admit x xs cap ≡ xs
  unfolding admit
  admit-full x xs cap h = ground arith

  -- The answer of `push` and the items after it. It answers true for a request that a full ring
  -- drops.
  unfoldable pub push_items : T → List T → Bool → ℕ → Bool × List T
  push_items x xs closed cap = if closed then (false, xs) else (true, admit x xs cap)

  unfoldable pub pop_items : List T → Bool → Popped T × List T
  pop_items [] closed = (if closed then returns_false else waits, [])
  pop_items (x ∷ xs) closed = (returns_true x, xs)

  -- `push` on a queue that holds the items `xs` always returns: on a closed queue it answers false
  -- and changes nothing, on an open one it answers true, and the request is the last of the items
  -- if there was room, but dropped if the ring was full.
  pub push_refines :
      (rq : RequestQueue T) (x : T) (xs : List T) (closed : Bool) (cap : ℕ)
      → Shows rq xs closed cap
      → Returns (push x rq) λ r.
        let (said, after) = push_items x xs closed cap in (r.0 ≡ said) × Shows r.1 after closed cap
  unfolding push push_items
  push_refines rq x xs true cap s = ((false, rq), rw s.flag refl, (refl, s))
  push_refines rq x xs false cap s = elim (dec_lt (length xs) rq.queue.max) [
    | yes p ↦
        let (r, run, (_, h, m)) = push_room rq.queue xs x s.ring p in
        (
          (true, record rq { queue = r.1 }),
          rw (s.flag, run, ◌>>=◌),
          (
            refl,
            rw (admit-room x xs cap (omega arith))
                (record { ring = h; flag = s.flag; capacity = m ∙ s.capacity }),
          ),
        )
    | no p ↦ (
      (true, rq),
      rw (s.flag, push_full rq.queue xs x s.ring (omega (arith, s.ring)), ◌>>=◌),
      (refl, rw (admit-full x xs cap (omega arith)) s),
    )
  ]

  -- One round of `pop` on a queue that holds the items `xs` always returns: it takes the oldest
  -- item, or, if there is none, answers false on a closed queue and sleeps on an open one.
  pub pop_refines :
      (rq : RequestQueue T) (xs : List T) (closed : Bool) (cap : ℕ)
      → Shows rq xs closed cap
      → Returns
          (pop rq)
          λ r. let (said, after) = pop_items xs closed in (r.0 ≡ said) × Shows r.1 after closed cap
  unfolding pop pop_items
  pop_refines rq [] closed cap s =
      let e = empty_lem rq.queue s.ring in
      ((if closed then returns_false else waits, rq), ground (arith, e.2, s.flag), (refl, s))
  pop_refines rq (x ∷ xs) closed cap s =
      let f = front_lem rq.queue x xs s.ring in
      let (r, run, (_, h, m)) = pop_lem rq.queue x xs s.ring in
      (
        (returns_true x, record rq { queue = r.1 }),
        rw (f.1, f.0, run, ◌>>=◌),
        (refl, record { ring = h; flag = s.flag; capacity = m ∙ s.capacity }),
      )

  -- A queue that was built with a capacity is open and empty.
  pub new-Shows : (blank : T) (cap : ℕ) → 0 < cap → Shows (new blank cap) [] false cap
  unfolding new
  new-Shows blank cap h = record {
    ring = new-Holds blank cap h;
    flag = refl;
    capacity = max-new blank cap;
  }

  pub shutdown-Shows :
      (rq : RequestQueue T) (xs : List T) (closed : Bool) (cap : ℕ)
      → Shows rq xs closed cap
      → Shows (shutdown rq) xs true cap
  unfolding shutdown
  shutdown-Shows rq xs closed cap s = record { ring = s.ring; flag = refl; capacity = s.capacity }
