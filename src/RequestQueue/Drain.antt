-- ===== src/RequestQueue/Drain.antt =====
-- The loop `while (queue.pop(req))` of a worker, and that a shutdown drains the queue to its end.
use concurrent_banking_syste.Prelude.{
  ℕ, zero, suc, ◌<◌, ◌≡◌, refl, List, [], ◌∷◌, Bool, true, false, arith, length,
}
use concurrent_banking_syste.Run.{Run, ok, ◌>>=◌, Returns}
use concurrent_banking_syste.RequestQueue.{
  RequestQueue, Popped, waits, returns_false, returns_true, pop, shutdown,
}
use concurrent_banking_syste.RequestQueue.Promise.{Shows, pop_items, pop_refines, shutdown-Shows}

-- How a consumer that runs alone leaves its loop: by a `pop` that returned false, or asleep in one;
-- `running` where the rounds given do not suffice.
pub data Leaves : Type 0 where
  ended asleep running : Leaves

abbrev pub leaving : Bool → Leaves
leaving true = ended
leaving false = asleep

module _ {T : Type 0} where
  next_round :
      (RequestQueue T → Run (List T × Leaves × RequestQueue T))
      → Popped T
      → RequestQueue T
      → Run (List T × Leaves × RequestQueue T)
  next_round again waits rq = ok ([], asleep, rq)
  next_round again returns_false rq = ok ([], ended, rq)
  next_round again (returns_true req) rq = do (reqs, how, rq') ← again rq; ok (req ∷ reqs, how, rq')

  -- The requests that the loop takes, in order.
  pub consume : ℕ → RequestQueue T → Run (List T × Leaves × RequestQueue T)
  unfolding next_round
  consume zero rq = ok ([], running, rq)
  consume (suc fuel) rq = do (popped, rq') ← pop rq; next_round (consume fuel) popped rq'

  -- With one round more than there are items, the loop of a lone consumer takes each item once, in
  -- the order of arrival, and leaves an empty queue: by the end of the loop if the queue is closed,
  -- else asleep.
  pub consume_lem :
      (fuel : ℕ) (rq : RequestQueue T) (xs : List T) (closed : Bool) (cap : ℕ)
      → length xs < fuel
      → Shows rq xs closed cap
      → Returns (consume fuel rq) λ r. (r.0 ≡ xs) × (r.1 ≡ leaving closed) × Shows r.2 [] closed cap
  unfolding consume pop_items
  consume_lem zero rq xs closed cap l s = absurd (omega arith)
  consume_lem (suc fuel) rq [] true cap l s =
      let (r, run, (said, s')) = pop_refines rq [] true cap s in
      (([], ended, r.1), rw (run, ◌>>=◌, said), (refl, refl, s'))
  consume_lem (suc fuel) rq [] false cap l s =
      let (r, run, (said, s')) = pop_refines rq [] false cap s in
      (([], asleep, r.1), rw (run, ◌>>=◌, said), (refl, refl, s'))
  consume_lem (suc fuel) rq (x ∷ xs) closed cap l s =
      let (r, run, (said, s')) = pop_refines rq (x ∷ xs) closed cap s in
      let (rest, runs, (items, how, s'')) = consume_lem fuel r.1 xs closed cap (omega arith) s' in
      ((x ∷ rest.0, rest.1, rest.2), rw (run, ◌>>=◌, said, runs), (rw items, how, s''))

  -- After `shutdown`, the loop of a lone consumer takes all that was waiting, in order, and ends.
  pub drain :
      (rq : RequestQueue T) (xs : List T) (closed : Bool) (cap : ℕ)
      → Shows rq xs closed cap
      → Returns (consume (suc (length xs)) (shutdown rq)) λ r. (r.0 ≡ xs) × (r.1 ≡ ended)
  drain rq xs closed cap s =
      let (r, run, (items, how, _)) =
        consume_lem (suc (length xs)) (shutdown rq) xs true cap (omega arith)
          (shutdown-Shows rq xs closed cap s) in
      (r, run, (items, how))
