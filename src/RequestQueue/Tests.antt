-- ===== src/RequestQueue/Tests.antt =====
-- Queues of numbers with room for two.
use concurrent_banking_syste.Prelude.{ℕ, ◌≡◌, refl, false, [], ◌∷◌, arith, replicate}
use concurrent_banking_syste.Run.{Returns, returned}
use concurrent_banking_syste.Prelude.Int.{pos, ◌+ℤ◌}
use concurrent_banking_syste.CircularQueue
use concurrent_banking_syste.CircularQueue.{CircularQueue, remainder}
use concurrent_banking_syste.RequestQueue
use concurrent_banking_syste.RequestQueue.{RequestQueue}
use concurrent_banking_syste.RequestQueue.Promise.{
  Shows, push_items, pop_items, admit, push_refines, pop_refines, new-Shows,
}
use concurrent_banking_syste.RequestQueue.Drain.{asleep, consume, consume_lem}

abbrev empty : RequestQueue ℕ
empty = RequestQueue.new 0 2

empty-Shows : Shows empty [] false 2
empty-Shows = new-Shows 0 2 (omega arith)

abbrev one : RequestQueue ℕ
one = record {
  queue = record { head = pos 0; tail = pos 0; max = 2; arr = 7 ∷ 0 ∷ [] };
  shutting_down = false;
}

one-Shows : Shows one (7 ∷ []) false 2
unfolding push_items admit RequestQueue.push CircularQueue.push remainder RequestQueue.new
    CircularQueue.new ◌+ℤ◌ replicate
one-Shows = (returned (push_refines empty 7 [] false 2 empty-Shows) refl).1

abbrev full : RequestQueue ℕ
full = record {
  queue = record { head = pos 0; tail = pos 1; max = 2; arr = 7 ∷ 8 ∷ [] };
  shutting_down = false;
}

full-Shows : Shows full (7 ∷ 8 ∷ []) false 2
unfolding push_items admit RequestQueue.push CircularQueue.push remainder ◌+ℤ◌
full-Shows = (returned (push_refines one 8 (7 ∷ []) false 2 one-Shows) refl).1

push_refines_example : Returns (RequestQueue.push 9 full) λ r.
    (r.0 ≡ (push_items {T = ℕ} 9 (7 ∷ 8 ∷ []) false 2).0)
    × Shows r.1 (push_items {T = ℕ} 9 (7 ∷ 8 ∷ []) false 2).1 false 2
push_refines_example = push_refines full 9 (7 ∷ 8 ∷ []) false 2 full-Shows

pop_refines_example : Returns (RequestQueue.pop full) λ r.
    (r.0 ≡ (pop_items {T = ℕ} (7 ∷ 8 ∷ []) false).0)
    × Shows r.1 (pop_items {T = ℕ} (7 ∷ 8 ∷ []) false).1 false 2
pop_refines_example = pop_refines full (7 ∷ 8 ∷ []) false 2 full-Shows

consume_lem_example :
    Returns (consume 4 full) λ r. (r.0 ≡ 7 ∷ 8 ∷ []) × (r.1 ≡ asleep) × Shows r.2 [] false 2
consume_lem_example = consume_lem 4 full (7 ∷ 8 ∷ []) false 2 (omega arith) full-Shows
