-- ===== src/CircularQueue.antt =====
-- `circular_queue<T>` of backend/include/request_queue.hpp: an array used as a ring, with the
-- index -1 for "no element".
pub mod Holds
pub mod Refine
pub mod Display
use concurrent_banking_syste.Prelude.{
  ℕ, zero, suc, ◌%◌, ◌<◌, ◌≡◌, Bool, true, false, ◌&&◌, List, [], ◌∷◌, ◌++◌, Option, none, some,
  length, get_elem?, set, replicate, if◌then◌else◌, ltb,
}
use concurrent_banking_syste.Prelude.Int.{ℤ, pos, negsuc, ◌+ℤ◌, sub_ℕ, eqb_ℤ}
use concurrent_banking_syste.Run.{
  Run, ok, throws, fault, runtime_error, division_by_zero, out_of_range, ◌>>=◌,
}

pub record CircularQueue {ℓ} (T : Type ℓ) : Type ℓ where
  pub head : ℤ
  pub tail : ℤ
  pub max : ℕ
  pub arr : List T

-- The index that marks an empty queue.
abbrev pub minus_one : ℤ
minus_one = negsuc 0

-- `blank` is the value `T()`.
unfoldable pub new {ℓ} : {T : Type ℓ} → T → ℕ → CircularQueue T
new blank max = record { head = minus_one; tail = minus_one; max = max; arr = replicate max blank }

-- `i % max` on `int`, which truncates towards zero.
unfoldable pub remainder : ℤ → ℕ → Run ℤ
remainder i zero = fault division_by_zero
remainder (pos n) (suc m) = ok (pos (n % suc m))
remainder (negsuc n) (suc m) = ok (sub_ℕ 0 (suc n % suc m))

module _ {ℓ} {T : Type ℓ} where
  -- `arr[i]` and `arr[i] = data`; an index outside the array is undefined behaviour.
  read : List T → ℤ → Run T
  read arr (pos i) = elim (get_elem? arr i) [ some x ↦ ok x | none ↦ fault out_of_range ]
  read arr (negsuc i) = fault out_of_range

  write : List T → ℤ → T → Run (List T)
  write arr (pos i) x = if ltb i (length arr) then ok (set arr i x) else fault out_of_range
  write arr (negsuc i) x = fault out_of_range

  unfoldable pub push : T → CircularQueue T → Run (Bool × CircularQueue T)
  unfolding write
  push item q = do
    next ← remainder (q.tail +ℤ pos 1) q.max
    if eqb_ℤ next q.head then ok (false, q) else (do
      arr ← write q.arr next item
      ok (
        true,
        record q {
          head = if eqb_ℤ q.head minus_one then pos 0 else q.head;
          tail = next;
          arr = arr;
        },
      ))

  unfoldable pub pop : CircularQueue T → Run (Bool × CircularQueue T)
  pop q =
      if eqb_ℤ q.head minus_one
      then ok (false, q)
      else if eqb_ℤ q.head q.tail
      then ok (true, record q { head = minus_one; tail = minus_one })
      else (do next ← remainder (q.head +ℤ pos 1) q.max; ok (true, record q { head = next }))

  unfoldable pub is_empty : CircularQueue T → Bool
  is_empty q = eqb_ℤ q.head minus_one && eqb_ℤ q.tail minus_one

  unfoldable pub is_full : CircularQueue T → Run Bool
  is_full q = do next ← remainder (q.tail +ℤ pos 1) q.max; ok (eqb_ℤ next q.head)

  unfoldable pub front : CircularQueue T → Run T
  unfolding read
  front q =
      if eqb_ℤ q.head minus_one then throws (runtime_error "Queue is empty") else read q.arr q.head

  -- The loop of `display`, with the items printed so far and fuel for the rounds left.
  print_from : ℕ → CircularQueue T → ℤ → List T → Run (Option (List T))
  unfolding read
  print_from zero q i printed = ok none
  print_from (suc fuel) q i printed = do
    x ← read q.arr i
    elim (eqb_ℤ i q.tail) [
      | true ↦ ok (some (printed ++ x ∷ []))
      | false ↦ do next ← remainder (i +ℤ pos 1) q.max; print_from fuel q next (printed ++ x ∷ [])
    ]

  -- What `display` prints before its last line break, `none` if the fuel runs out.
  unfoldable pub display : ℕ → CircularQueue T → Run (Option (List T))
  unfolding print_from
  display fuel q = if eqb_ℤ q.head minus_one then ok (some []) else print_from fuel q q.head []
