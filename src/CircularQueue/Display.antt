-- ===== src/CircularQueue/Display.antt =====
-- What `display` prints.
use concurrent_banking_syste.Prelude.{
  ℕ, suc, ◌+◌, ◌-◌, ◌%◌, ◌<◌, ◌≡◌, refl, sym, true, false, ap, ◌∙◌, List, [], ◌∷◌, ◌++◌, some,
  arith, length, get_elem?,
}
use mathlib.Core.List.{append_assoc}
use concurrent_banking_syste.Prelude.Int.{pos, eqb_ℤ, eqb_ℤ_iff}
use concurrent_banking_syste.Run.{ok}
use concurrent_banking_syste.CircularQueue.{CircularQueue, display, print_from, read}
use concurrent_banking_syste.CircularQueue.Refine.{next-eq, turn}
use concurrent_banking_syste.CircularQueue.Holds.{Holds, mod_wrap}

module _ {T : Type 0} (q : CircularQueue T) (start n : ℕ) (inside : start < q.max)
    (fits : n < q.max) (tail : q.tail ≡ pos ((start + n) % q.max)) where
  -- The items from the `k`-th on.
  abbrev From : ℕ → List T → Type 0
  From k xs = (i : ℕ) → i < length xs → get_elem? q.arr ((start + (k + i)) % q.max) ≡ get_elem? xs i

  read_lem :
      (k : ℕ) (x : T) (xs : List T)
      → From k (x ∷ xs)
      → read q.arr (pos ((start + k) % q.max)) ≡ ok x
  unfolding read
  read_lem k x xs s =
      let same : k ≡ k + 0 = omega arith in
      let here : get_elem? q.arr ((start + k) % q.max) ≡ some x =
        ap (λ z. get_elem? q.arr ((start + z) % q.max)) same ∙ s 0 (omega arith) in
      rw (read, here)

  at_tail : (k : ℕ) → k ≡ n → eqb_ℤ (pos ((start + k) % q.max)) q.tail ≡ true
  at_tail k e = (eqb_ℤ_iff _ _).1 (ap (λ z. pos ((start + z) % q.max)) e ∙ sym tail)

  before_tail : (k : ℕ) → k < n → eqb_ℤ (pos ((start + k) % q.max)) q.tail ≡ false
  before_tail k l = ground (
    arith,
    tail,
    eqb_ℤ_iff (pos ((start + k) % q.max)) q.tail,
    mod_wrap start k q.max,
    mod_wrap start n q.max,
  )

  print_step :
      (fuel k : ℕ) (x : T) (printed : List T)
      → read q.arr (pos ((start + k) % q.max)) ≡ ok x
      → k < n
      → print_from (suc fuel) q (pos ((start + k) % q.max)) printed
        ≡ print_from fuel q (pos ((start + suc k) % q.max)) (printed ++ x ∷ [])
  unfolding print_from
  print_step fuel k x printed e l = rw (
    e,
    before_tail k l,
    next-eq (pos ((start + k) % q.max)) ((start + k) % q.max) q.max (omega arith) refl,
    turn start k q.max inside (omega arith),
  )

  -- From the index of the `k`-th item, the loop prints the items that follow, and stops at the tail.
  print_from_lem :
      (k : ℕ) (x : T) (xs : List T) (printed : List T)
      → k + length xs ≡ n
      → From k (x ∷ xs)
      → print_from (suc (length xs)) q (pos ((start + k) % q.max)) printed
        ≡ ok (some (printed ++ x ∷ xs))
  unfolding print_from
  print_from_lem k x [] printed e s = rw (read_lem k x [] s, at_tail k (omega arith))
  print_from_lem k x (y ∷ xs) printed e s =
      print_step (length (y ∷ xs)) k x printed (read_lem k x (y ∷ xs) s) (omega arith)
      ∙ print_from_lem (suc k) y xs (printed ++ x ∷ []) (omega arith) (λ i l.
        let same : suc k + i ≡ k + suc i = omega arith in
        ap (λ z. get_elem? q.arr ((start + z) % q.max)) same ∙ s (suc i) (omega arith))
      ∙ ap (λ z. ok (some z)) (append_assoc printed (x ∷ []) (y ∷ xs))

sub_one : (n : ℕ) → suc n - 1 ≡ n
sub_one n = omega arith

display-used :
    {T : Type 0} (q : CircularQueue T) (fuel start : ℕ)
    → q.head ≡ pos start
    → display fuel q ≡ print_from fuel q (pos start) []
unfolding display
display-used q fuel start e = rw e

-- `display` on a ring that holds the items `xs` prints them, oldest first, and its loop ends: as
-- many rounds as there are items are enough.
pub display_lem :
    {T : Type 0} (q : CircularQueue T) (xs : List T)
    → Holds q xs
    → display (length xs) q ≡ ok (some xs)
unfolding display
display_lem q [] h = rw h.shape.head_unused
display_lem q (x ∷ xs) h =
    let u = h.shape in
    let first : pos u.start ≡ pos ((u.start + 0) % q.max) =
      ap (λ z. pos z) (ground (arith, mod_wrap u.start 0 q.max)) in
    let last : q.tail ≡ pos ((u.start + length xs) % q.max) =
      u.tail_at ∙ ap (λ z. pos ((u.start + z) % q.max)) (sub_one (length xs)) in
    display-used q (suc (length xs)) u.start u.head_at
    ∙ ap (λ i. print_from (suc (length xs)) q i []) first
    ∙ print_from_lem q u.start (length xs) u.head_in (omega (arith, h.fits)) last 0 x xs []
        (omega arith)
        (λ i l.
          let same : 0 + i ≡ i = omega arith in
          ap (λ z. get_elem? q.arr ((u.start + z) % q.max)) same ∙ u.stored i l)
