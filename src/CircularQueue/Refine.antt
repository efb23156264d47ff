-- ===== src/CircularQueue/Refine.antt =====
-- The methods of the ring against a FIFO list of at most `max` items.
use concurrent_banking_syste.Prelude.{
  ℕ, zero, suc, ◌+◌, ◌-◌, ◌%◌, ◌≤◌, ◌<◌, ◌≡◌, refl, ap, ◌∙◌, List, [], ◌∷◌, ◌++◌, true, false,
  arith, length, set, get_elem?-set_self, ◌==◌, length-replicate, length-append, length-set,
}
use concurrent_banking_syste.Prelude.Int.{ℤ, pos, ◌+ℤ◌}
use concurrent_banking_syste.Run.{ok, throws, runtime_error, ◌>>=◌, Returns}
use concurrent_banking_syste.CircularQueue.{
  CircularQueue, minus_one, new, remainder, push, pop, front, is_empty, is_full, read, write,
}
use concurrent_banking_syste.CircularQueue.Holds.{mod_wrap, Holds, IsUsed, Stored-set}

-- `(i + 1) % max` at an index `n`.
pub next-eq :
    (i : ℤ) (n m : ℕ) → 0 < m → i ≡ pos n → remainder (i +ℤ pos 1) m ≡ ok (pos ((n + 1) % m))
unfolding remainder ◌+ℤ◌
next-eq i n zero h e = absurd (omega arith)
next-eq i n (suc m) h e = rw e (ground arith)

next_unused : (i : ℤ) (m : ℕ) → 0 < m → i ≡ minus_one → remainder (i +ℤ pos 1) m ≡ ok (pos 0)
unfolding remainder ◌+ℤ◌
next_unused i zero h e = absurd (omega arith)
next_unused i (suc m) h e = rw e (ground arith)

pub turn : (s k m : ℕ) → s < m → suc k ≤ m → ((s + k) % m + 1) % m ≡ (s + suc k) % m
turn s k m hs hk =
    ground
      (arith, mod_wrap s k m, mod_wrap s (suc k) m, mod_wrap (s + k) 1 m, mod_wrap (s + k - m) 1 m)

shift : (s k m : ℕ) → s < m → suc k ≤ m → ((s + 1) % m + k) % m ≡ (s + suc k) % m
shift s k m hs hk =
    ground
      (arith, mod_wrap s 1 m, mod_wrap s (suc k) m, mod_wrap (s + 1) k m, mod_wrap (s + 1 - m) k m)

module _ {T : Type 0} where
  -- A new ring is empty.
  pub new-Holds : (blank : T) (max : ℕ) → 0 < max → Holds (new blank max) []
  unfolding new
  new-Holds blank max h = record {
    room = h;
    width = length-replicate max blank;
    fits = omega arith;
    shape = record { head_unused = refl; tail_unused = refl };
  }

  pub max-new : (blank : T) (max : ℕ) → (new blank max).max ≡ max
  unfolding new
  max-new blank max = refl

  -- The index after the last item, which the ring computes as `(tail + 1) % max`.
  next_index :
      (q : CircularQueue T) (x : T) (xs : List T)
      → Holds q (x ∷ xs)
      → (u : IsUsed q (x ∷ xs))
      → remainder (q.tail +ℤ pos 1) q.max ≡ ok (pos ((u.start + length (x ∷ xs)) % q.max))
  next_index q x xs h u =
      next-eq q.tail _ q.max h.room u.tail_at
      ∙ ap (λ n. ok (pos n)) (ground (arith, turn u.start (length xs) q.max))

  -- `push` on a full ring refuses the item, and on any other appends it.
  pub push_full :
      (q : CircularQueue T) (xs : List T) (x : T)
      → Holds q xs
      → length xs ≡ q.max
      → push x q ≡ ok (false, q)
  unfolding push
  push_full q [] x h e = absurd (omega arith)
  push_full q (y ∷ ys) x h e =
      rw (next_index q y ys h h.shape, ◌>>=◌)
        (ground
          (arith, h.shape.head_at, h.shape.head_in, mod_wrap h.shape.start (suc (length ys)) q.max))

  -- `push` on a ring that holds fewer items than `max` answers true, and the ring then holds the
  -- new item after the others.
  pub push_room :
      (q : CircularQueue T) (xs : List T) (x : T)
      → Holds q xs
      → length xs < q.max
      → Returns (push x q) λ r. (r.0 ≡ true) × Holds r.1 (xs ++ x ∷ []) × (r.1.max ≡ q.max)
  unfolding push write
  push_room q [] x h l = (
    (true, record q { head = pos 0; tail = pos 0; arr = set q.arr 0 x }),
    rw (next_unused q.tail q.max h.room h.shape.tail_unused, ◌>>=◌) (ground arith),
    (
      refl,
      record {
        room = h.room;
        width = length-set q.arr 0 x ∙ h.width;
        fits = l;
        shape = record {
          start = 0;
          head_at = refl;
          head_in = h.room;
          tail_at = ap pos (ground (arith, mod_wrap 0 0 q.max));
          stored =
              λ i hi. ground (arith, mod_wrap 0 i q.max, get_elem?-set_self q.arr 0 x, h.width);
        };
      },
      refl,
    ),
  )
  push_room q (y ∷ ys) x h l =
      let u = h.shape in
      let next = (u.start + length (y ∷ ys)) % q.max in
      (
        (true, record q { tail = pos next; arr = set q.arr next x }),
        rw (next_index q y ys h u, ◌>>=◌)
            (ground (arith, u.head_at, u.head_in, mod_wrap u.start (suc (length ys)) q.max)),
        (
          refl,
          record {
            room = h.room;
            width = length-set q.arr next x ∙ h.width;
            fits = omega (arith, length-append (y ∷ ys) (x ∷ []));
            shape = record {
              start = u.start;
              head_at = u.head_at;
              head_in = u.head_in;
              tail_at =
                  ap (λ n. pos ((u.start + n) % q.max)) (omega (arith, length-append ys (x ∷ [])));
              stored = Stored-set q.arr q.max u.start (y ∷ ys) x u.head_in h.width l u.stored;
            };
          },
          refl,
        ),
      )

  -- `front` and `pop` on an empty ring: an exception, and a refusal.
  pub empty_lem :
      (q : CircularQueue T)
      → Holds q []
      → (front q ≡ throws (runtime_error "Queue is empty"))
        × (pop q ≡ ok (false, q))
        × (is_empty q ≡ true)
  unfolding front pop is_empty
  empty_lem q h = (rw h.shape.head_unused, rw h.shape.head_unused, ground (arith, h.shape))

  pub front_lem :
      (q : CircularQueue T) (x : T) (xs : List T)
      → Holds q (x ∷ xs)
      → (front q ≡ ok x) × (is_empty q ≡ false)
  unfolding front is_empty read
  front_lem q x xs h =
      let u = h.shape in
      (ground (arith, u.head_at, u.stored 0, mod_wrap u.start 0 q.max), ground (arith, u.head_at))

  pub pop_lem :
      (q : CircularQueue T) (x : T) (xs : List T)
      → Holds q (x ∷ xs)
      → Returns (pop q) λ r. (r.0 ≡ true) × Holds r.1 xs × (r.1.max ≡ q.max)
  unfolding pop
  pop_lem q x [] h =
      let u = h.shape in
      (
        (true, record q { head = minus_one; tail = minus_one }),
        ground (arith, u.head_at, u.tail_at, u.head_in, mod_wrap u.start 0 q.max),
        (
          refl,
          record {
            room = h.room;
            width = h.width;
            fits = omega arith;
            shape = record { head_unused = refl; tail_unused = refl };
          },
          refl,
        ),
      )
  pop_lem q x (y ∷ ys) h =
      let u = h.shape in
      let next = (u.start + 1) % q.max in
      (
        (true, record q { head = pos next }),
        ground (
          arith,
          u.head_at,
          u.tail_at,
          u.head_in,
          mod_wrap u.start (suc (length ys)) q.max,
          next-eq q.head u.start q.max h.room u.head_at,
        ),
        (
          refl,
          record {
            room = h.room;
            width = h.width;
            fits = omega arith;
            shape = record {
              start = next;
              head_at = refl;
              head_in = omega arith;
              tail_at =
                  u.tail_at
                  ∙ ap pos (ground (arith, shift u.start (length ys) q.max, u.head_in, h.fits));
              stored = λ i hi.
                  rw (shift u.start i q.max u.head_in (omega arith))
                    (u.stored (suc i) (omega arith));
            };
          },
          refl,
        ),
      )

  -- `isFull` answers, without a fault, whether the ring holds `max` items.
  pub is_full_lem :
      (q : CircularQueue T) (xs : List T) → Holds q xs → is_full q ≡ ok (length xs == q.max)
  unfolding is_full
  is_full_lem q [] h =
      rw (next_unused q.tail q.max h.room h.shape.tail_unused, ◌>>=◌)
        (ground (arith, h.shape.head_unused))
  is_full_lem q (y ∷ ys) h =
      rw (next_index q y ys h h.shape, ◌>>=◌)
        (ground
          (arith, h.shape.head_at, h.shape.head_in, mod_wrap h.shape.start (suc (length ys)) q.max))
