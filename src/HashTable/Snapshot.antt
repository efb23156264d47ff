-- ===== src/HashTable/Snapshot.antt =====
-- `getAll` lists every entry of the map once, and `size` is their number.
use mathlib.Core.Logic.{Ne-symm}
use mathlib.Core.List.{append-nil, append_assoc}
use concurrent_banking_syste.Prelude.{
  ℕ, zero, suc, ◌%◌, ◌^◌, ◌≤◌, ◌≡◌, ◌≢◌, refl, ◌∙◌, List, [], ◌∷◌, ◌++◌, flatten, arith, length,
  get_or,
}
use concurrent_banking_syste.HashTable.{
  Key, Bucket, HashTable, find_in, get_all, push_entries, push_buckets, size,
}
use concurrent_banking_syste.HashTable.Bucket.{count, count-append, find_in-append, find_in-none}
use concurrent_banking_syste.HashTable.Placed.{home, view, IsValid}

push_entries-eq {ℓ} : {E : Type ℓ} (r b : List E) → push_entries r b ≡ r ++ b
unfolding push_entries
push_entries-eq r [] = rw append-nil
push_entries-eq r (e ∷ b) = push_entries-eq (r ++ e ∷ []) b ∙ append_assoc r (e ∷ []) b

push_buckets-eq {ℓ} :
    {E : Type ℓ} (r : List E) (bs : List (List E)) → push_buckets r bs ≡ r ++ flatten bs
unfolding push_buckets flatten
push_buckets-eq r [] = rw append-nil
push_buckets-eq r (b ∷ bs) =
    push_buckets-eq (push_entries r b) bs ∙ rw push_entries-eq (append_assoc r b (flatten bs))

pub get_all-eq {ℓ} : {K V : Type ℓ} (t : HashTable K V) → get_all t ≡ flatten t.buckets
unfolding get_all
get_all-eq t = push_buckets-eq [] t.buckets

module _ {ℓ} {K V : Type ℓ} ⦃key : Key K⦄ (q : K) where
  count-flatten_nowhere :
      (bs : List (Bucket K V)) → ((i : ℕ) → count q (get_or bs i []) ≡ 0) → count q (flatten bs) ≡ 0
  unfolding flatten get_or count
  count-flatten_nowhere [] h = refl
  count-flatten_nowhere (b ∷ bs) h =
      rw (count-append, h 0, count-flatten_nowhere bs (λ i. h (suc i)))

  -- The entries of a key that stands in bucket `j` alone are those of that bucket.
  flatten_only :
      (bs : List (Bucket K V)) (j : ℕ)
      → ((i : ℕ) → i ≢ j → count q (get_or bs i []) ≡ 0)
      → (find_in q (flatten bs) ≡ find_in q (get_or bs j []))
        × (count q (flatten bs) ≡ count q (get_or bs j []))
  unfolding flatten get_or
  flatten_only [] j h = (refl, refl)
  flatten_only (b ∷ bs) zero h =
      let rest = count-flatten_nowhere bs (λ i. h (suc i) (omega arith)) in
      simp (find_in-append, count-append, rest, find_in-none q (flatten bs) rest) (ground arith)
  flatten_only (b ∷ bs) (suc j) h =
      let here = h 0 (omega arith) in
      let rest = flatten_only bs j (λ i n. h (suc i) (omega arith)) in
      simp (find_in-append, count-append, here, find_in-none q b here) (rest.0, omega arith)

  -- For a valid table, `getAll` lists a key exactly where the map has it, with its value, and at
  -- most once.
  pub get_all-view :
      (t : HashTable K V)
      → IsValid t
      → (find_in q (get_all t) ≡ view t q) × (count q (get_all t) ≤ 1)
  unfolding view
  get_all-view t v = rw get_all-eq (
      let only = flatten_only t.buckets _ (λ i n. (v.placed q i).1 (Ne-symm n)) in
      (only.0, omega (arith, only.1, v.placed q (home q (length t.buckets)))))

-- For a valid table, `size` is the number of entries that `getAll` lists, modulo the range of
-- `size_t`.
pub size-get_all {ℓ} :
    {K V : Type ℓ} ⦃key : Key K⦄ (t : HashTable K V)
    → IsValid t
    → size t ≡ length (get_all t) % 2 ^ 64
unfolding size
size-get_all t v = rw get_all-eq v.counted
