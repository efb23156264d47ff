-- ===== src/HashTable/Empty.antt =====
-- Tables with no entry: fresh, cleared, and left behind by a move.
use concurrent_banking_syste.Prelude.{
  ℕ, zero, suc, ◌<◌, ◌≡◌, refl, ap, none, List, [], ◌∷◌, flatten, arith, length, replicate,
  length-replicate, get_or-replicate,
}
use concurrent_banking_syste.Run.{fault, division_by_zero}
use concurrent_banking_syste.HashTable.{
  Key, HashTable, new, clear, clear_buckets, find_in, insert, find, remove, move, bucket_index,
  index_of,
}
use concurrent_banking_syste.HashTable.Bucket.{count}
use concurrent_banking_syste.HashTable.Placed.{view, IsValid}

flatten-replicate {ℓ} : (A : Type ℓ) (n : ℕ) → length (flatten (replicate {A = List A} n [])) ≡ 0
unfolding replicate flatten
flatten-replicate A zero = refl
flatten-replicate A (suc n) = flatten-replicate A n

clear_buckets-eq {ℓ} :
    {A : Type ℓ} (bs : List (List A)) → clear_buckets bs ≡ replicate (length bs) []
unfolding clear_buckets replicate
clear_buckets-eq [] = refl
clear_buckets-eq (b ∷ bs) = ap (λ r. [] ∷ r) (clear_buckets-eq bs)

module _ {ℓ} {K V : Type ℓ} ⦃key : Key K⦄ where
  -- The constructor builds a valid table.
  pub new-IsValid : (n : ℕ) → 0 < n → IsValid (new K V n)
  unfolding new count
  new-IsValid n h = record {
    occupied = rw length-replicate h;
    counted = rw flatten-replicate refl;
    placed = λ q i. rw get_or-replicate (omega arith, λ _. refl);
  }

  pub view-new : (n : ℕ) (q : K) → view (new K V n) q ≡ none
  unfolding new view find_in
  view-new n q = rw get_or-replicate

  clear-eq : (t : HashTable K V) → clear t ≡ new K V (length t.buckets)
  unfolding clear new
  clear-eq t = ap (λ bs. record { buckets = bs; entry_count = 0 }) (clear_buckets-eq t.buckets)

  -- `clear` leaves a valid table, without a key, and as many buckets.
  pub clear_lem :
      (t : HashTable K V)
      → IsValid t
      → IsValid (clear t)
        × ((q : K) → view (clear t) q ≡ none)
        × (length (clear t).buckets ≡ length t.buckets)
  clear_lem t v =
      rw (clear-eq t) (new-IsValid _ v.occupied, view-new _, unfold new in length-replicate _ _)

  -- Once its contents are moved away, every keyed call on a table divides by zero, until it is
  -- assigned again.
  pub moved_from :
      (t : HashTable K V) (k : K) (v : V)
      → (insert k v (move t).1 ≡ fault division_by_zero)
        × (find k (move t).1 ≡ fault division_by_zero)
        × (remove k (move t).1 ≡ fault division_by_zero)
        × ((move t).0 ≡ t)
  unfolding insert find remove move bucket_index index_of
  moved_from t k v = (refl, refl, refl, refl)
