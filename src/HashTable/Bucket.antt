-- ===== src/HashTable/Bucket.antt =====
-- The loops over one bucket against a count of the entries of a key.
use concurrent_banking_syste.Prelude.{
  ℕ, ◌+◌, ◌≡◌, refl, Option, none, some, Bool, true, false, [], ◌∷◌, ◌++◌, arith, length,
  if◌then◌else◌,
}
use concurrent_banking_syste.HashTable.{Key, Bucket, overwrite, find_in, erase_in}

abbrev pub to_nat : Bool → ℕ
to_nat true = 1
to_nat false = 0

-- 1 for a key that is there.
abbrev pub present {ℓ} : {V : Type ℓ} → Option V → ℕ
present none = 0
present (some _) = 1

-- `o`, or `p` where it is empty.
abbrev pub or_else {ℓ} : {A : Type ℓ} → Option A → Option A → Option A
or_else (some a) p = some a
or_else none p = p

module _ {ℓ} {K V : Type ℓ} ⦃key : Key K⦄ where
  unfoldable pub count : K → Bucket K V → ℕ
  count q [] = 0
  count q (e ∷ b) = to_nat (key.equal e.0 q) + count q b

  pub count-append :
      (q : K) (old more : Bucket K V) → count q (old ++ more) ≡ count q old + count q more
  unfolding count
  count-append q [] more = omega arith
  count-append q (e ∷ old) more = omega (arith, count-append q old more)

  pub find_in-append :
      (q : K) (a b : Bucket K V) → find_in q (a ++ b) ≡ or_else (find_in q a) (find_in q b)
  unfolding find_in
  find_in-append q [] b = refl
  find_in-append q (e ∷ a) b = ground (arith, find_in-append q a b)

  pub find_in-none : (q : K) (b : Bucket K V) → count q b ≡ 0 → find_in q b ≡ none
  unfolding find_in count
  find_in-none q [] h = refl
  find_in-none q (e ∷ b) h = ground (arith, find_in-none q b)

  pub count-none : (q : K) (b : Bucket K V) → find_in q b ≡ none → count q b ≡ 0
  unfolding find_in count
  count-none q [] h = refl
  count-none q (e ∷ b) h = ground (arith, count-none q b)

  -- What the loop of `insert` does to the entries of a key `q`.
  abbrev pub Overwrites : K → V → K → Bucket K V → Option (Bucket K V) → Type ℓ
  Overwrites k v q b none = find_in k b ≡ none
  Overwrites k v q b (some b') =
      (find_in q b' ≡ (if key.equal k q then some v else find_in q b))
      × (count q b' ≡ count q b)
      × (length b' ≡ length b)
      × (present (find_in k b) ≡ 1)

  pub overwrite-Overwrites :
      (k : K) (v : V) (q : K) (b : Bucket K V) → Overwrites k v q b (overwrite k v b)
  unfolding overwrite find_in count
  overwrite-Overwrites k v q [] = refl
  overwrite-Overwrites k v q (e ∷ b) = ground (
    arith,
    overwrite-Overwrites k v q b,
    key.equal_iff e.0 k,
    key.equal_iff e.0 q,
    key.equal_iff k q,
  )

  -- What the loop of `remove` does to the entries of a key `q`.
  abbrev pub Erases : K → K → Bucket K V → Option (Bucket K V) → Type ℓ
  Erases k q b none = find_in k b ≡ none
  Erases k q b (some b') =
      (count q b ≡ to_nat (key.equal k q) + count q b')
      × (length b ≡ length b' + 1)
      × (present (find_in k b) ≡ 1)
      × (key.equal k q ≡ false → find_in q b' ≡ find_in q b)

  pub erase_in-Erases : (k q : K) (b : Bucket K V) → Erases k q b (erase_in k b)
  unfolding erase_in find_in count
  erase_in-Erases k q [] = refl
  erase_in-Erases k q (e ∷ b) =
      ground
        (arith, erase_in-Erases k q b, key.equal_iff e.0 k, key.equal_iff e.0 q, key.equal_iff k q)
