-- ===== src/HashTable/Methods.antt =====
-- `insert`, `find`, `remove`, `contains`, `size` and `clear` against a map from keys to values.
use concurrent_banking_syste.Prelude.{
  ℕ, ◌+◌, ◌%◌, ◌^◌, ◌≤◌, ◌≡◌, refl, Option, none, some, true, false, [], ◌∷◌, ◌++◌, flatten, arith,
  length, set, length-append, length-set, get_or-set, if◌then◌else◌, Option-cases, inl, inr,
}
use concurrent_banking_syste.Run.{ok, ◌>>=◌, Returns}
use concurrent_banking_syste.HashTable.{
  Key, Bucket, HashTable, insert, find, remove, contains, find_in, overwrite, erase_in, increment,
  decrement,
}
use concurrent_banking_syste.HashTable.Bucket.{
  count, present, count-append, find_in-append, find_in-none, count-none, overwrite-Overwrites,
  erase_in-Erases,
}
use concurrent_banking_syste.HashTable.Placed.{
  length-flatten-set, home, bucket_index-home, bucket_of, view, IsValid, home_in, set-IsPlaced,
}

module _ {ℓ} {K V : Type ℓ} ⦃key : Key K⦄ where
  abbrev pub update : (K → Option V) → K → Option V → K → Option V
  update f k v q = if key.equal k q then v else f q

  -- `t'` is `t` with the key `k` set to `v`: valid, right at every key, and of the right size.
  pub record Writes (t : HashTable K V) (k : K) (v : Option V) (t' : HashTable K V) : Type ℓ where
    pub valid : IsValid t'
    pub reads : (q : K) → view t' q ≡ update (view t) k v q
    pub entries :
        length (flatten t'.buckets) + present (view t k) ≡ length (flatten t.buckets) + present v
    pub width : length t'.buckets ≡ length t.buckets

  -- A valid table finds exactly what its map says.
  pub find-view : (t : HashTable K V) (k : K) → IsValid t → find k t ≡ ok (view t k)
  unfolding find view
  find-view t k v = rw (bucket_index-home t k v.occupied)

  module _ (t : HashTable K V) (valid : IsValid t) (k : K) where
    abbrev idx : ℕ
    idx = home k (length t.buckets)

    abbrev old : Bucket K V
    old = bucket_of t.buckets k

    -- The three writes put some bucket `c` in the home of `k`, and count `n` entries.
    bucket-Writes :
        (c : Bucket K V) (n : ℕ) (v : Option V)
        → ((q : K) → count q c ≤ 1)
        → ((q : K) → key.equal k q ≡ false → count q c ≤ count q old)
        → ((q : K) → find_in q c ≡ update (λ p. find_in p old) k v q)
        → length c + present (find_in k old) ≡ length old + present v
        → n ≡ length (flatten (set t.buckets idx c)) % 2 ^ 64
        → Writes t k v (record { buckets = set t.buckets idx c; entry_count = n })
    unfolding view
    bucket-Writes c n v few kept reads sized counted = record {
      valid = record {
        occupied = rw length-set valid.occupied;
        counted = counted;
        placed = set-IsPlaced t valid k c few kept;
      };
      reads = λ q.
          rw (length-set, get_or-set, home_in t valid k)
            (ground (arith, reads q, key.equal_iff k q));
      entries = omega (arith, length-flatten-set t.buckets idx c (home_in t valid k), sized);
      width = length-set t.buckets idx c;
    }

    overwritten-Writes :
        (v : V) (b : Bucket K V)
        → overwrite k v old ≡ some b
        → Writes t k (some v) (record t { buckets = set t.buckets idx b })
    overwritten-Writes v b e =
        let facts = λ (q : K). rw e at (overwrite-Overwrites k v q old) in
        bucket-Writes b t.entry_count (some v) (λ q. omega (arith, facts q, valid.placed q idx))
          (λ q _. omega (arith, facts q)) (λ q. (facts q).0) (omega (arith, facts k))
          (omega
            (arith, valid.counted, length-flatten-set t.buckets idx b (home_in t valid k), facts k))

    appended-Writes :
        (v : V)
        → overwrite k v old ≡ none
        → Writes t k (some v) (record t {
          buckets = set t.buckets idx (old ++ (k, v) ∷ []);
          entry_count = increment t.entry_count;
        })
    unfolding count find_in
    appended-Writes v e =
        let absent : find_in k old ≡ none = rw e at (overwrite-Overwrites k v k old) in
        bucket-Writes (old ++ (k, v) ∷ []) (increment t.entry_count) (some v)
          (λ q.
            rw count-append
              (ground (arith, key.equal_iff k q, count-none k old absent, valid.placed q idx)))
          (λ q n. rw count-append (ground arith))
          (λ q. rw find_in-append (ground (arith, key.equal_iff k q, absent)))
          (rw (absent, length-append) (omega arith))
          (omega (
            arith,
            valid.counted,
            length-append old ((k, v) ∷ []),
            length-flatten-set t.buckets idx (old ++ (k, v) ∷ []) (home_in t valid k),
          ))

    pub insert-Writes : (v : V) → Returns (insert k v t) (Writes t k (some v))
    unfolding insert
    insert-Writes v = elim (Option-cases (overwrite k v old)) [
      | inl e ↦ (_, rw (bucket_index-home t k valid.occupied, ◌>>=◌, e), appended-Writes v e)
      | inr (b, e) ↦
          (_, rw (bucket_index-home t k valid.occupied, ◌>>=◌, e), overwritten-Writes v b e)
    ]

    -- A key that is not there is appended to its bucket.
    pub insert-absent :
        (v : V)
        → view t k ≡ none
        → insert k v t
          ≡ ok (record t {
            buckets = set t.buckets idx (old ++ (k, v) ∷ []);
            entry_count = increment t.entry_count;
          })
    unfolding insert view
    insert-absent v absent = elim (Option-cases (overwrite k v old)) [
      | inl e ↦ rw (bucket_index-home t k valid.occupied, ◌>>=◌, e)
      | inr (b, e) ↦
          let facts = rw e at (overwrite-Overwrites k v k old) in
          absurd (ground (arith, facts, absent))
    ]

    erased-Writes :
        (b : Bucket K V)
        → erase_in k old ≡ some b
        → Writes t k none
            (record { buckets = set t.buckets idx b; entry_count = decrement t.entry_count })
    erased-Writes b e =
        let facts = λ (q : K). rw e at (erase_in-Erases k q old) in
        bucket-Writes b (decrement t.entry_count) none
          (λ q. omega (arith, facts q, valid.placed q idx)) (λ q _. omega (arith, facts q))
          (λ q. ground (
            arith,
            facts q,
            key.equal_iff k q,
            key.equal_iff k k,
            valid.placed k idx,
            find_in-none k b,
          ))
          (omega (arith, facts k))
          (omega
            (arith, valid.counted, length-flatten-set t.buckets idx b (home_in t valid k), facts k))

    unchanged-Writes : find_in k old ≡ none → Writes t k none t
    unfolding view
    unchanged-Writes e = record {
      valid = valid;
      reads = λ q. ground (arith, key.equal_iff k q);
      entries = rw e;
      width = refl;
    }

    -- `remove` answers whether the key was there, and clears it.
    pub remove-Writes :
        Returns
          (remove k t)
          λ r. (r.0 ≡ elim (view t k) [ some _ ↦ true | none ↦ false ]) × Writes t k none r.1
    unfolding remove view
    remove-Writes = elim (Option-cases (erase_in k old)) [
      | inl e ↦
          let absent : find_in k old ≡ none = rw e at (erase_in-Erases k k old) in
          (
            (false, t),
            rw (bucket_index-home t k valid.occupied, ◌>>=◌, e),
            (rw absent, unchanged-Writes absent),
          )
      | inr (b, e) ↦
          let facts = rw e at (erase_in-Erases k k old) in
          (
            (true, _),
            rw (bucket_index-home t k valid.occupied, ◌>>=◌, e),
            (ground (arith, facts), erased-Writes b e),
          )
    ]

  -- A key is contained where its map has a value.
  pub contains-view :
      (t : HashTable K V) (k : K)
      → IsValid t
      → contains k t ≡ ok (elim (view t k) [ some _ ↦ true | none ↦ false ])
  unfolding contains
  contains-view t k v = rw (find-view t k v, ◌>>=◌)
