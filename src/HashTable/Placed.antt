-- ===== src/HashTable/Placed.antt =====
-- Where the entries stand, what the buckets mean as a map, and writes to one bucket.
use mathlib.Core.Logic.{ite}
use concurrent_banking_syste.Prelude.{
  ℕ, zero, suc, ◌+◌, ◌%◌, ◌^◌, ◌≤◌, ◌<◌, ◌≡◌, ◌≢◌, Option, false, List, [], ◌∷◌, flatten, arith,
  length, get_or, set, length-append, length-set, get_or-set, ℕ_discrete,
}
use concurrent_banking_syste.Run.{ok}
use concurrent_banking_syste.HashTable.{Key, Bucket, HashTable, find_in, bucket_index, index_of}
use concurrent_banking_syste.HashTable.Bucket.{count}

pub length-flatten-set {ℓ} :
    {E : Type ℓ} (rows : List (List E)) (at : ℕ) (row : List E)
    → at < length rows
    → length (flatten rows) + length row
      ≡ length (flatten (set rows at row)) + length (get_or rows at [])
unfolding get_or flatten
length-flatten-set [] at row l = absurd (omega arith)
length-flatten-set (first ∷ rows) zero row l = simp length-append (omega arith)
length-flatten-set (first ∷ rows) (suc at) row l =
    simp length-append (omega (arith, length-flatten-set rows at row (omega arith)))

module _ {ℓ} {K : Type ℓ} ⦃key : Key K⦄ where
  unfoldable pub home : K → ℕ → ℕ
  home k n = key.hash k % n

  pub home-lt : (k : K) (n : ℕ) → 0 < n → home k n < n
  unfolding home
  home-lt k n h = omega arith

module _ {ℓ} {K V : Type ℓ} ⦃key : Key K⦄ where
  pub bucket_index-home :
      (t : HashTable K V) (k : K)
      → 0 < length t.buckets
      → bucket_index t k ≡ ok (home k (length t.buckets))
  unfolding bucket_index index_of home
  bucket_index-home t k h = ground arith

  abbrev pub bucket_of : List (Bucket K V) → K → Bucket K V
  bucket_of bs k = get_or bs (home k (length bs)) []

  -- A key occurs at most once, and only in its home bucket.
  abbrev pub IsPlaced : List (Bucket K V) → Type ℓ
  IsPlaced rows =
      (q : K) (at : ℕ)
      → (count q (get_or rows at []) ≤ 1)
        × (home q (length rows) ≢ at → count q (get_or rows at []) ≡ 0)

  -- The map that the buckets stand for.
  unfoldable pub view : HashTable K V → K → Option V
  view t q = find_in q (bucket_of t.buckets q)

  -- The counter wraps at 2 ^ 64, as `size_t` does.
  pub record IsValid (t : HashTable K V) : Type ℓ where
    pub occupied : 0 < length t.buckets
    pub counted : t.entry_count ≡ length (flatten t.buckets) % 2 ^ 64
    pub placed : IsPlaced t.buckets

  module _ (t : HashTable K V) (valid : IsValid t) (k : K) where
    pub home_in : home k (length t.buckets) < length t.buckets
    home_in = home-lt k (length t.buckets) valid.occupied

    -- Another bucket `c` in the home of `k`, which holds no key more often but `k`.
    pub set-IsPlaced :
        (c : Bucket K V)
        → ((q : K) → count q c ≤ 1)
        → ((q : K) → key.equal k q ≡ false → count q c ≤ count q (bucket_of t.buckets k))
        → IsPlaced (set t.buckets (home k (length t.buckets)) c)
    set-IsPlaced c few kept q i =
        rw (length-set, get_or-set, home_in)
          (ground (arith, valid.placed q i, few q, kept q, key.equal_iff k q))

    pub view-set :
        (c : Bucket K V) (n : ℕ) (q : K)
        → view (record { buckets = set t.buckets (home k (length t.buckets)) c; entry_count = n }) q
          ≡ ite
              (ℕ_discrete (home k (length t.buckets)) (home q (length t.buckets)))
              (find_in q c)
              (view t q)
    unfolding view
    view-set c n q = rw (length-set, get_or-set, home_in) (ground arith)
