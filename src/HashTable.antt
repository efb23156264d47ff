-- ===== src/HashTable.antt =====
-- `HashTable<K, V>` of backend/include/hashtable.hpp: chained buckets with a counter of entries.
-- Each method holds the mutex of its bucket for its whole body, so a call is one step here.
pub mod Bucket
pub mod Placed
pub mod Methods
pub mod Empty
pub mod Snapshot
pub mod Program
pub mod Tally
pub mod IntKey
mod Tests
use concurrent_banking_syste.Prelude.{
  ℕ, zero, suc, ◌+◌, ◌-◌, ◌%◌, ◌^◌, ◌≡◌, ◌↔◌, Bool, true, false, Option, none, some, List, [], ◌∷◌,
  ◌++◌, get_or, set, replicate, length, if◌then◌else◌,
}
use concurrent_banking_syste.Run.{Run, ok, fault, division_by_zero, ◌>>=◌}

-- What the template asks of a key: `operator==` and `std::hash`, which the library gives.
pub record Key {ℓ} (K : Type ℓ) : Type ℓ where
  pub equal : K → K → Bool
  pub equal_iff : (a b : K) → (equal a b ≡ true) ↔ (a ≡ b)
  pub hash : K → ℕ

abbrev pub Bucket {ℓ} : Type ℓ → Type ℓ → Type ℓ
Bucket K V = List (K × V)

pub record HashTable {ℓ} (K V : Type ℓ) : Type ℓ where
  pub buckets : List (Bucket K V)
  pub entry_count : ℕ

-- The constructor, whose default is 16 buckets.
unfoldable pub new {ℓ} : (K V : Type ℓ) → ℕ → HashTable K V
new K V bucket_count = record { buckets = replicate bucket_count []; entry_count = 0 }

abbrev pub default_buckets : ℕ
default_buckets = 16

-- `std::atomic<size_t>` increment and decrement.
abbrev pub increment : ℕ → ℕ
increment n = (n + 1) % 2 ^ 64

abbrev pub decrement : ℕ → ℕ
decrement n = (n + 2 ^ 64 - 1) % 2 ^ 64

index_of {ℓ} : {K : Type ℓ} ⦃key : Key K⦄ → K → ℕ → Run ℕ
index_of k zero = fault division_by_zero
index_of ⦃key⦄ k (suc n) = ok (key.hash k % suc n)

module _ {ℓ} {K V : Type ℓ} ⦃key : Key K⦄ where
  unfoldable pub bucket_index : HashTable K V → K → Run ℕ
  unfolding index_of
  bucket_index t k = index_of k (length t.buckets)

  -- The loops over one bucket: to overwrite, to read and to erase the first entry of a key.
  -- `none` where no entry has it.
  unfoldable pub overwrite : K → V → Bucket K V → Option (Bucket K V)
  overwrite k v [] = none
  overwrite k v (e ∷ b) =
      let rest = overwrite k v b in
      if key.equal e.0 k
      then some ((e.0, v) ∷ b)
      else elim rest [ some b' ↦ some (e ∷ b') | none ↦ none ]

  unfoldable pub find_in : K → Bucket K V → Option V
  find_in k [] = none
  find_in k (e ∷ b) = let rest = find_in k b in if key.equal e.0 k then some e.1 else rest

  unfoldable pub erase_in : K → Bucket K V → Option (Bucket K V)
  erase_in k [] = none
  erase_in k (e ∷ b) =
      let rest = erase_in k b in
      if key.equal e.0 k then some b else elim rest [ some b' ↦ some (e ∷ b') | none ↦ none ]

  unfoldable pub insert : K → V → HashTable K V → Run (HashTable K V)
  insert k v t = do
    idx ← bucket_index t k
    let bucket = get_or t.buckets idx []
    elim (overwrite k v bucket) [
      | some bucket' ↦ ok (record t { buckets = set t.buckets idx bucket' })
      | none ↦ ok (record t {
        buckets = set t.buckets idx (bucket ++ (k, v) ∷ []);
        entry_count = increment t.entry_count;
      })
    ]

  unfoldable pub find : K → HashTable K V → Run (Option V)
  find k t = do idx ← bucket_index t k; ok (find_in k (get_or t.buckets idx []))

  unfoldable pub remove : K → HashTable K V → Run (Bool × HashTable K V)
  remove k t = do
    idx ← bucket_index t k
    elim (erase_in k (get_or t.buckets idx [])) [
      | some bucket' ↦ ok (
        true,
        record t { buckets = set t.buckets idx bucket'; entry_count = decrement t.entry_count },
      )
      | none ↦ ok (false, t)
    ]

  unfoldable pub contains : K → HashTable K V → Run Bool
  contains k t = do found ← find k t; ok (elim found [ some _ ↦ true | none ↦ false ])

unfoldable pub size {ℓ} : {K V : Type ℓ} → HashTable K V → ℕ
size t = t.entry_count

-- The two nested loops of `getAll`, with the vector that they fill.
push_entries {ℓ} : {E : Type ℓ} → List E → List E → List E
push_entries result [] = result
push_entries result (entry ∷ bucket) = push_entries (result ++ entry ∷ []) bucket

push_buckets {ℓ} : {E : Type ℓ} → List E → List (List E) → List E
push_buckets result [] = result
push_buckets result (bucket ∷ buckets) = push_buckets (push_entries result bucket) buckets

unfoldable pub get_all {ℓ} : {K V : Type ℓ} → HashTable K V → List (K × V)
unfolding push_entries push_buckets
get_all t = push_buckets [] t.buckets

clear_buckets {ℓ} : {E : Type ℓ} → List (List E) → List (List E)
clear_buckets [] = []
clear_buckets (bucket ∷ buckets) = [] ∷ clear_buckets buckets

unfoldable pub clear {ℓ} : {K V : Type ℓ} → HashTable K V → HashTable K V
unfolding clear_buckets
clear t = record { buckets = clear_buckets t.buckets; entry_count = 0 }

-- The move constructor and the move assignment: what the target holds, and what is left of the
-- source, whose vector is empty.
unfoldable pub move {ℓ} : {K V : Type ℓ} → HashTable K V → HashTable K V × HashTable K V
move other = (other, record { buckets = []; entry_count = 0 })

-- `self` is the test `this == &other`.
unfoldable pub move_assign {ℓ} :
    {K V : Type ℓ} → Bool → HashTable K V → HashTable K V → HashTable K V × HashTable K V
unfolding move
move_assign true target other = (target, other)
move_assign false target other = move other
