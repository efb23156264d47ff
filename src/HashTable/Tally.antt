-- ===== src/HashTable/Tally.antt =====
-- How many entries of `getAll` pass a test, before and after an insertion.
use concurrent_banking_syste.Prelude.{
  ℕ, zero, suc, ◌+◌, ◌<◌, ◌≡◌, none, Bool, List, [], ◌∷◌, ◌++◌, flatten, arith, length, get_or, set,
}
use concurrent_banking_syste.Run.{Returns}
use concurrent_banking_syste.HashTable.{Key, HashTable, insert, get_all}
use concurrent_banking_syste.HashTable.Bucket.{to_nat}
use concurrent_banking_syste.HashTable.Placed.{view, IsValid, home_in}
use concurrent_banking_syste.HashTable.Methods.{insert-absent}
use concurrent_banking_syste.HashTable.Snapshot.{get_all-eq}

module _ {ℓ} {E : Type ℓ} (test : E → Bool) where
  unfoldable pub tally : List E → ℕ
  tally [] = 0
  tally (e ∷ es) = to_nat (test e) + tally es

  pub tally-append : (a b : List E) → tally (a ++ b) ≡ tally a + tally b
  unfolding tally
  tally-append [] b = omega arith
  tally-append (e ∷ a) b = omega (arith, tally-append a b)

  tally-flatten :
      (bs : List (List E)) (i : ℕ) (e : E)
      → i < length bs
      → tally (flatten (set bs i (get_or bs i [] ++ e ∷ []))) ≡ tally (flatten bs) + to_nat (test e)
  unfolding tally flatten get_or
  tally-flatten [] i e h = absurd (omega arith)
  tally-flatten (b ∷ bs) zero e h = simp tally-append (omega arith)
  tally-flatten (b ∷ bs) (suc i) e h =
      simp tally-append (omega (arith, tally-flatten bs i e (omega arith)))

-- Inserting a key that is not there adds its entry to `getAll`, and takes none away.
pub tally-insert {ℓ} :
    {K V : Type ℓ} ⦃key : Key K⦄ (test : K × V → Bool) (t : HashTable K V) (k : K) (v : V)
    → IsValid t
    → view t k ≡ none
    → Returns
        (insert k v t)
        λ t'. tally test (get_all t') ≡ tally test (get_all t) + to_nat (test (k, v))
tally-insert test t k v valid absent = (
  _,
  insert-absent t valid k v absent,
  rw (get_all-eq, get_all-eq) (tally-flatten test t.buckets _ (k, v) (home_in t valid k)),
)
