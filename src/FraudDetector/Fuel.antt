-- ===== src/FraudDetector/Fuel.antt =====
-- The depth of the search: each call below the first puts one more account on the path, and only
-- accounts of the graph have edges to follow.
use concurrent_banking_syste.Prelude.{
  ℕ, suc, ◌≤◌, ◌≡◌, refl, false, some, List, [], ◌∷◌, arith, length, if◌then◌else◌, Bool-cases, inl,
  inr,
}
use concurrent_banking_syste.Prelude.Int.{ℤ, eqb_ℤ, eqb_ℤ_iff}
use concurrent_banking_syste.HashTable.{Key, find_in}
use concurrent_banking_syste.HashTable.IntKey.{equal-eqb}
use concurrent_banking_syste.FraudDetector.{Edge, holds}

-- The entries whose key is not on the path.
unfoldable pub unseen : List ℤ → List (ℤ × List Edge) → ℕ
unseen met [] = 0
unseen met (e ∷ b) = let rest = unseen met b in if holds e.0 met then rest else suc rest

unseen-le : (k : ℤ) (met : List ℤ) (b : List (ℤ × List Edge)) → unseen (k ∷ met) b ≤ unseen met b
unfolding unseen
unseen-le k met [] = omega arith
unseen-le k met (e ∷ b) = ground (arith, unseen-le k met b)

pub unseen-lt :
    ⦃key : Key ℤ⦄ (k : ℤ) (met : List ℤ) (b : List (ℤ × List Edge)) {es : List Edge}
    → find_in k b ≡ some es
    → holds k met ≡ false
    → suc (unseen (k ∷ met) b) ≤ unseen met b
unfolding unseen find_in
unseen-lt k met [] h n = absurd (cc)
unseen-lt k met (e ∷ b) h n = elim (Bool-cases (eqb_ℤ e.0 k)) [
  | inl same ↦
      let at : e.0 ≡ k = (eqb_ℤ_iff e.0 k).0 same in
      rw (at, n, (eqb_ℤ_iff k k).1 refl) (omega (arith, unseen-le k met b))
  | inr other ↦
      let rest = unseen-lt k met b (rw (equal-eqb, other) at h) n in rw other (ground (arith, rest))
]

pub unseen-le-length : (met : List ℤ) (b : List (ℤ × List Edge)) → unseen met b ≤ length b
unfolding unseen
unseen-le-length met [] = omega arith
unseen-le-length met (e ∷ b) = ground (arith, unseen-le-length met b)
