-- ===== src/HashTable/IntKey.antt =====
-- `int` as a key: its equality is that of the numbers, whatever `std::hash<int>` is.
use concurrent_banking_syste.Prelude.{◌+◌, ◌-◌, ◌%◌, ◌^◌, ◌≡◌, arith}
use concurrent_banking_syste.Prelude.Int.{ℤ, pos_part, neg_part, eqb_ℤ, eqb_ℤ_iff}
use concurrent_banking_syste.HashTable.{Key}

pub equal-eqb : ⦃key : Key ℤ⦄ → (a b : ℤ) → key.equal a b ≡ eqb_ℤ a b
equal-eqb ⦃key⦄ a b = ground (arith, key.equal_iff a b, eqb_ℤ_iff a b)

-- A hash that casts to `size_t`.
abbrev pub cast_key : Key ℤ
cast_key = record {
  equal = eqb_ℤ;
  equal_iff = eqb_ℤ_iff;
  hash = λ a. (2 ^ 64 - neg_part a % 2 ^ 64 + pos_part a) % 2 ^ 64;
}
