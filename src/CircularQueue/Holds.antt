-- ===== src/CircularQueue/Holds.antt =====
-- When a ring holds a list of items, oldest first.
use native.Mathlib.Nat.{mod-eq_of_lt, mod-eq-sub-mod}
use native.Mathlib.Decide.{dec_lt}
use concurrent_banking_syste.Prelude.{
  ℕ, zero, suc, ◌+◌, ◌-◌, ◌%◌, ◌≤◌, ◌<◌, ◌≡◌, refl, List, [], ◌∷◌, ◌++◌, arith, length, get_elem?,
  set, if◌then◌else◌, ltb, get_elem?-set_self, get_elem?-set_ne, length-append,
}
use concurrent_banking_syste.Prelude.Int.{pos}
use concurrent_banking_syste.CircularQueue.{CircularQueue, minus_one}

-- One turn round the ring at most.
pub mod_wrap :
    (h k m : ℕ) → h < m → k ≤ m → (h + k) % m ≡ (if ltb (h + k) m then h + k else h + k - m)
mod_wrap h k m hh hk = elim (dec_lt (h + k) m) [
  | yes p ↦ ground (arith, mod-eq_of_lt p)
  | no p ↦ ground (
    arith,
    mod-eq-sub-mod {n = h + k} {m = m} (omega arith),
    mod-eq_of_lt {n = h + k - m} {m = m} (omega arith),
  )
]

module _ {T : Type 0} where
  -- The items stand at `h`, `h + 1` and so on, going round at `max`.
  abbrev pub Stored : List T → ℕ → ℕ → List T → Type 0
  Stored arr max h xs = (i : ℕ) → i < length xs → get_elem? arr ((h + i) % max) ≡ get_elem? xs i

  pub record IsUnused (q : CircularQueue T) : Type 0 where
    pub head_unused : q.head ≡ minus_one
    pub tail_unused : q.tail ≡ minus_one

  pub record IsUsed (q : CircularQueue T) (xs : List T) : Type 0 where
    pub start : ℕ
    pub head_at : q.head ≡ pos start
    pub head_in : start < q.max
    pub tail_at : q.tail ≡ pos ((start + (length xs - 1)) % q.max)
    pub stored : Stored q.arr q.max start xs

  abbrev pub Shape : CircularQueue T → List T → Type 0
  Shape q [] = IsUnused q
  Shape q (x ∷ xs) = IsUsed q (x ∷ xs)

  pub record Holds (q : CircularQueue T) (xs : List T) : Type 0 where
    pub room : 0 < q.max
    pub width : length q.arr ≡ q.max
    pub fits : length xs ≤ q.max
    pub shape : Shape q xs

  pub get_elem?-append :
      (xs : List T) (x : T) (i : ℕ)
      → get_elem? (xs ++ x ∷ []) i
        ≡ (if ltb i (length xs) then get_elem? xs i else get_elem? (x ∷ []) (i - length xs))
  get_elem?-append [] x zero = refl
  get_elem?-append [] x (suc i) = ground arith
  get_elem?-append (y ∷ xs) x zero = ground arith
  get_elem?-append (y ∷ xs) x (suc i) = ground (arith, get_elem?-append xs x i)

  -- Writing past the stored items stores one more.
  pub Stored-set :
      (arr : List T) (max h : ℕ) (xs : List T) (x : T)
      → h < max
      → length arr ≡ max
      → length xs < max
      → Stored arr max h xs
      → Stored (set arr ((h + length xs) % max) x) max h (xs ++ x ∷ [])
  Stored-set arr max h xs x hh ha hx s i hi = rw get_elem?-append (
      ground (
        arith,
        mod_wrap h i max hh,
        mod_wrap h (length xs) max hh,
        length-append xs (x ∷ []),
        s i,
        get_elem?-set_self arr ((h + length xs) % max) x,
        get_elem?-set_ne arr ((h + length xs) % max) ((h + i) % max) x,
      ))
