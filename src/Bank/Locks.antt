-- ===== src/Bank/Locks.antt =====
-- The calls of `pthread_mutex_lock` and `pthread_mutex_unlock` in `Bank::applyMemoryUpdate` of
-- backend/include/bank.hpp and in the guards of backend/include/mutex_guard.hpp, as the threads of the
-- pool interleave them where no exception is thrown. What stands between the calls is not in the model.
use concurrent_banking_syste.Prelude.{
  ℕ, suc, ◌+◌, ◌≡◌, ◌≢◌, ◌||◌, Bool, false, Option, none, some, List, [], ◌∷◌, get_elem?, set,
  length, if◌then◌else◌,
}
use concurrent_banking_syste.Prelude.Int.{ℤ, ltb_ℤ, eqb_ℤ}

-- What a thread does to the mutexes of accounts: one guard, for a deposit, a withdrawal or a balance,
-- or the two locks of a transfer.
pub data Task : Type 0 where
  guard_of : ℤ → Task
  transfer_of : ℤ → ℤ → Task

pub data Call : Type 0 where
  acquire : ℤ → Call
  release : ℤ → Call

-- The transfer locks the lower id first, and unlocks in the opposite order.
unfoldable pub calls_of : Task → List Call
calls_of (guard_of a) = acquire a ∷ release a ∷ []
calls_of (transfer_of from to) =
    let first = if ltb_ℤ from to then from else to in
    let second = if ltb_ℤ from to then to else from in
    acquire first ∷ acquire second ∷ release second ∷ release first ∷ []

-- A thread: the calls that it has still to make, and the mutexes that it holds.
pub record Thread : Type 0 where
  pub calls : List Call
  pub held : List ℤ

abbrev pub begun : Task → Thread
begun t = record { calls = calls_of t; held = [] }

abbrev pub holds : ℤ → List ℤ → Bool
holds a [] = false
holds a (b ∷ l) = eqb_ℤ a b || holds a l

abbrev pub taken : ℤ → List Thread → Bool
taken a [] = false
taken a (t ∷ ts) = holds a t.held || taken a ts

abbrev pub drop_id : ℤ → List ℤ → List ℤ
drop_id a [] = []
drop_id a (b ∷ l) = let rest = drop_id a l in if eqb_ℤ a b then rest else b ∷ rest

-- The next call of a thread among the threads `ts`: `none` where it has none to make, or where it has
-- to wait for a mutex, which may be its own.
unfoldable pub advance : List Thread → Thread → Option Thread
advance ts t = elim t.calls [
  | [] ↦ none
  | c ∷ cs ↦ elim c [
    | acquire a ↦ if taken a ts then none else some (record { calls = cs; held = a ∷ t.held })
    | release a ↦ some (record { calls = cs; held = drop_id a t.held })
  ]
]

-- One step of the thread at some place.
pub data Step (ts : List Thread) : List Thread → Type 0 where
  moves :
      (i : ℕ) (t t' : Thread)
      → get_elem? ts i ≡ some t
      → advance ts t ≡ some t'
      → Step ts (set ts i t')

-- Some number of steps.
pub data Steps (ts : List Thread) : ℕ → List Thread → Type 0 where
  here : Steps ts 0 ts
  next : {n : ℕ} {us vs : List Thread} → Steps ts n us → Step us vs → Steps ts (suc n) vs

-- The calls that are left.
abbrev pub left : List Thread → ℕ
left [] = 0
left (t ∷ ts) = length t.calls + left ts

-- A transfer between two accounts.
abbrev pub IsProper : Task → Type 0
IsProper (guard_of a) = Unit {0}
IsProper (transfer_of from to) = from ≢ to
