-- ===== src/Bank.antt =====
-- `Bank::applyMemoryUpdate` of backend/include/bank.hpp, with the mutexes that it takes and the
-- exceptions that pass through it.
pub mod Cells
pub mod Update
pub mod Locks
pub mod Progress
pub mod Deadlock
pub mod Index
pub mod Example
mod Tests
mod Schedules
use concurrent_banking_syste.Prelude.{
  ℕ, Bool, true, false, Option, none, some, String, List, [], ◌∷◌, get_elem?, set, str_eq,
  if◌then◌else◌,
}
use concurrent_banking_syste.Prelude.Int.{ℤ, ltb_ℤ}
use concurrent_banking_syste.Run.{Run, ok, throws, fault, Fault, null_pointer}
use concurrent_banking_syste.Exec.{
  Outcome, done, thrown, stuck, Action, ◌>>=◌, ◌>>◌, continue, give, lift, reading,
}
use concurrent_banking_syste.HashTable
use concurrent_banking_syste.HashTable.{HashTable, Key, default_buckets}
use concurrent_banking_syste.Account
use concurrent_banking_syste.Account.{Account}
use concurrent_banking_syste.Memory.{Memory, put, no_value, find_account}
use concurrent_banking_syste.User.{AccountPtr}
use concurrent_banking_syste.Requests.{TransactionRequest}

stored : {A : Type 0} → AccountPtr → Memory → Run (A × Account) → Outcome Memory A
stored p m (ok (x, a)) = done x (put m p a)
stored p m (throws e) = thrown e m
stored p m (fault u) = stuck u

-- A method of the account at `p`.
unfoldable pub with_account :
    {A : Type 0} → AccountPtr → (Account → Run (A × Account)) → Action Memory A
unfolding stored
with_account p method m = elim (get_elem? m.accounts p) [
  | some a ↦ stored p m (method a)
  | none ↦ stuck null_pointer
]

unfoldable pub lock_account : AccountPtr → Action Memory (Unit {0})
lock_account p = with_account p (λ a. no_value (Account.lock a))

unfoldable pub unlock_account : AccountPtr → Action Memory (Unit {0})
unlock_account p = with_account p (λ a. ok (tt, Account.unlock a))

unfoldable pub deposit_at : ℤ → AccountPtr → Action Memory (Unit {0})
deposit_at amount p = with_account p (λ a. no_value (Account.deposit_unlocked amount a))

unfoldable pub withdraw_at : ℤ → AccountPtr → Action Memory Bool
withdraw_at amount p = with_account p (Account.withdraw_unlocked amount)

-- The destructor of a `MutexGuard`, which runs on an exception too.
release : {A : Type 0} → AccountPtr → Outcome Memory A → Outcome Memory A
release p (done x m) = (unlock_account p >> give x) m
release p (thrown e m) = (unlock_account p >> thrown e) m
release p (stuck u) = stuck u

-- `MutexGuard guard(acc->getMutex()); body`.
unfoldable pub guarded : {A : Type 0} → AccountPtr → Action Memory A → Action Memory A
unfolding release
guarded p body = lock_account p >> λ m. release p (body m)

-- The transfer between two accounts that were found: the mutex of the lower id is taken first. The
-- answer of the withdrawal is not looked at, and the mutexes are plain locks, with no guard.
unfoldable pub transfer_between : ℤ → ℤ → ℤ → AccountPtr → AccountPtr → Action Memory Bool
transfer_between amount from_id to_id acc to =
    let first = if ltb_ℤ from_id to_id then acc else to in
    let second = if ltb_ℤ from_id to_id then to else acc in
    do
      lock_account first
      lock_account second
      _ ← withdraw_at amount acc
      deposit_at amount to
      unlock_account second
      unlock_account first
      give true

module _ ⦃key : Key ℤ⦄ where
  unfoldable pub apply_transfer : TransactionRequest → AccountPtr → Action Memory Bool
  apply_transfer t acc = elim t.to_account [
    | none ↦ give false
    | some to_id ↦ do
      found ← reading (find_account to_id)
      elim found [
        | none ↦ give false
        | some to ↦ transfer_between t.transaction_amount t.account_id to_id acc to
      ]
  ]

  unfoldable pub apply_found : TransactionRequest → AccountPtr → Action Memory Bool
  apply_found t acc =
      if str_eq t.transaction_type "DEPOSIT"
      then (guarded acc (deposit_at t.transaction_amount acc) >> give true)
      else if str_eq t.transaction_type "WITHDRAW"
      then (guarded acc (withdraw_at t.transaction_amount acc) >>= λ _. give true)
      else if str_eq t.transaction_type "TRANSFER"
      then apply_transfer t acc
      else give false

  unfoldable pub apply_memory_update : TransactionRequest → Action Memory Bool
  apply_memory_update t = do
    found ← reading (find_account t.account_id)
    elim found [ none ↦ give false | some acc ↦ apply_found t acc ]
