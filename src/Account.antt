-- ===== src/Account.antt =====
-- `Account` of backend/include/account.hpp. `mutex` tells whether the account's mutex is held; an
-- exception of a method is thrown before the method changes the account.
pub mod Laws
pub mod History
mod Tests
use concurrent_banking_syste.Prelude.{ℕ, Bool, true, false, String, if◌then◌else◌, List, [], ◌∷◌}
use concurrent_banking_syste.Prelude.Int.{ℤ, pos, leb_ℤ, ltb_ℤ}
use concurrent_banking_syste.Run.{
  Run, ok, throws, fault, invalid_argument, blocked, ◌>>=◌, add64, sub64,
}
use concurrent_banking_syste.HashTable.{HashTable}
use concurrent_banking_syste.Transaction.{Transaction}

pub record Account : Type 0 where
  pub account_id : ℤ
  pub account_number : String
  pub account_holder : String
  pub actual_balance : ℤ
  pub available_balance : ℤ
  pub hold_amount : ℤ
  pub account_status : String
  pub account_type : String
  pub account_created_at : String
  pub account_updated_at : String
  pub transactions : HashTable ℤ Transaction
  pub mutex : Bool

-- The move constructor: its list of initialisers has no account number, and the mutex is fresh.
unfoldable pub move : Account → Account
move other = record other { account_number = ""; mutex = false }

-- The move assignment keeps the target's own number and mutex. `self` is `this == &other`.
unfoldable pub move_assign : Bool → Account → Account → Account
move_assign self target other =
    if self
    then target
    else record other { account_number = target.account_number; mutex = target.mutex }

-- `pthread_mutex_lock` and `pthread_mutex_unlock` on the account's mutex.
unfoldable pub lock : Account → Run Account
lock a = if a.mutex then fault blocked else ok (record a { mutex = true })

unfoldable pub unlock : Account → Account
unlock a = record a { mutex = false }

-- `actual_balance += amountCents; available_balance += amountCents`, and the same with `-=`.
unfoldable pub credit : ℤ → Account → Run Account
credit amount a = do
  actual ← add64 a.actual_balance amount
  available ← add64 a.available_balance amount
  ok (record a { actual_balance = actual; available_balance = available })

unfoldable pub debit : ℤ → Account → Run Account
debit amount a = do
  actual ← sub64 a.actual_balance amount
  available ← sub64 a.available_balance amount
  ok (record a { actual_balance = actual; available_balance = available })

unfoldable pub deposit : ℤ → Account → Run (Bool × Account)
deposit amount a =
    if leb_ℤ amount (pos 0)
    then throws (invalid_argument "Deposit amount must be positive")
    else (do held ← lock a; paid ← credit amount held; ok (true, unlock paid))

unfoldable pub withdraw : ℤ → Account → Run (Bool × Account)
withdraw amount a =
    if leb_ℤ amount (pos 0)
    then throws (invalid_argument "Withdrawal amount must be positive")
    else (do
      held ← lock a
      if ltb_ℤ held.available_balance amount
          then ok (false, unlock held)
          else (do paid ← debit amount held; ok (true, unlock paid)))

unfoldable pub deposit_unlocked : ℤ → Account → Run Account
deposit_unlocked amount a =
    if leb_ℤ amount (pos 0)
    then throws (invalid_argument "Deposit amount must be positive")
    else credit amount a

unfoldable pub withdraw_unlocked : ℤ → Account → Run (Bool × Account)
withdraw_unlocked amount a =
    if leb_ℤ amount (pos 0)
    then throws (invalid_argument "Withdrawal amount must be positive")
    else if ltb_ℤ a.available_balance amount
    then ok (false, a)
    else (do paid ← debit amount a; ok (true, paid))

unfoldable pub get_actual_balance : Account → Run ℤ
get_actual_balance a = do held ← lock a; ok held.actual_balance

unfoldable pub get_available_balance : Account → Run ℤ
get_available_balance a = do held ← lock a; ok held.available_balance

unfoldable pub get_balance_unlocked : Account → ℤ
get_balance_unlocked a = a.available_balance

unfoldable pub set_balances_unlocked : ℤ → ℤ → Account → Account
set_balances_unlocked actual available a = record a {
  actual_balance = actual;
  available_balance = available;
}

unfoldable pub set_balances : ℤ → ℤ → Account → Run Account
unfolding set_balances_unlocked
set_balances actual available a = do
  held ← lock a
  ok (unlock (set_balances_unlocked actual available held))
