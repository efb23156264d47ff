-- ===== src/Account/Laws.antt =====
-- What one call does to the balances of an account.
use concurrent_banking_syste.Prelude.{◌-◌, ◌^◌, ◌≡◌, true, false, arith, if◌then◌else◌}
use concurrent_banking_syste.Prelude.Int.{
  ℤ, pos, ◌+ℤ◌, ◌-ℤ◌, ◌≤ℤ◌, ◌<ℤ◌, leb_ℤ, fits64, +ℤ_parts, -ℤ_parts, int_laws,
}
use concurrent_banking_syste.Run.{ok, throws, invalid_argument, ◌>>=◌, add64, sub64}
use concurrent_banking_syste.Account.{
  Account, lock, unlock, credit, debit, deposit, withdraw, deposit_unlocked, withdraw_unlocked,
}

-- Both balances of `a` can take `amount` more, or less, within `int64_t`.
pub record CanTake (amount : ℤ) (a : Account) : Type 0 where
  pub actual_fits : fits64 (a.actual_balance +ℤ amount) ≡ true
  pub available_fits : fits64 (a.available_balance +ℤ amount) ≡ true

pub record CanGive (amount : ℤ) (a : Account) : Type 0 where
  pub actual_fits : fits64 (a.actual_balance -ℤ amount) ≡ true
  pub available_fits : fits64 (a.available_balance -ℤ amount) ≡ true

-- The account with both balances up, or down, by an amount.
abbrev pub raised : ℤ → Account → Account
raised amount a = record a {
  actual_balance = a.actual_balance +ℤ amount;
  available_balance = a.available_balance +ℤ amount;
}

abbrev pub lowered : ℤ → Account → Account
lowered amount a = record a {
  actual_balance = a.actual_balance -ℤ amount;
  available_balance = a.available_balance -ℤ amount;
}

pub credit-raised :
    (amount : ℤ) (a : Account) → CanTake amount a → credit amount a ≡ ok (raised amount a)
unfolding credit add64
credit-raised amount a c = rw (c.actual_fits, c.available_fits)

pub debit-lowered :
    (amount : ℤ) (a : Account) → CanGive amount a → debit amount a ≡ ok (lowered amount a)
unfolding debit sub64
debit-lowered amount a c = rw (c.actual_fits, c.available_fits)

-- On an account with a free mutex, `deposit` does what `depositUnlocked` does for every amount,
-- exceptions and overflow included, and answers true where that one returns.
pub deposit-unlocked :
    (amount : ℤ) (a : Account)
    → a.mutex ≡ false
    → deposit amount a ≡ (deposit_unlocked amount a >>= λ paid. ok (true, paid))
unfolding deposit deposit_unlocked lock unlock credit add64
deposit-unlocked amount a free = ground arith

-- On an account with a free mutex, `withdraw` and `withdrawUnlocked` do the same for every amount,
-- exceptions and overflow included.
pub withdraw-unlocked :
    (amount : ℤ) (a : Account) → a.mutex ≡ false → withdraw amount a ≡ withdraw_unlocked amount a
unfolding withdraw withdraw_unlocked lock unlock debit sub64
withdraw-unlocked amount a free = ground arith

-- A balance that is not negative, not above the actual one, and within `int64_t`.
pub record IsSound (a : Account) : Type 0 where
  pub nonneg : pos 0 ≤ℤ a.available_balance
  pub backed : a.available_balance ≤ℤ a.actual_balance
  pub small : a.actual_balance ≤ℤ pos (2 ^ 63 - 1)

pub sound-CanGive :
    (amount : ℤ) (a : Account)
    → IsSound a
    → pos 0 <ℤ amount
    → amount ≤ℤ a.available_balance
    → CanGive amount a
sound-CanGive amount a s p l = record {
  actual_fits = ground (arith, -ℤ_parts a.actual_balance amount);
  available_fits = ground (arith, -ℤ_parts a.available_balance amount);
}

pub sound-CanTake :
    (amount : ℤ) (a : Account)
    → IsSound a
    → pos 0 <ℤ amount
    → a.actual_balance +ℤ amount ≤ℤ pos (2 ^ 63 - 1)
    → CanTake amount a
sound-CanTake amount a s p l = record {
  actual_fits = ground (arith, +ℤ_parts a.actual_balance amount);
  available_fits =
      ground (arith, +ℤ_parts a.available_balance amount, +ℤ_parts a.actual_balance amount);
}

pub lowered-IsSound :
    (amount : ℤ) (a : Account)
    → IsSound a
    → pos 0 <ℤ amount
    → amount ≤ℤ a.available_balance
    → IsSound (lowered amount a)
lowered-IsSound amount a s p l = omega int_laws

pub raised-IsSound :
    (amount : ℤ) (a : Account)
    → IsSound a
    → pos 0 <ℤ amount
    → a.actual_balance +ℤ amount ≤ℤ pos (2 ^ 63 - 1)
    → IsSound (raised amount a)
raised-IsSound amount a s p l = omega int_laws

-- Every branch of `withdraw` on a sound account with a free mutex: an exception for an amount that
-- is not positive, false and no change for one above the available balance, and otherwise both
-- balances lower by the amount, without overflow.
pub withdraw_lem :
    (amount : ℤ) (a : Account)
    → IsSound a
    → a.mutex ≡ false
    → withdraw amount a ≡ (
        if leb_ℤ amount (pos 0)
        then throws (invalid_argument "Withdrawal amount must be positive")
        else if leb_ℤ amount a.available_balance
        then ok (true, lowered amount a)
        else ok (false, a))
unfolding withdraw_unlocked
withdraw_lem amount a s free =
    rw (withdraw-unlocked amount a free)
      (ground (arith, sound-CanGive amount a s, debit-lowered amount a))

-- Every branch of `deposit` on a sound account with a free mutex, for an amount that keeps the
-- actual balance in `int64_t`: an exception for an amount that is not positive, and otherwise both
-- balances higher by the amount.
pub deposit_lem :
    (amount : ℤ) (a : Account)
    → IsSound a
    → a.mutex ≡ false
    → a.actual_balance +ℤ amount ≤ℤ pos (2 ^ 63 - 1)
    → deposit amount a ≡ (
        if leb_ℤ amount (pos 0)
        then throws (invalid_argument "Deposit amount must be positive")
        else ok (true, raised amount a))
unfolding deposit_unlocked
deposit_lem amount a s free room =
    rw (deposit-unlocked amount a free)
      (ground (arith, sound-CanTake amount a s, credit-raised amount a))
