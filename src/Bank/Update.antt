-- ===== src/Bank/Update.antt =====
-- What `applyMemoryUpdate` leaves in memory, on each of its branches.
use concurrent_banking_syste.Prelude.{
  ◌≡◌, ◌≢◌, refl, sym, ap, ◌∙◌, Bool, true, false, some, arith, if◌then◌else◌, Bool-cases, inl, inr,
}
use concurrent_banking_syste.Prelude.Int.{ℤ, pos, ◌≤ℤ◌, ◌<ℤ◌, ltb_ℤ}
use concurrent_banking_syste.Run.{Run, ok, throws, Exception, invalid_argument, blocked}
use concurrent_banking_syste.Exec.{done, thrown, stuck, give}
use concurrent_banking_syste.Account
use concurrent_banking_syste.Account.{Account}
use concurrent_banking_syste.Account.Laws.{
  CanTake, CanGive, raised, lowered, credit-raised, debit-lowered,
}
use concurrent_banking_syste.Memory.{Memory, put, no_value}
use concurrent_banking_syste.User.{AccountPtr}
use concurrent_banking_syste.Bank.{
  with_account, lock_account, unlock_account, deposit_at, withdraw_at, guarded, release,
  transfer_between,
}
use concurrent_banking_syste.Bank.Cells.{
  cell, two, two_same, on_left, on_right, on_left_thrown, on_one, on_one_thrown, put_same,
  cell-put_self, with_account-done, with_account-stuck,
}

if_same {ℓ} : {A : Type ℓ} (b : Bool) (x : A) → (if b then x else x) ≡ x
if_same true x = refl
if_same false x = refl

-- The account with its mutex held.
abbrev pub held : Account → Account
held a = record a { mutex = true }

pub lock-held : (a : Account) → a.mutex ≡ false → no_value (Account.lock a) ≡ ok (tt, held a)
unfolding Account.lock
lock-held a free = rw free

module _ (amount : ℤ) where
  pub deposit_unlocked-raised :
      (a : Account)
      → pos 0 <ℤ amount
      → CanTake amount a
      → no_value (Account.deposit_unlocked amount a) ≡ ok (tt, raised amount a)
  unfolding Account.deposit_unlocked
  deposit_unlocked-raised a p c = ground (arith, credit-raised amount a c)

  pub withdraw_unlocked-lowered :
      (a : Account)
      → pos 0 <ℤ amount
      → amount ≤ℤ a.available_balance
      → CanGive amount a
      → Account.withdraw_unlocked amount a ≡ ok (true, lowered amount a)
  unfolding Account.withdraw_unlocked
  withdraw_unlocked-lowered a p l c = ground (arith, debit-lowered amount a c)

  pub withdraw_unlocked-poor :
      (a : Account)
      → pos 0 <ℤ amount
      → a.available_balance <ℤ amount
      → Account.withdraw_unlocked amount a ≡ ok (false, a)
  unfolding Account.withdraw_unlocked
  withdraw_unlocked-poor a p l = ground arith

  pub withdraw_unlocked-throws :
      (a : Account)
      → amount ≤ℤ pos 0
      → Account.withdraw_unlocked amount a
        ≡ throws (invalid_argument "Withdrawal amount must be positive")
  unfolding Account.withdraw_unlocked
  withdraw_unlocked-throws a l = ground arith

  pub deposit_unlocked-throws :
      (a : Account)
      → amount ≤ℤ pos 0
      → no_value (Account.deposit_unlocked amount a)
        ≡ throws (invalid_argument "Deposit amount must be positive")
  unfolding Account.deposit_unlocked
  deposit_unlocked-throws a l = ground arith

module _ (m : Memory) {p q : AccountPtr} (ne : p ≢ q) {a b : Account} (ha : cell m p ≡ some a)
    (hb : cell m q ≡ some b) (fa : a.mutex ≡ false) (fb : b.mutex ≡ false) (amount i j : ℤ) where
  -- With both mutexes taken, in either order, the two methods run and the mutexes are given back.
  steps :
      {a' b' : Account} {paid : Bool}
      → Account.withdraw_unlocked amount (held a) ≡ ok (paid, a')
      → no_value (Account.deposit_unlocked amount (held b)) ≡ ok (tt, b')
      → transfer_between amount i j p q (two m p a q b)
        ≡ done true (two m p (Account.unlock a') q (Account.unlock b'))
  unfolding transfer_between lock_account unlock_account deposit_at withdraw_at
  steps {a'} {b'} {paid} wa db = elim (Bool-cases (ltb_ℤ i j)) [
    | inl e ↦ rw (
      e,
      on_left m ne ha hb (λ x. no_value (Account.lock x)) a b (lock-held a fa),
      on_right m ne ha hb (λ x. no_value (Account.lock x)) (held a) b (lock-held b fb),
      on_left m ne ha hb (Account.withdraw_unlocked amount) (held a) (held b) wa,
      on_right m ne ha hb (λ x. no_value (Account.deposit_unlocked amount x)) a' (held b) db,
      on_right m ne ha hb (λ x. ok (tt, Account.unlock x)) a' b' refl,
      on_left m ne ha hb (λ x. ok (tt, Account.unlock x)) a' (Account.unlock b') refl,
    )
    | inr e ↦ rw (
      e,
      on_right m ne ha hb (λ x. no_value (Account.lock x)) a b (lock-held b fb),
      on_left m ne ha hb (λ x. no_value (Account.lock x)) a (held b) (lock-held a fa),
      on_left m ne ha hb (Account.withdraw_unlocked amount) (held a) (held b) wa,
      on_right m ne ha hb (λ x. no_value (Account.deposit_unlocked amount x)) a' (held b) db,
      on_left m ne ha hb (λ x. ok (tt, Account.unlock x)) a' b' refl,
      on_right m ne ha hb (λ x. ok (tt, Account.unlock x)) (Account.unlock a') b' refl,
    )
  ]

  unlocked-lowered : Account.unlock (lowered amount (held a)) ≡ lowered amount a
  unfolding Account.unlock
  unlocked-lowered = ap (λ x. record (lowered amount a) { mutex = x }) (sym fa)

  unlocked-raised : Account.unlock (raised amount (held b)) ≡ raised amount b
  unfolding Account.unlock
  unlocked-raised = ap (λ x. record (raised amount b) { mutex = x }) (sym fb)

  unlocked-held : Account.unlock (held a) ≡ a
  unfolding Account.unlock
  unlocked-held = ap (λ x. record a { mutex = x }) (sym fa)

  -- The update of two different accounts with free mutexes, for a positive amount that the sender
  -- has and that keeps all balances in `int64_t`, in either lock order: the amount moves, both
  -- mutexes are free again, and nothing else in memory changes.
  pub transfer_moves :
      pos 0 <ℤ amount
      → amount ≤ℤ a.available_balance
      → CanGive amount a
      → CanTake amount b
      → transfer_between amount i j p q m
        ≡ done true (two m p (lowered amount a) q (raised amount b))
  transfer_moves pos_amount enough give take =
      ap (transfer_between amount i j p q) (sym (two_same m ne ha hb))
      ∙ steps
          (withdraw_unlocked-lowered amount (held a) pos_amount enough
            (record { actual_fits = give.actual_fits; available_fits = give.available_fits }))
          (deposit_unlocked-raised amount (held b) pos_amount
            (record { actual_fits = take.actual_fits; available_fits = take.available_fits }))
      ∙ ap (done true) (
          ap (λ x. two m p x q (Account.unlock (raised amount (held b)))) unlocked-lowered
          ∙ ap (λ x. two m p (lowered amount a) q x) unlocked-raised)

  -- The same update where the cached available balance of the sender is lower than the amount: the
  -- answer is true, the sender keeps the balance, and the receiver is paid.
  pub transfer_creates :
      pos 0 <ℤ amount
      → a.available_balance <ℤ amount
      → CanTake amount b
      → transfer_between amount i j p q m ≡ done true (two m p a q (raised amount b))
  transfer_creates pos_amount poor take =
      ap (transfer_between amount i j p q) (sym (two_same m ne ha hb))
      ∙ steps (withdraw_unlocked-poor amount (held a) pos_amount poor) (
          deposit_unlocked-raised amount (held b) pos_amount
            (record { actual_fits = take.actual_fits; available_fits = take.available_fits }))
      ∙ ap (done true) (
          ap (λ x. two m p x q (Account.unlock (raised amount (held b)))) unlocked-held
          ∙ ap (λ x. two m p a q x) unlocked-raised)

  steps_thrown :
      {e : Exception}
      → Account.withdraw_unlocked amount (held a) ≡ throws e
      → transfer_between amount i j p q (two m p a q b) ≡ thrown e (two m p (held a) q (held b))
  unfolding transfer_between lock_account unlock_account deposit_at withdraw_at
  steps_thrown wa = elim (Bool-cases (ltb_ℤ i j)) [
    | inl e ↦ rw (
      e,
      on_left m ne ha hb (λ x. no_value (Account.lock x)) a b (lock-held a fa),
      on_right m ne ha hb (λ x. no_value (Account.lock x)) (held a) b (lock-held b fb),
      on_left_thrown m ne ha hb (Account.withdraw_unlocked amount) (held a) (held b) wa,
    )
    | inr e ↦ rw (
      e,
      on_right m ne ha hb (λ x. no_value (Account.lock x)) a b (lock-held b fb),
      on_left m ne ha hb (λ x. no_value (Account.lock x)) a (held b) (lock-held a fa),
      on_left_thrown m ne ha hb (Account.withdraw_unlocked amount) (held a) (held b) wa,
    )
  ]

  -- The same update for an amount that is not positive: it ends in the exception of the withdrawal,
  -- with the balances as they were and both mutexes held.
  pub transfer_throws :
      amount ≤ℤ pos 0
      → transfer_between amount i j p q m
        ≡ thrown
            (invalid_argument "Withdrawal amount must be positive")
            (two m p (held a) q (held b))
  transfer_throws l =
      ap (transfer_between amount i j p q) (sym (two_same m ne ha hb))
      ∙ steps_thrown (withdraw_unlocked-throws amount (held a) l)

-- One account under a `MutexGuard`.
module _ (m : Memory) (p : AccountPtr) {a : Account} (h : cell m p ≡ some a)
    (free : a.mutex ≡ false) (amount : ℤ) where
  unlocked_same : Account.unlock (held a) ≡ a
  unfolding Account.unlock
  unlocked_same = ap (λ x. record a { mutex = x }) (sym free)

  guarded_steps :
      {A : Type 0} {a' : Account} {x : A} (method : Account → Run (A × Account))
      → method (held a) ≡ ok (x, a')
      → guarded p (with_account p method) m ≡ done x (put m p (Account.unlock a'))
  unfolding guarded release lock_account unlock_account
  guarded_steps {a'} method e =
      ap (guarded p (with_account p method)) (sym (put_same m p h))
      ∙ rw (
        on_one m p h (λ x. no_value (Account.lock x)) a (lock-held a free),
        on_one m p h method (held a) e,
        on_one m p h (λ x. ok (tt, Account.unlock x)) a' refl,
      )

  guarded_thrown :
      {A : Type 0} {x : Exception} (method : Account → Run (A × Account))
      → method (held a) ≡ throws x
      → guarded p (with_account p method) m ≡ thrown x m
  unfolding guarded release lock_account unlock_account
  guarded_thrown {x} method e =
      ap (guarded p (with_account p method)) (sym (put_same m p h))
      ∙ rw
          (
            on_one m p h (λ x. no_value (Account.lock x)) a (lock-held a free),
            on_one_thrown m p h method (held a) e,
            on_one m p h (λ x. ok (tt, Account.unlock x)) (held a) refl,
          )
          (ap (thrown x) (ap (put m p) unlocked_same ∙ put_same m p h))

  pub deposit_pays :
      pos 0 <ℤ amount
      → CanTake amount a
      → guarded p (deposit_at amount p) m ≡ done tt (put m p (raised amount a))
  unfolding deposit_at Account.unlock
  deposit_pays l c =
      guarded_steps (λ x. no_value (Account.deposit_unlocked amount x))
        (deposit_unlocked-raised amount (held a) l
          (record { actual_fits = c.actual_fits; available_fits = c.available_fits }))
      ∙ ap (λ x. done tt (put m p (record (raised amount a) { mutex = x }))) (sym free)

  pub withdraw_pays :
      pos 0 <ℤ amount
      → amount ≤ℤ a.available_balance
      → CanGive amount a
      → guarded p (withdraw_at amount p) m ≡ done true (put m p (lowered amount a))
  unfolding withdraw_at Account.unlock
  withdraw_pays l enough c =
      guarded_steps (Account.withdraw_unlocked amount) (
        withdraw_unlocked-lowered amount (held a) l enough
          (record { actual_fits = c.actual_fits; available_fits = c.available_fits }))
      ∙ ap (λ x. done true (put m p (record (lowered amount a) { mutex = x }))) (sym free)

  -- The guard gives the mutex back when the method throws.
  pub deposit_throws :
      amount ≤ℤ pos 0
      → guarded p (deposit_at amount p) m
        ≡ thrown (invalid_argument "Deposit amount must be positive") m
  unfolding deposit_at
  deposit_throws l =
      guarded_thrown (λ x. no_value (Account.deposit_unlocked amount x))
        (deposit_unlocked-throws amount (held a) l)

  pub withdraw_throws :
      amount ≤ℤ pos 0
      → guarded p (withdraw_at amount p) m
        ≡ thrown (invalid_argument "Withdrawal amount must be positive") m
  unfolding withdraw_at
  withdraw_throws l =
      guarded_thrown (Account.withdraw_unlocked amount) (withdraw_unlocked-throws amount (held a) l)

-- The update for a transfer from an account to itself blocks on a mutex, for every amount and
-- whether or not the mutex was free.
pub transfer_to_self :
    (m : Memory) (p : AccountPtr) {a : Account} (amount i j : ℤ)
    → cell m p ≡ some a
    → transfer_between amount i j p p m ≡ stuck blocked
unfolding transfer_between lock_account Account.lock
transfer_to_self m p {a} amount i j h = rw (if_same (ltb_ℤ i j) p) (elim (Bool-cases a.mutex) [
  | inl e ↦ rw (with_account-stuck m p (λ x. no_value (Account.lock x)) {u = blocked} h (rw e))
  | inr e ↦ rw (
    with_account-done m p (λ x. no_value (Account.lock x)) h (lock-held a e),
    with_account-stuck (put m p (held a)) p (λ x. no_value (Account.lock x)) {u = blocked}
        (cell-put_self m p h (held a)) refl,
  )
])
