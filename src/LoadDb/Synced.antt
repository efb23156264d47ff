-- ===== src/LoadDb/Synced.antt =====
-- When the accounts in memory mirror the rows of the database.
use mathlib.Core.Path.{subst}
use concurrent_banking_syste.Prelude.{
  ◌≡◌, ◌≢◌, refl, sym, ap, ◌∙◌, false, Option, some, none, if◌then◌else◌, Bool-cases, inl, inr,
  get_elem?-set_ne,
}
use concurrent_banking_syste.Prelude.Int.{ℤ, eqb_ℤ, eqb_ℤ_iff}
use concurrent_banking_syste.Run.{ok}
use concurrent_banking_syste.HashTable.{Key}
use concurrent_banking_syste.Account.{Account}
use concurrent_banking_syste.User.{AccountPtr}
use concurrent_banking_syste.Memory.{Memory, put, find_account, user_at}
use concurrent_banking_syste.Bank.Cells.{cell, cell-put_self}
use concurrent_banking_syste.Postgres.{Balances}

-- The rows with one row replaced.
abbrev pub changed : (ℤ → Option Balances) → ℤ → Balances → ℤ → Option Balances
changed f id b j = if eqb_ℤ id j then some b else f j

module _ ⦃key : Key ℤ⦄ where
  -- Memory finds the account under `id`, with its mutex free and the balances `b`.
  pub record CachedAs (m : Memory) (id : ℤ) (b : Balances) : Type 0 where
    pub ptr : AccountPtr
    pub account : Account
    pub found : find_account id m ≡ ok (some ptr)
    pub cell_at : cell m ptr ≡ some account
    pub named : account.account_id ≡ id
    pub free : account.mutex ≡ false
    pub actual_is : account.actual_balance ≡ b.actual
    pub available_is : account.available_balance ≡ b.available

  abbrev pub Cached : Memory → ℤ → Option Balances → Type 0
  Cached m id none = find_account id m ≡ ok none
  Cached m id (some b) = CachedAs m id b

  -- Every row of Account_Table is cached with its balances, and nothing else is found.
  abbrev pub Synced : (ℤ → Option Balances) → Memory → Type 0
  Synced f m = (id : ℤ) → Cached m id (f id)

  pub Synced-ext :
      (f g : ℤ → Option Balances) (m : Memory) → ((j : ℤ) → g j ≡ f j) → Synced f m → Synced g m
  Synced-ext f g m e s j = rw (e j) (s j)

  pub find_account-put :
      (m : Memory) (p : AccountPtr) (a : Account) (id : ℤ)
      → find_account id (put m p a) ≡ find_account id m
  unfolding find_account user_at
  find_account-put m p a id = refl

  pub ptr-ne :
      {m : Memory} {i j : ℤ} {b c : Balances} (x : CachedAs m i b) (y : CachedAs m j c)
      → i ≢ j
      → x.ptr ≢ y.ptr
  ptr-ne {m} {i} x y ne e =
      let same : some x.account ≡ some y.account =
        sym x.cell_at ∙ ap (λ p. cell m p) e ∙ y.cell_at in
      ne (sym x.named ∙ ap (λ o. elim o [ some z ↦ z.account_id | none ↦ i ]) same ∙ y.named)

  -- The entry of another account is not touched by a write.
  unfoldable pub other_cached :
      {m : Memory} {i j : ℤ} {b c : Balances} (x : CachedAs m i b) (a : Account)
      → i ≢ j
      → CachedAs m j c
      → CachedAs (put m x.ptr a) j c
  other_cached {m} x a ne y = record {
    ptr = y.ptr;
    account = y.account;
    found = find_account-put m x.ptr a _ ∙ y.found;
    cell_at = get_elem?-set_ne m.accounts x.ptr y.ptr a (ptr-ne x y ne) ∙ y.cell_at;
    named = y.named;
    free = y.free;
    actual_is = y.actual_is;
    available_is = y.available_is;
  }

  other_entry :
      {m : Memory} {i j : ℤ} {b : Balances} (x : CachedAs m i b) (a : Account)
      → i ≢ j
      → (o : Option Balances) → Cached m j o
      → Cached (put m x.ptr a) j o
  other_entry {m} {j} x a ne none h = find_account-put m x.ptr a j ∙ h
  other_entry x a ne (some c) y = other_cached x a ne y

  -- A write to the account under `id`, of the same id and with a free mutex, changes its row.
  pub put-Synced :
      (f : ℤ → Option Balances) (m : Memory) (id : ℤ) {b : Balances} (b' : Balances)
      (x : CachedAs m id b) (a : Account)
      → Synced f m
      → a.account_id ≡ id
      → a.mutex ≡ false
      → a.actual_balance ≡ b'.actual
      → a.available_balance ≡ b'.available
      → Synced (changed f id b') (put m x.ptr a)
  put-Synced f m id b' x a s named free actual available j = elim (Bool-cases (eqb_ℤ id j)) [
    | inl e ↦ rw e (
        subst (λ k. CachedAs (put m x.ptr a) k b') ((eqb_ℤ_iff id j).0 e)
          (record {
            ptr = x.ptr;
            account = a;
            found = find_account-put m x.ptr a id ∙ x.found;
            cell_at = cell-put_self m x.ptr x.cell_at a;
            named = named;
            free = free;
            actual_is = actual;
            available_is = available;
          }))
    | inr e ↦ rw e (other_entry x a (λ same. cc ((eqb_ℤ_iff id j).1 same)) (f j) (s j))
  ]
