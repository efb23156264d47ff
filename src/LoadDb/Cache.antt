-- ===== src/LoadDb/Cache.antt =====
-- `applyMemoryUpdate` after the database has changed a row, or two: memory mirrors the new rows.
use concurrent_banking_syste.Prelude.{◌≡◌, ◌≢◌, ap, true, Option, some}
use concurrent_banking_syste.Prelude.Int.{ℤ, pos, ◌+ℤ◌, ◌-ℤ◌, ◌≤ℤ◌, ◌<ℤ◌, fits64}
use concurrent_banking_syste.Exec.{done}
use concurrent_banking_syste.HashTable.{Key}
use concurrent_banking_syste.Account.Laws.{raised, lowered, CanTake, CanGive}
use concurrent_banking_syste.Memory.{Memory, put}
use concurrent_banking_syste.Requests.{TransactionRequest}
use concurrent_banking_syste.Bank.{apply_memory_update, apply_found, apply_transfer}
use concurrent_banking_syste.Bank.Update.{transfer_moves, deposit_pays, withdraw_pays}
use concurrent_banking_syste.Postgres.{Balances, minus, plus}
use concurrent_banking_syste.LoadDb.Synced.{
  CachedAs, Synced, changed, put-Synced, other_cached, ptr-ne,
}

-- Balances that are `int64_t`s.
abbrev pub InRange : Balances → Type 0
InRange b = (fits64 b.actual ≡ true) × (fits64 b.available ≡ true)

module _ ⦃key : Key ℤ⦄ where
  can_give :
      {m : Memory} {id : ℤ} {b : Balances} (x : ℤ) (c : CachedAs m id b)
      → InRange (minus x b)
      → CanGive x c.account
  can_give x c r = record {
    actual_fits = rw c.actual_is r.0;
    available_fits = rw c.available_is r.1;
  }

  can_take :
      {m : Memory} {id : ℤ} {b : Balances} (x : ℤ) (c : CachedAs m id b)
      → InRange (plus x b)
      → CanTake x c.account
  can_take x c r = record {
    actual_fits = rw c.actual_is r.0;
    available_fits = rw c.available_is r.1;
  }

  module _ (t : TransactionRequest) (f : ℤ → Option Balances) (m : Memory) (s : Synced f m)
      (b : Balances) (c : CachedAs m t.account_id b)
      (positive : pos 0 <ℤ t.transaction_amount) where
    abbrev x : ℤ
    x = t.transaction_amount

    lowered-Synced : Synced (changed f t.account_id (minus x b)) (put m c.ptr (lowered x c.account))
    lowered-Synced =
        put-Synced f m t.account_id (minus x b) c (lowered x c.account) s c.named c.free
          (ap (λ y. y -ℤ x) c.actual_is) (ap (λ y. y -ℤ x) c.available_is)

    pub update_withdraw :
        t.transaction_type ≡ "WITHDRAW"
        → x ≤ℤ b.available
        → InRange (minus x b)
        → (m' : Memory) × (apply_memory_update t m ≡ done true m')
          × Synced (changed f t.account_id (minus x b)) m'
    unfolding apply_memory_update apply_found
    update_withdraw ty enough r = (
      put m c.ptr (lowered x c.account),
      rw (
        c.found,
        ty,
        withdraw_pays m c.ptr c.cell_at c.free x positive (rw c.available_is enough)
            (can_give x c r),
      ),
      lowered-Synced,
    )

    pub update_deposit :
        t.transaction_type ≡ "DEPOSIT"
        → InRange (plus x b)
        → (m' : Memory) × (apply_memory_update t m ≡ done true m')
          × Synced (changed f t.account_id (plus x b)) m'
    unfolding apply_memory_update apply_found
    update_deposit ty r = (
      put m c.ptr (raised x c.account),
      rw (c.found, ty, deposit_pays m c.ptr c.cell_at c.free x positive (can_take x c r)),
      put-Synced f m t.account_id (plus x b) c (raised x c.account) s c.named c.free
          (ap (λ y. y +ℤ x) c.actual_is) (ap (λ y. y +ℤ x) c.available_is),
    )

    pub update_transfer :
        (to_id : ℤ) (b₂ : Balances) (c₂ : CachedAs m to_id b₂)
        → t.transaction_type ≡ "TRANSFER"
        → t.to_account ≡ some to_id
        → t.account_id ≢ to_id
        → x ≤ℤ b.available
        → InRange (minus x b)
        → InRange (plus x b₂)
        → (m' : Memory) × (apply_memory_update t m ≡ done true m')
          × Synced (changed (changed f t.account_id (minus x b)) to_id (plus x b₂)) m'
    unfolding apply_memory_update apply_found apply_transfer other_cached
    update_transfer to_id b₂ c₂ ty dest ne enough r r₂ =
        let c' = other_cached c (lowered x c.account) ne c₂ in
        (
          put (put m c.ptr (lowered x c.account)) c₂.ptr (raised x c₂.account),
          rw (
            c.found,
            ty,
            dest,
            c₂.found,
            transfer_moves m (ptr-ne c c₂ ne) c.cell_at c₂.cell_at c.free c₂.free x t.account_id
                to_id positive (rw c.available_is enough) (can_give x c r) (can_take x c₂ r₂),
          ),
          put-Synced (changed f t.account_id (minus x b)) (put m c.ptr (lowered x c.account)) to_id
              (plus x b₂) c' (raised x c₂.account) lowered-Synced c₂.named c₂.free
              (ap (λ y. y +ℤ x) c₂.actual_is) (ap (λ y. y +ℤ x) c₂.available_is),
        )
