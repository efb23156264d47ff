-- ===== src/LoadDb/Tests.antt =====
-- Calls of `Load_DB::transaction` on the example bank.
use concurrent_banking_syste.Prelude.{false, some, ◌≡◌, refl, [], ◌∷◌, arith}
use concurrent_banking_syste.Prelude.Int.{pos, ◌+ℤ◌, ◌-ℤ◌}
use concurrent_banking_syste.HashTable.IntKey.{cast_key}
use concurrent_banking_syste.Postgres.{
  withdraw_statement, deposit_statement, at_id, withdrawn, deposited,
}
use concurrent_banking_syste.Postgres.Ledger.{ledger, run, keep, in_range}
use concurrent_banking_syste.LoadDb.{
  transaction, told, branch, transfer_branch, withdraw_branch, update_both, log_both, value,
}
use concurrent_banking_syste.LoadDb.Promise.{Ends, Promise}
use concurrent_banking_syste.LoadDb.Single.{
  HasFunds, Exists, single_row, single_log, withdraw_ends, deposit_ends,
}
use concurrent_banking_syste.Exec.{done}
use concurrent_banking_syste.Bank.Cells.{two}
use concurrent_banking_syste.Bank.Update.{held}
use concurrent_banking_syste.LoadDb.Faults.{Committed, transfer_leaves_held, withdraw_leaves_stale}
use concurrent_banking_syste.LoadDb.Transfer.{
  sender_row, receiver_row, transfer_script, transferred, transfer_ends,
}
use concurrent_banking_syste.LoadDb.Example.{
  account, memory, first_cached, second_cached, transfer_negative, withdraw_negative,
  db_transferred, db_withdrawn, db, world, world-Synced, withdraw_30, deposit_30, transfer_30,
}

withdraw_ends_example : Ends (transaction ledger ⦃key = cast_key⦄ withdraw_30 world) (
    Promise ledger ⦃key = cast_key⦄
      (HasFunds (pos 30) (ledger.balances db (pos 1)))
      (withdraw_statement (pos 30) (pos 1) ∷ single_log withdraw_30 ∷ [])
      (at_id (ledger.balances db) (pos 1) (withdrawn (pos 30)))
      (single_row withdraw_30 ∷ [])
      world)
withdraw_ends_example =
    withdraw_ends ledger ⦃key = cast_key⦄ withdraw_30 world world-Synced (ground arith) refl

deposit_ends_example : Ends (transaction ledger ⦃key = cast_key⦄ deposit_30 world) (
    Promise ledger ⦃key = cast_key⦄
      (Exists (ledger.balances db (pos 1)))
      (deposit_statement (pos 30) (pos 1) ∷ single_log deposit_30 ∷ [])
      (at_id (ledger.balances db) (pos 1) (deposited (pos 30)))
      (single_row deposit_30 ∷ [])
      world)
deposit_ends_example =
    deposit_ends ledger ⦃key = cast_key⦄ deposit_30 world world-Synced (ground arith) refl

transfer_ends_example : Ends (transaction ledger ⦃key = cast_key⦄ transfer_30 world) (
    Promise ledger ⦃key = cast_key⦄
      (HasFunds (pos 30) (ledger.balances db (pos 1)) × Exists (ledger.balances db (pos 2)))
      (transfer_script transfer_30 (pos 2))
      (transferred (ledger.balances db) (pos 30) (pos 1) (pos 2))
      (sender_row transfer_30 (pos 2) ∷ receiver_row transfer_30 (pos 2) ∷ [])
      world)
transfer_ends_example =
    transfer_ends ledger ⦃key = cast_key⦄ transfer_30 world (pos 2) (ground arith) world-Synced
      (ground arith) refl refl

transfer-Committed :
    Committed ledger ⦃key = cast_key⦄ transfer_negative world db_transferred db_transferred
unfolding branch transfer_branch update_both log_both value run keep in_range ◌+ℤ◌ ◌-ℤ◌
transfer-Committed = record { reaches = refl; commits = refl }

withdraw-Committed :
    Committed ledger ⦃key = cast_key⦄ withdraw_negative world db_withdrawn db_withdrawn
unfolding branch withdraw_branch run keep in_range ◌+ℤ◌ ◌-ℤ◌
withdraw-Committed = record { reaches = refl; commits = refl }

transfer_leaves_held_example :
    transaction ledger ⦃key = cast_key⦄ transfer_negative world
    ≡ done false (
        told (some 9) "ERROR" (record world {
          db = db_transferred;
          memory =
              two memory 0 (held (account (pos 1) (pos 100))) 1 (held (account (pos 2) (pos 50)));
        }))
unfolding first_cached second_cached
transfer_leaves_held_example =
    transfer_leaves_held ledger ⦃key = cast_key⦄ transfer_negative world first_cached second_cached
      refl refl (ground arith) (ground arith) transfer-Committed

withdraw_leaves_stale_example :
    transaction ledger ⦃key = cast_key⦄ withdraw_negative world
    ≡ done false (told (some 9) "ERROR" (record world { db = db_withdrawn }))
withdraw_leaves_stale_example =
    withdraw_leaves_stale ledger ⦃key = cast_key⦄ withdraw_negative world first_cached refl
      (ground arith) withdraw-Committed
