-- ===== src/TransactionLog/Tests.antt =====
-- A log with one transfer.
use concurrent_banking_syste.Prelude.{◌≡◌, refl, some, arith, if◌then◌else◌}
use concurrent_banking_syste.Prelude.Int.{ℤ, pos, eqb_ℤ, ◌+ℤ◌}
use concurrent_banking_syste.Run.{Run, Returns}
use concurrent_banking_syste.HashTable.IntKey.{cast_key}
use concurrent_banking_syste.HashTable.Placed.{view}
use concurrent_banking_syste.Transaction.{transfer_out}
use concurrent_banking_syste.TransactionLog
use concurrent_banking_syste.TransactionLog.{
  TransactionLog, entry, record_entry, touches, get_history_for_account,
}
use concurrent_banking_syste.TransactionLog.Record.{IsValid, new-IsValid_log, record_entry_lem}

abbrev empty : TransactionLog
empty = TransactionLog.new

abbrev pay : TransactionLog → Run TransactionLog
pay = record_entry ⦃key = cast_key⦄ transfer_out (pos 1) (pos 30) (pos 70) (some (pos 2))

empty-next : empty.next_id ≡ pos 0
unfolding TransactionLog.new
empty-next = refl

record_entry_lem_example : Returns (pay empty) λ log.
    IsValid ⦃key = cast_key⦄ log
    × (log.next_id ≡ empty.next_id +ℤ pos 1)
    × ((id : ℤ)
        → view ⦃key = cast_key⦄ log.transactions id ≡ (
            if eqb_ℤ empty.next_id id
            then some (entry empty.next_id transfer_out (pos 1) (pos 30) (some (pos 2)))
            else view ⦃key = cast_key⦄ empty.transactions id))
record_entry_lem_example =
    record_entry_lem ⦃key = cast_key⦄ transfer_out (pos 1) (pos 30) (pos 70) (some (pos 2)) empty
      (new-IsValid_log ⦃key = cast_key⦄) (rw empty-next (ground arith))
