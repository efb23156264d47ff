-- ===== src/TransactionLog/Record.antt =====
-- The log under `record`: every transaction is kept, under an id of its own.
use concurrent_banking_syste.Prelude.{
  Bool, true, false, ◌-◌, ◌^◌, ◌≡◌, Option, none, some, arith, if◌then◌else◌,
}
use concurrent_banking_syste.Prelude.Int.{ℤ, pos, ◌+ℤ◌, ◌≤ℤ◌, ◌<ℤ◌, eqb_ℤ, +ℤ_parts, int_laws}
use concurrent_banking_syste.Run.{◌>>=◌, Returns}
use concurrent_banking_syste.HashTable.{Key}
use concurrent_banking_syste.HashTable.Placed
use concurrent_banking_syste.HashTable.Placed.{view}
use concurrent_banking_syste.HashTable.Methods.{insert-Writes}
use concurrent_banking_syste.HashTable.Empty.{new-IsValid, view-new}
use concurrent_banking_syste.HashTable.IntKey.{equal-eqb}
use concurrent_banking_syste.Transaction.{
  TransactionType, deposit, withdrawal, transfer_in, transfer_out,
}
use concurrent_banking_syste.TransactionLog.{
  TransactionLog, new, next, entry, record_entry, touches, from_of, to_of, matches,
}

-- Whether a transfer names the account as the other side.
abbrev pub names : TransactionType → Option ℤ → ℤ → Bool
names deposit related other = false
names withdrawal related other = false
names transfer_in none other = false
names transfer_in (some id) other = eqb_ℤ id other
names transfer_out none other = false
names transfer_out (some id) other = eqb_ℤ id other

pub entry-touches :
    (id : ℤ) (type : TransactionType) (account amount : ℤ) (related : Option ℤ) (other : ℤ)
    → touches other (entry id type account amount related)
      ≡ (if eqb_ℤ account other then true else names type related other)
unfolding entry touches from_of to_of matches
entry-touches id deposit account amount related other = ground arith
entry-touches id withdrawal account amount related other = ground arith
entry-touches id transfer_in account amount none other = ground arith
entry-touches id transfer_in account amount (some x) other = ground arith
entry-touches id transfer_out account amount none other = ground arith
entry-touches id transfer_out account amount (some x) other = ground arith

module _ ⦃key : Key ℤ⦄ where
  -- No transaction stands under an id that the counter has still to reach.
  pub record IsValid (log : TransactionLog) : Type 0 where
    pub table : Placed.IsValid log.transactions
    pub counted : pos 0 ≤ℤ log.next_id
    pub unused : (id : ℤ) → log.next_id ≤ℤ id → view log.transactions id ≡ none

  pub new-IsValid_log : IsValid new
  unfolding new
  new-IsValid_log = record {
    table = new-IsValid 16 (omega arith);
    counted = omega arith;
    unused = λ id _. view-new 16 id;
  }

  next-eq : (id : ℤ) → id <ℤ pos (2 ^ 31 - 1) → next id ≡ id +ℤ pos 1
  next-eq id h = ground arith

  -- On a valid log, short of 2 ^ 31 - 1 records, `record` adds its transaction under the next id,
  -- keeps what stands under every other id, and leaves the log valid.
  pub record_entry_lem :
      (type : TransactionType) (account amount after : ℤ) (related : Option ℤ)
      (log : TransactionLog)
      → IsValid log
      → log.next_id <ℤ pos (2 ^ 31 - 1)
      → Returns (record_entry type account amount after related log) λ log'.
        IsValid log'
        × (log'.next_id ≡ log.next_id +ℤ pos 1)
        × ((id : ℤ)
            → view log'.transactions id ≡ (
                if eqb_ℤ log.next_id id
                then some (entry log.next_id type account amount related)
                else view log.transactions id))
  unfolding record_entry
  record_entry_lem type account amount after related log v room =
      let t = entry log.next_id type account amount related in
      let (table, run, w) = insert-Writes log.transactions v.table log.next_id t in
      (
        record { transactions = table; next_id = next log.next_id },
        rw (run, ◌>>=◌),
        (
          record {
            table = w.valid;
            counted = rw (next-eq log.next_id room) (omega int_laws);
            unused = λ id le. ground (
              arith,
              w.reads id,
              equal-eqb log.next_id id,
              next-eq log.next_id room,
              +ℤ_parts log.next_id (pos 1),
              v.unused id,
            );
          },
          next-eq log.next_id room,
          λ id. ground (arith, w.reads id, equal-eqb log.next_id id),
        ),
      )
