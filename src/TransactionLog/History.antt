-- ===== src/TransactionLog/History.antt =====
-- What `getHistoryForAccount` and `getAllTransactions` return, and how a record changes it.
use mathlib.Core.List.{append_assoc, append-nil}
use concurrent_banking_syste.Prelude.{
  ap, if◌then◌else◌, ◌+◌, ◌≡◌, sym, ◌∙◌, true, Option, List, [], ◌∷◌, ◌++◌, map, arith, length,
  length-append, All, All-append, Bool-cases, inl, inr,
}
use concurrent_banking_syste.Prelude.Int.{eqb_ℤ, ℤ}
use concurrent_banking_syste.Run.{◌>>=◌, Returns}
use concurrent_banking_syste.HashTable.{Key, get_all}
use concurrent_banking_syste.HashTable.Bucket.{to_nat}
use concurrent_banking_syste.HashTable.Tally.{tally, tally-insert}
use concurrent_banking_syste.Transaction.{Transaction, TransactionType}
use concurrent_banking_syste.TransactionLog.{
  TransactionLog, next, entry, record_entry, touches, collect, collect_all, get_history_for_account,
}
use concurrent_banking_syste.TransactionLog.Record.{IsValid, names, entry-touches}

length-collect :
    (account : ℤ) (result : List Transaction) (es : List (ℤ × Transaction))
    → length (collect account result es) ≡ length result + tally (λ e. touches account e.1) es
unfolding collect tally
length-collect account result [] = omega arith
length-collect account result (e ∷ es) = ground (
  arith,
  length-collect account result es,
  length-collect account (result ++ e.1 ∷ []) es,
  length-append result (e.1 ∷ []),
)

collect-touches :
    (account : ℤ) (result : List Transaction) (es : List (ℤ × Transaction))
    → All (λ t. touches account t ≡ true) result
    → All (λ t. touches account t ≡ true) (collect account result es)
unfolding collect
collect-touches account result [] h = h
collect-touches account result (e ∷ es) h = elim (Bool-cases (touches account e.1)) [
  | inl yes_it ↦ rw yes_it (
      collect-touches account (result ++ e.1 ∷ []) es
        (All-append (λ t. touches account t ≡ true) result (e.1 ∷ []) h (yes_it, tt)))
  | inr no_it ↦ rw no_it (collect-touches account result es h)
]

collect_all-eq :
    (result : List Transaction) (es : List (ℤ × Transaction))
    → collect_all result es ≡ result ++ map (λ e. e.1) es
unfolding collect_all
collect_all-eq result [] = sym (append-nil result)
collect_all-eq result (e ∷ es) =
    collect_all-eq (result ++ e.1 ∷ []) es ∙ append_assoc result (e.1 ∷ []) (map (λ x. x.1) es)

-- An account's history holds only transactions that name it as sender or receiver.
pub history-touches :
    (account : ℤ) (log : TransactionLog)
    → All (λ t. touches account t ≡ true) (get_history_for_account account log)
unfolding get_history_for_account
history-touches account log = collect-touches account [] (get_all log.transactions) tt

-- On a valid log, `record` lengthens the history of an account by one if the account is the one
-- recorded for, or the other side of a transfer, and otherwise leaves the length as it was.
pub length-history-record :
    ⦃key : Key ℤ⦄
    → (type : TransactionType) (account amount after : ℤ) (related : Option ℤ)
      (log : TransactionLog) (other : ℤ)
    → IsValid log
    → Returns (record_entry type account amount after related log) λ log'.
      length (get_history_for_account other log')
      ≡ length (get_history_for_account other log)
        + to_nat (if eqb_ℤ account other then true else names type related other)
unfolding record_entry get_history_for_account
length-history-record type account amount after related log other v =
    let t = entry log.next_id type account amount related in
    let (table, run, e) =
      tally-insert (λ e. touches other e.1) log.transactions log.next_id t v.table
        (v.unused log.next_id (omega arith)) in
    (
      record { transactions = table; next_id = next log.next_id },
      rw (run, ◌>>=◌),
      omega (
        arith,
        length-collect other [] (get_all table),
        length-collect other [] (get_all log.transactions),
        e,
        ap to_nat (entry-touches log.next_id type account amount related other),
      ),
    )
