-- ===== src/TransactionLog.antt =====
-- `TransactionLog` of backend/include/transaction_log.hpp: a table of transactions under ids that
-- an atomic counter hands out.
pub mod Record
pub mod History
mod Tests
use concurrent_banking_syste.Prelude.{
  ℕ, ◌-◌, ◌^◌, Bool, true, false, ◌||◌, Option, none, some, String, List, [], ◌∷◌, ◌++◌,
  if◌then◌else◌,
}
use concurrent_banking_syste.Prelude.Int.{ℤ, pos, negsuc, ◌+ℤ◌, eqb_ℤ}
use concurrent_banking_syste.Run.{Run, ok, ◌>>=◌}
use concurrent_banking_syste.HashTable
use concurrent_banking_syste.HashTable.{HashTable, Key, default_buckets}
use concurrent_banking_syste.Transaction.{
  Transaction, TransactionType, deposit, withdrawal, transfer_in, transfer_out,
}

pub record TransactionLog : Type 0 where
  pub transactions : HashTable ℤ Transaction
  pub next_id : ℤ

unfoldable pub new : TransactionLog
new = record { transactions = HashTable.new ℤ Transaction default_buckets; next_id = pos 0 }

-- `nextId_++` on a `std::atomic<int>` goes round at the end of `int`.
abbrev pub next : ℤ → ℤ
next id = if eqb_ℤ id (pos (2 ^ 31 - 1)) then negsuc (2 ^ 31 - 1) else id +ℤ pos 1

-- The two conditional initialisers and the two overrides that follow them.
unfoldable pub from_of : TransactionType → ℤ → Option ℤ → Option ℤ
from_of deposit account related = none
from_of withdrawal account related = some account
from_of transfer_in account related = related
from_of transfer_out account related = some account

unfoldable pub to_of : TransactionType → ℤ → Option ℤ → Option ℤ
to_of deposit account related = some account
to_of withdrawal account related = none
to_of transfer_in account related = some account
to_of transfer_out account related = related

unfoldable pub type_string : TransactionType → String
type_string deposit = "DEPOSIT"
type_string withdrawal = "WITHDRAWAL"
type_string transfer_in = "TRANSFER_IN"
type_string transfer_out = "TRANSFER_OUT"

-- The transaction that `record` builds.
unfoldable pub entry : ℤ → TransactionType → ℤ → ℤ → Option ℤ → Transaction
unfolding from_of to_of type_string
entry id type account amount related = record {
  transaction_id = id;
  from_account = from_of type account related;
  to_account = to_of type account related;
  transaction_amount = amount;
  receiver_name = "";
  receiver_mobile = "";
  remarks = "";
  transaction_status = "SUCCESS";
  transaction_at = "";
  transaction_type = type_string type;
}

-- `balance_after` is taken and not used.
unfoldable pub record_entry :
    ⦃key : Key ℤ⦄ → TransactionType → ℤ → ℤ → ℤ → Option ℤ → TransactionLog → Run TransactionLog
record_entry type account amount balance_after related log = do
  transactions ←
      HashTable.insert log.next_id (entry log.next_id type account amount related) log.transactions
  ok (record { transactions = transactions; next_id = next log.next_id })

matches : ℤ → Option ℤ → Bool
matches account none = false
matches account (some id) = eqb_ℤ id account

-- The test of the loop of `getHistoryForAccount`.
unfoldable pub touches : ℤ → Transaction → Bool
unfolding matches
touches account t = matches account t.from_account || matches account t.to_account

collect : ℤ → List Transaction → List (ℤ × Transaction) → List Transaction
collect account result [] = result
collect account result (e ∷ es) =
    collect account (if touches account e.1 then result ++ e.1 ∷ [] else result) es

unfoldable pub get_history_for_account : ℤ → TransactionLog → List Transaction
unfolding collect
get_history_for_account account log = collect account [] (HashTable.get_all log.transactions)

collect_all : List Transaction → List (ℤ × Transaction) → List Transaction
collect_all result [] = result
collect_all result (e ∷ es) = collect_all (result ++ e.1 ∷ []) es

unfoldable pub get_all_transactions : TransactionLog → List Transaction
unfolding collect_all
get_all_transactions log = collect_all [] (HashTable.get_all log.transactions)
