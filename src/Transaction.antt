-- ===== src/Transaction.antt =====
-- `Transaction` and `TransactionType` of backend/include/transaction.hpp. A transaction is never
-- changed once it is built, so a `shared_ptr` to one is the value itself.
use concurrent_banking_syste.Prelude.{Option, String}
use concurrent_banking_syste.Prelude.Int.{ℤ}

pub data TransactionType : Type 0 where
  deposit withdrawal transfer_in transfer_out : TransactionType

pub record Transaction : Type 0 where
  pub transaction_id : ℤ
  pub from_account : Option ℤ
  pub to_account : Option ℤ
  pub transaction_amount : ℤ
  pub receiver_name : String
  pub receiver_mobile : String
  pub remarks : String
  pub transaction_status : String
  pub transaction_at : String
  pub transaction_type : String
