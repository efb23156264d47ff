-- ===== src/Requests.antt =====
-- The requests of backend/include/transaction_request.hpp and the response of
-- backend/include/response_queue.hpp. A connection is a number that names a socket; `none` is a
-- null pointer.
use concurrent_banking_syste.Prelude.{ℕ, Bool, Option, String}
use concurrent_banking_syste.Prelude.Int.{ℤ}

abbrev pub Connection : Type 0
Connection = Option ℕ

pub record LoginRequest : Type 0 where
  pub user_id : ℤ
  pub password : String
  pub connection : Connection
  pub is_refresh : Bool

pub record AccountCreationRequest : Type 0 where
  pub user_id : Option ℤ
  pub full_name : String
  pub address : String
  pub mobile : String
  pub email : String
  pub gender : String
  pub nid : String
  pub account_type : String
  pub password : String
  pub connection : Connection

pub record TransactionRequest : Type 0 where
  pub account_id : ℤ
  pub transaction_type : String
  pub to_account : Option ℤ
  pub from_account : Option ℤ
  pub transaction_amount : ℤ
  pub remarks : String
  pub connection : Connection

pub record TransactionResponse : Type 0 where
  pub request_id : ℤ
  pub success : Bool
  pub message : String
  pub new_balance_cents : ℤ
  pub type : String
  pub amount : ℤ
