-- ===== src/User.antt =====
-- `User` of backend/include/user.hpp. The table of accounts holds `shared_ptr`s, which are places
-- in the heap of accounts.
use concurrent_banking_syste.Prelude.{ℕ, String}
use concurrent_banking_syste.Prelude.Int.{ℤ}
use concurrent_banking_syste.HashTable.{HashTable}

-- A `shared_ptr<Account>` and a `shared_ptr<User>`.
abbrev pub AccountPtr : Type 0
AccountPtr = ℕ

abbrev pub UserPtr : Type 0
UserPtr = ℕ

pub record User : Type 0 where
  pub user_id : ℤ
  pub full_name : String
  pub address : String
  pub mobile : String
  pub email : String
  pub gender : String
  pub nid : String
  pub password_hash : String
  pub user_created_at : String
  pub user_updated_at : String
  pub login_status : String
  pub accounts : HashTable ℤ AccountPtr

unfoldable pub set_login : String → User → User
set_login login user = record user { login_status = login }
