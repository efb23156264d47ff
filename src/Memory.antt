-- ===== src/Memory.antt =====
-- What `Bank` and `Load_DB` keep in memory, and the methods of `Bank` in backend/include/bank.hpp that
-- only look things up. A `shared_ptr` is a place in a heap, so that two ways to one account see one
-- another's changes.
pub mod Reads
use concurrent_banking_syste.Prelude.{Bool, Option, none, some, List, [], ◌∷◌, get_elem?, set}
use concurrent_banking_syste.Prelude.Int.{ℤ}
use concurrent_banking_syste.Run.{Run, ok, fault, null_pointer, ◌>>=◌}
use concurrent_banking_syste.HashTable
use concurrent_banking_syste.HashTable.{HashTable, Key, default_buckets}
use concurrent_banking_syste.Account
use concurrent_banking_syste.Account.{Account}
use concurrent_banking_syste.User.{User, AccountPtr, UserPtr}
use concurrent_banking_syste.TransactionLog.{TransactionLog}

-- The two heaps, the table `bank_db` of `Load_DB`, and the fields of `Bank`.
pub record Memory : Type 0 where
  pub accounts : List Account
  pub users : List User
  pub bank_db : HashTable ℤ UserPtr
  pub account_to_user : HashTable ℤ ℤ
  pub log : TransactionLog

-- `*p`.
unfoldable pub user_at : UserPtr → Memory → Run User
user_at p m = elim (get_elem? m.users p) [ some u ↦ ok u | none ↦ fault null_pointer ]

unfoldable pub account_at : AccountPtr → Memory → Run Account
account_at p m = elim (get_elem? m.accounts p) [ some a ↦ ok a | none ↦ fault null_pointer ]

abbrev pub put : Memory → AccountPtr → Account → Memory
put m p a = record m { accounts = set m.accounts p a }

abbrev pub no_value : Run Account → Run (Unit {0} × Account)
no_value r = r >>= λ a. ok (tt, a)

module _ ⦃key : Key ℤ⦄ where
  -- By the index to the user, and by the user's table to the account.
  unfoldable pub find_account : ℤ → Memory → Run (Option AccountPtr)
  find_account account_id m = HashTable.find account_id m.account_to_user >>= λ owner. elim owner [
    | none ↦ ok none
    | some user_id ↦ HashTable.find user_id m.bank_db >>= λ found. elim found [
      | none ↦ ok none
      | some p ↦ user_at p m >>= λ user. HashTable.find account_id user.accounts
    ]
  ]

  -- The loops of the constructor.
  unfoldable pub index_accounts : ℤ → List (ℤ × AccountPtr) → HashTable ℤ ℤ → Run (HashTable ℤ ℤ)
  index_accounts user_id [] index = ok index
  index_accounts user_id (e ∷ es) index =
      HashTable.insert e.0 user_id index >>= index_accounts user_id es

  unfoldable pub index_users : Memory → List (ℤ × UserPtr) → HashTable ℤ ℤ → Run (HashTable ℤ ℤ)
  unfolding index_accounts
  index_users m [] index = ok index
  index_users m (e ∷ es) index = user_at e.1 m >>= λ user.
      index_accounts e.0 (HashTable.get_all user.accounts) index >>= index_users m es

  unfoldable pub construct : Memory → Run Memory
  unfolding index_users
  construct m =
      index_users m (HashTable.get_all m.bank_db) (HashTable.new ℤ ℤ default_buckets) >>= λ index.
      ok (record m { account_to_user = index })

  -- `none` where the method returns false.
  unfoldable pub get_balance : ℤ → Memory → Run (Option ℤ)
  get_balance account_id m = find_account account_id m >>= λ found. elim found [
    | none ↦ ok none
    | some p ↦ account_at p m >>= λ a. Account.get_actual_balance a >>= λ b. ok (some b)
  ]

  unfoldable pub account_exists : ℤ → Memory → Run Bool
  account_exists account_id m = HashTable.contains account_id m.account_to_user
