-- ===== src/StoreUsers.antt =====
-- `Load_DB::store_users` of backend/include/database_loader.hpp: the rows of the query that joins
-- users, accounts and transactions become objects in memory.
pub mod Loaded
pub mod Example
mod Tests
use concurrent_banking_syste.Prelude.{
  ℕ, false, Option, none, some, String, List, [], ◌∷◌, ◌++◌, length, if◌then◌else◌,
}
use concurrent_banking_syste.Prelude.Int.{ℤ, negsuc, eqb_ℤ}
use concurrent_banking_syste.Run.{Run, ok, throws, fault, bad_field, ◌>>=◌}
use concurrent_banking_syste.Exec.{Outcome, done, thrown, stuck, Action, ◌>>◌, continue, give}
use concurrent_banking_syste.HashTable
use concurrent_banking_syste.HashTable.{HashTable, Key, default_buckets}
use concurrent_banking_syste.Account.{Account}
use concurrent_banking_syste.Transaction.{Transaction}
use concurrent_banking_syste.User.{User, AccountPtr, UserPtr}
use concurrent_banking_syste.Memory.{Memory}

-- A row of the result: a field is `none` where it is null.
pub record Row : Type 0 where
  pub user_id : Option ℤ
  pub full_name : Option String
  pub address : Option String
  pub mobile : Option String
  pub email : Option String
  pub gender : Option String
  pub nid : Option String
  pub password_hash : Option String
  pub user_created_at : Option String
  pub user_updated_at : Option String
  pub login_status : Option String
  pub account_id : Option ℤ
  pub account_number : Option String
  pub account_holder : Option String
  pub actual_balance : Option ℤ
  pub available_balance : Option ℤ
  pub hold_amount : Option ℤ
  pub account_status : Option String
  pub account_type : Option String
  pub account_created_at : Option String
  pub account_updated_at : Option String
  pub transaction_id : Option ℤ
  pub transaction_type : Option String
  pub from_account : Option ℤ
  pub to_account : Option ℤ
  pub transaction_amount : Option ℤ
  pub receiver_name : Option String
  pub receiver_mobile : Option String
  pub remarks : Option String
  pub transaction_status : Option String
  pub transaction_at : Option String

-- `field.as<T>()`, which throws for a null.
abbrev pub get : {A : Type 0} → Option A → Run A
get none = throws bad_field
get (some a) = ok a

abbrev pub or_empty : Option String → String
or_empty none = ""
or_empty (some s) = s

abbrev pub or_minus_one : Option ℤ → ℤ
or_minus_one none = negsuc 0
or_minus_one (some i) = i

-- The two tables that the method fills, and what it changes of memory.
pub record Loading : Type 0 where
  pub transactions : HashTable ℤ Transaction
  pub accounts : HashTable ℤ AccountPtr
  pub memory : Memory

abbrev pub no_transactions : HashTable ℤ Transaction
no_transactions = HashTable.new ℤ Transaction default_buckets

abbrev pub no_accounts : HashTable ℤ AccountPtr
no_accounts = HashTable.new ℤ AccountPtr default_buckets

abbrev pub start : Memory → Loading
start m = record { transactions = no_transactions; accounts = no_accounts; memory = m }

read_transaction : ℤ → Row → Run Transaction
read_transaction id r = do
  amount ← get r.transaction_amount
  type ← get r.transaction_type
  remarks ← get r.remarks
  status ← get r.transaction_status
  at_time ← get r.transaction_at
  ok (record {
    transaction_id = id;
    from_account = r.from_account;
    to_account = r.to_account;
    transaction_amount = amount;
    receiver_name = or_empty r.receiver_name;
    receiver_mobile = or_empty r.receiver_mobile;
    remarks = remarks;
    transaction_status = status;
    transaction_at = at_time;
    transaction_type = type;
  })

read_account : ℤ → Row → HashTable ℤ Transaction → Run Account
read_account id r transactions = do
  number ← get r.account_number
  holder ← get r.account_holder
  actual ← get r.actual_balance
  available ← get r.available_balance
  hold ← get r.hold_amount
  status ← get r.account_status
  type ← get r.account_type
  created ← get r.account_created_at
  updated ← get r.account_updated_at
  ok (record {
    account_id = id;
    account_number = number;
    account_holder = holder;
    actual_balance = actual;
    available_balance = available;
    hold_amount = hold;
    account_status = status;
    account_type = type;
    account_created_at = created;
    account_updated_at = updated;
    transactions = transactions;
    mutex = false;
  })

read_user : ℤ → Row → HashTable ℤ AccountPtr → Run User
read_user id r accounts = do
  full_name ← get r.full_name
  address ← get r.address
  mobile ← get r.mobile
  email ← get r.email
  gender ← get r.gender
  nid ← get r.nid
  password_hash ← get r.password_hash
  created ← get r.user_created_at
  updated ← get r.user_updated_at
  status ← get r.login_status
  ok (record {
    user_id = id;
    full_name = full_name;
    address = address;
    mobile = mobile;
    email = email;
    gender = gender;
    nid = nid;
    password_hash = password_hash;
    user_created_at = created;
    user_updated_at = updated;
    login_status = status;
    accounts = accounts;
  })

-- A step that changes nothing before it may throw.
stage : (Loading → Run Loading) → Action Loading (Unit {0})
stage f l = elim (f l) [ ok l' ↦ done tt l' | throws e ↦ thrown e l | fault u ↦ stuck u ]

-- The two tables are local to the method.
forget : Outcome Loading (Unit {0}) → Outcome Memory (Unit {0})
forget (done x l) = done x l.memory
forget (thrown e l) = thrown e l.memory
forget (stuck u) = stuck u

module _ ⦃key : Key ℤ⦄ where
  unfoldable pub add_transaction : Row → Loading → Run Loading
  unfolding read_transaction
  add_transaction r l = elim r.transaction_id [
    | none ↦ ok l
    | some id ↦ do
      t ← read_transaction id r
      transactions ← HashTable.insert id t l.transactions
      ok (record l { transactions = transactions })
  ]

  -- `make_shared` allocates a new place at the end of the heap.
  unfoldable pub add_account : ℤ → Row → Loading → Run Loading
  unfolding read_account
  add_account id r l = do
    a ← read_account id r l.transactions
    accounts ← HashTable.insert id (length l.memory.accounts) l.accounts
    ok (record {
      transactions = no_transactions;
      accounts = accounts;
      memory = record l.memory { accounts = l.memory.accounts ++ a ∷ [] };
    })

  unfoldable pub add_user : ℤ → Row → Loading → Run Loading
  unfolding read_user
  add_user id r l = do
    u ← read_user id r l.accounts
    bank_db ← HashTable.insert id (length l.memory.users) l.memory.bank_db
    ok (record {
      transactions = no_transactions;
      accounts = no_accounts;
      memory = record l.memory { users = l.memory.users ++ u ∷ []; bank_db = bank_db };
    })

  -- The account of a row, if it is the last row of that account: `other` is the account of the next
  -- row, or -1.
  unfoldable pub close_account : Row → ℤ → Loading → Run Loading
  close_account r other l = elim r.account_id [
    | none ↦ ok l
    | some id ↦ if eqb_ℤ id other then ok l else add_account id r l
  ]

  -- The body of the loop, for a row of the user `id` and the next row. An exception leaves what was
  -- done before it.
  unfoldable pub store_user_row : ℤ → Row → Row → Action Loading (Unit {0})
  unfolding stage
  store_user_row id r next =
      stage (add_transaction r)
      >> stage (close_account r (or_minus_one next.account_id))
      >> (if eqb_ℤ id (or_minus_one next.user_id) then give tt else stage (add_user id r))

  unfoldable pub store_row : Row → Row → Action Loading (Unit {0})
  store_row r next = elim r.user_id [ none ↦ give tt | some id ↦ store_user_row id r next ]

  -- What follows the loop, for the last row.
  unfoldable pub close_last_account : Row → Loading → Run Loading
  close_last_account r l = elim r.account_id [ none ↦ ok l | some id ↦ add_account id r l ]

  unfoldable pub store_last_row : ℤ → Row → Action Loading (Unit {0})
  unfolding stage
  store_last_row id r =
      stage (add_transaction r) >> stage (close_last_account r) >> stage (add_user id r)

  unfoldable pub store_last : Row → Action Loading (Unit {0})
  store_last r = elim r.user_id [ none ↦ give tt | some id ↦ store_last_row id r ]

  store_rows : Row → List Row → Action Loading (Unit {0})
  store_rows r [] = store_last r
  store_rows r (next ∷ rs) = store_row r next >> store_rows next rs

  unfoldable pub store_users : List Row → Action Memory (Unit {0})
  unfolding store_rows forget
  store_users [] m = done tt m
  store_users (r ∷ rs) m = forget (store_rows r rs (start m))
