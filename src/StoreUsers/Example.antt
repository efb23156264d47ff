-- ===== src/StoreUsers/Example.antt =====
-- Two users, the first with an account and a transaction.
use concurrent_banking_syste.Prelude.{refl, inl, inr, none, some, List, [], ◌∷◌, All}
use concurrent_banking_syste.Prelude.Int.{ℤ, pos}
use concurrent_banking_syste.HashTable
use concurrent_banking_syste.User.{UserPtr}
use concurrent_banking_syste.TransactionLog
use concurrent_banking_syste.Memory.{Memory}
use concurrent_banking_syste.StoreUsers.{Row}
use concurrent_banking_syste.StoreUsers.Loaded.{IsWhole, HasUser}

abbrev bare : ℤ → Row
bare id = record {
  user_id = some id;
  full_name = some "";
  address = some "";
  mobile = some "";
  email = some "";
  gender = some "";
  nid = some "";
  password_hash = some "";
  user_created_at = some "";
  user_updated_at = some "";
  login_status = some "";
  account_id = none;
  account_number = none;
  account_holder = none;
  actual_balance = none;
  available_balance = none;
  hold_amount = none;
  account_status = none;
  account_type = none;
  account_created_at = none;
  account_updated_at = none;
  transaction_id = none;
  transaction_type = none;
  from_account = none;
  to_account = none;
  transaction_amount = none;
  receiver_name = none;
  receiver_mobile = none;
  remarks = none;
  transaction_status = none;
  transaction_at = none;
}

abbrev with_account : Row
with_account = record (bare (pos 1)) {
  account_id = some (pos 5);
  account_number = some "";
  account_holder = some "";
  actual_balance = some (pos 100);
  available_balance = some (pos 100);
  hold_amount = some (pos 0);
  account_status = some "";
  account_type = some "";
  account_created_at = some "";
  account_updated_at = some "";
  transaction_id = some (pos 9);
  transaction_type = some "DEPOSIT";
  transaction_amount = some (pos 100);
  remarks = some "";
  transaction_status = some "";
  transaction_at = some "";
}

abbrev pub rows : List Row
rows = with_account ∷ bare (pos 2) ∷ []

bare-HasUser : (id : ℤ) → HasUser (bare id)
bare-HasUser id = record {
  user_id = (id, refl);
  full_name = ("", refl);
  address = ("", refl);
  mobile = ("", refl);
  email = ("", refl);
  gender = ("", refl);
  nid = ("", refl);
  password_hash = ("", refl);
  user_created_at = ("", refl);
  user_updated_at = ("", refl);
  login_status = ("", refl);
}

with_account-IsWhole : IsWhole with_account
with_account-IsWhole = record {
  user = record {
    user_id = (pos 1, refl);
    full_name = ("", refl);
    address = ("", refl);
    mobile = ("", refl);
    email = ("", refl);
    gender = ("", refl);
    nid = ("", refl);
    password_hash = ("", refl);
    user_created_at = ("", refl);
    user_updated_at = ("", refl);
    login_status = ("", refl);
  };
  account = inr (record {
    account_id = (pos 5, refl);
    account_number = ("", refl);
    account_holder = ("", refl);
    actual_balance = (pos 100, refl);
    available_balance = (pos 100, refl);
    hold_amount = (pos 0, refl);
    account_status = ("", refl);
    account_type = ("", refl);
    account_created_at = ("", refl);
    account_updated_at = ("", refl);
  });
  transaction = inr (record {
    transaction_id = (pos 9, refl);
    transaction_amount = (pos 100, refl);
    transaction_type = ("DEPOSIT", refl);
    remarks = ("", refl);
    transaction_status = ("", refl);
    transaction_at = ("", refl);
  });
}

pub rows-IsWhole : All IsWhole rows
rows-IsWhole = (
  with_account-IsWhole,
  (record { user = bare-HasUser (pos 2); account = inl refl; transaction = inl refl }, tt),
)

abbrev pub memory : Memory
memory = record {
  accounts = [];
  users = [];
  bank_db = HashTable.new ℤ UserPtr 16;
  account_to_user = HashTable.new ℤ ℤ 16;
  log = TransactionLog.new;
}
