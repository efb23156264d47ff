-- ===== src/Bank/Example.antt =====
-- A bank with one user, who has one account, in valid tables.
use concurrent_banking_syste.Prelude.{ℕ, ◌≡◌, refl, [], ◌∷◌, arith, get_or, replicate, flatten}
use concurrent_banking_syste.Prelude.Int.{ℤ, pos}
use concurrent_banking_syste.Run.{returned}
use concurrent_banking_syste.HashTable
use concurrent_banking_syste.HashTable.{HashTable, insert, overwrite, bucket_index, get_all}
use concurrent_banking_syste.HashTable.IntKey.{cast_key}
use concurrent_banking_syste.HashTable.Placed.{IsValid}
use concurrent_banking_syste.HashTable.Empty.{new-IsValid}
use concurrent_banking_syste.HashTable.Methods.{insert-Writes}
use concurrent_banking_syste.HashTable.Snapshot.{get_all-eq}
use concurrent_banking_syste.User.{User}
use concurrent_banking_syste.TransactionLog
use concurrent_banking_syste.Memory.{Memory}

abbrev pub table : ℤ → HashTable ℤ ℕ
table k = record { buckets = ((k, 0) ∷ []) ∷ []; entry_count = 1 }

empty-IsValid : IsValid {V = ℕ} ⦃key = cast_key⦄ (record { buckets = [] ∷ []; entry_count = 0 })
unfolding HashTable.new replicate
empty-IsValid = new-IsValid {K = ℤ} {V = ℕ} ⦃key = cast_key⦄ 1 (omega arith)

pub bank-IsValid : IsValid ⦃key = cast_key⦄ (table (pos 7))
unfolding insert overwrite bucket_index get_or
bank-IsValid = (returned (insert-Writes ⦃key = cast_key⦄ _ empty-IsValid (pos 7) 0) refl).valid

pub accounts-IsValid : IsValid ⦃key = cast_key⦄ (table (pos 1))
unfolding insert overwrite bucket_index get_or
accounts-IsValid = (returned (insert-Writes ⦃key = cast_key⦄ _ empty-IsValid (pos 1) 0) refl).valid

abbrev pub user : User
user = record {
  user_id = pos 7;
  full_name = "";
  address = "";
  mobile = "";
  email = "";
  gender = "";
  nid = "";
  password_hash = "";
  user_created_at = "";
  user_updated_at = "";
  login_status = "";
  accounts = table (pos 1);
}

abbrev pub memory : Memory
memory = record {
  accounts = [];
  users = user ∷ [];
  bank_db = table (pos 7);
  account_to_user = record { buckets = [] ∷ []; entry_count = 0 };
  log = TransactionLog.new;
}

-- The table with one entry lists it.
pub get_all-table : (k : ℤ) → get_all (table k) ≡ (k, 0) ∷ []
unfolding flatten
get_all-table k = get_all-eq (table k)
