-- ===== src/LoadDb/Example.antt =====
-- A bank with two accounts of one user, held in a database and in memory, and requests to it.
use mathlib.Core.Path.{subst}
use concurrent_banking_syste.Prelude.{
  ℕ, ◌≡◌, refl, ◌%◌, get_or, false, Option, none, some, List, [], ◌∷◌, arith, if◌then◌else◌, String,
  Bool-cases, inl, inr,
}
use concurrent_banking_syste.Prelude.Int.{ℤ, pos, negsuc, eqb_ℤ, eqb_ℤ_iff}
use concurrent_banking_syste.Run.{ok}
use concurrent_banking_syste.HashTable.{HashTable, bucket_index, find, find_in}
use concurrent_banking_syste.HashTable.IntKey.{cast_key}
use concurrent_banking_syste.Account.{Account}
use concurrent_banking_syste.User.{User}
use concurrent_banking_syste.TransactionLog
use concurrent_banking_syste.Memory.{Memory, find_account, user_at}
use concurrent_banking_syste.Requests.{TransactionRequest}
use concurrent_banking_syste.Postgres.{
  Balances, Reply, result, fails, withdraw_statement, deposit_statement, log_statement,
}
use concurrent_banking_syste.Postgres.Ledger.{Ledger, ledger, keep, in_range, run}
use concurrent_banking_syste.LoadDb.{World}
use concurrent_banking_syste.LoadDb.Synced.{Cached, CachedAs, Synced}

abbrev pub one_bucket : {K V : Type 0} → List (K × V) → ℕ → HashTable K V
one_bucket b n = record { buckets = b ∷ []; entry_count = n }

abbrev pub account : ℤ → ℤ → Account
account id balance = record {
  account_id = id;
  account_number = "";
  account_holder = "";
  actual_balance = balance;
  available_balance = balance;
  hold_amount = pos 0;
  account_status = "";
  account_type = "";
  account_created_at = "";
  account_updated_at = "";
  transactions = one_bucket [] 0;
  mutex = false;
}

abbrev pub owner : User
owner = record {
  user_id = pos 7;
  full_name = "";
  address = "";
  mobile = "";
  email = "";
  gender = "";
  nid = "";
  password_hash = "";
  user_created_at = "";
  user_updated_at = "";
  login_status = "";
  accounts = one_bucket ((pos 1, 0) ∷ (pos 2, 1) ∷ []) 2;
}

abbrev pub memory : Memory
memory = record {
  accounts = account (pos 1) (pos 100) ∷ account (pos 2) (pos 50) ∷ [];
  users = owner ∷ [];
  bank_db = one_bucket ((pos 7, 0) ∷ []) 1;
  account_to_user = one_bucket ((pos 1, pos 7) ∷ (pos 2, pos 7) ∷ []) 2;
  log = TransactionLog.new;
}

abbrev pub both : ℤ → Balances
both x = record { actual = x; available = x }

abbrev pub db : Ledger
db = record {
  rows = λ id.
      if eqb_ℤ (pos 1) id
      then some (both (pos 100))
      else if eqb_ℤ (pos 2) id
      then some (both (pos 50))
      else none;
  log = [];
}

abbrev pub world : World Ledger
world = record { db = db; memory = memory; sent = [] }

unfoldable pub first_cached : CachedAs ⦃key = cast_key⦄ memory (pos 1) (both (pos 100))
unfolding find_account find user_at bucket_index find_in get_or
first_cached = record {
  ptr = 0;
  account = account (pos 1) (pos 100);
  found = refl;
  cell_at = refl;
  named = refl;
  free = refl;
  actual_is = refl;
  available_is = refl;
}

unfoldable pub second_cached : CachedAs ⦃key = cast_key⦄ memory (pos 2) (both (pos 50))
unfolding find_account find user_at bucket_index find_in get_or
second_cached = record {
  ptr = 1;
  account = account (pos 2) (pos 50);
  found = refl;
  cell_at = refl;
  named = refl;
  free = refl;
  actual_is = refl;
  available_is = refl;
}

mod_one : (n : ℕ) → n % 1 ≡ 0
mod_one n = omega arith

not_cached :
    (id : ℤ)
    → eqb_ℤ (pos 1) id ≡ false
    → eqb_ℤ (pos 2) id ≡ false
    → find_account ⦃key = cast_key⦄ id memory ≡ ok none
unfolding find_account find user_at bucket_index find_in get_or
not_cached id e1 e2 = rw (mod_one, e1, e2)

pub world-Synced : Synced ⦃key = cast_key⦄ (ledger.balances db) memory
unfolding keep in_range
world-Synced id = elim (Bool-cases (eqb_ℤ (pos 1) id)) [
  | inl e ↦
      subst (λ k. Cached ⦃key = cast_key⦄ memory k (ledger.balances db k))
        ((eqb_ℤ_iff (pos 1) id).0 e) first_cached
  | inr n1 ↦ elim (Bool-cases (eqb_ℤ (pos 2) id)) [
    | inl e ↦
        subst (λ k. Cached ⦃key = cast_key⦄ memory k (ledger.balances db k))
          ((eqb_ℤ_iff (pos 2) id).0 e) second_cached
    | inr n2 ↦ rw (n1, n2) (not_cached id n1 n2)
  ]
]

abbrev pub request : String → Option ℤ → ℤ → TransactionRequest
request type to_account amount = record {
  account_id = pos 1;
  transaction_type = type;
  to_account = to_account;
  from_account = none;
  transaction_amount = amount;
  remarks = "";
  connection = some 9;
}

abbrev pub withdraw_30 : TransactionRequest
withdraw_30 = request "WITHDRAW" none (pos 30)

abbrev pub deposit_30 : TransactionRequest
deposit_30 = request "DEPOSIT" none (pos 30)

abbrev pub transfer_30 : TransactionRequest
transfer_30 = request "TRANSFER" (some (pos 2)) (pos 30)

-- A transfer and a withdrawal of a negative amount, and the database after their statements.
abbrev pub transfer_negative : TransactionRequest
transfer_negative = request "TRANSFER" (some (pos 2)) (negsuc 29)

abbrev pub withdraw_negative : TransactionRequest
withdraw_negative = request "WITHDRAW" none (negsuc 29)

abbrev pub executed : Reply (ℕ × Ledger) → Ledger
executed (result r) = r.1
executed (fails e) = db

abbrev pub db_transferred : Ledger
db_transferred = executed (
    run (log_statement (pos 2) "TRANSFER" (negsuc 29) "" (some (pos 1)) none) (
      executed (
        run (log_statement (pos 1) "TRANSFER" (negsuc 29) "" none (some (pos 2))) (
          executed (
            run (deposit_statement (negsuc 29) (pos 2))
              (executed (run (withdraw_statement (negsuc 29) (pos 1)) db)))))))

abbrev pub db_withdrawn : Ledger
db_withdrawn = executed (
    run (log_statement (pos 1) "WITHDRAW" (negsuc 29) "" none none)
      (executed (run (withdraw_statement (negsuc 29) (pos 1)) db)))
