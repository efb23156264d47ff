-- ===== src/Bank/Tests.antt =====
-- Two accounts with free mutexes in memory.
use concurrent_banking_syste.Prelude.{ℕ, ◌≡◌, ◌≢◌, refl, [], ◌∷◌, true, false, arith}
use concurrent_banking_syste.Prelude.Int.{ℤ, pos, ◌+ℤ◌, ◌-ℤ◌}
use concurrent_banking_syste.Run.{blocked}
use concurrent_banking_syste.Exec.{done, stuck}
use concurrent_banking_syste.HashTable.{HashTable}
use concurrent_banking_syste.Account.{Account}
use concurrent_banking_syste.Account.Laws.{raised, lowered}
use concurrent_banking_syste.TransactionLog
use concurrent_banking_syste.Memory.{Memory}
use concurrent_banking_syste.Bank.{transfer_between}
use concurrent_banking_syste.Bank.Cells.{two}
use concurrent_banking_syste.Bank.Update.{transfer_moves, transfer_creates, transfer_to_self}

abbrev one_bucket : {K V : Type 0} → HashTable K V
one_bucket = record { buckets = [] ∷ []; entry_count = 0 }

abbrev account : ℤ → ℤ → Account
account id balance = record {
  account_id = id;
  account_number = "";
  account_holder = "";
  actual_balance = balance;
  available_balance = balance;
  hold_amount = pos 0;
  account_status = "";
  account_type = "";
  account_created_at = "";
  account_updated_at = "";
  transactions = one_bucket;
  mutex = false;
}

abbrev rich : Account
rich = account (pos 1) (pos 100)

abbrev poor : Account
poor = account (pos 2) (pos 5)

abbrev memory : Memory
memory = record {
  accounts = rich ∷ poor ∷ [];
  users = [];
  bank_db = one_bucket;
  account_to_user = one_bucket;
  log = TransactionLog.new;
}

zero-ne : ◌≢◌ {A = ℕ} 0 1
zero-ne = omega arith

one-ne : ◌≢◌ {A = ℕ} 1 0
one-ne = omega arith

transfer_moves_example :
    transfer_between (pos 30) (pos 1) (pos 2) 0 1 memory
    ≡ done true (two memory 0 (lowered (pos 30) rich) 1 (raised (pos 30) poor))
unfolding ◌-ℤ◌ ◌+ℤ◌
transfer_moves_example =
    transfer_moves memory zero-ne refl refl refl refl (pos 30) (pos 1) (pos 2) (ground arith)
      (ground arith) (record { actual_fits = refl; available_fits = refl })
      (record { actual_fits = refl; available_fits = refl })

transfer_creates_example :
    transfer_between (pos 30) (pos 2) (pos 1) 1 0 memory
    ≡ done true (two memory 1 poor 0 (raised (pos 30) rich))
unfolding ◌+ℤ◌
transfer_creates_example =
    transfer_creates memory one-ne refl refl refl refl (pos 30) (pos 2) (pos 1) (ground arith)
      (ground arith) (record { actual_fits = refl; available_fits = refl })

transfer_to_self_example : transfer_between (pos 30) (pos 1) (pos 1) 0 0 memory ≡ stuck blocked
transfer_to_self_example = transfer_to_self memory 0 (pos 30) (pos 1) (pos 1) refl
