-- ===== src/Account/Tests.antt =====
-- One account, alone and over a sequence of calls.
use concurrent_banking_syste.Prelude.{◌≡◌, refl, List, [], ◌∷◌, true, false, arith, if◌then◌else◌}
use concurrent_banking_syste.Prelude.Int.{ℤ, pos, negsuc, leb_ℤ, int_laws}
use concurrent_banking_syste.Run.{ok, throws, invalid_argument, Returns}
use concurrent_banking_syste.HashTable.{HashTable}
use concurrent_banking_syste.Account.{Account, deposit, withdraw}
use concurrent_banking_syste.Account.Laws.{IsSound, raised, lowered, withdraw_lem, deposit_lem}
use concurrent_banking_syste.Account.History.{
  Operation, deposit_op, withdraw_op, run, total, moved_in, moved_out, Books, run-Books,
}

abbrev one_bucket : {K V : Type 0} → HashTable K V
one_bucket = record { buckets = [] ∷ []; entry_count = 0 }

abbrev account : ℤ → ℤ → Account
account id balance = record {
  account_id = id;
  account_number = "";
  account_holder = "";
  actual_balance = balance;
  available_balance = balance;
  hold_amount = pos 0;
  account_status = "";
  account_type = "";
  account_created_at = "";
  account_updated_at = "";
  transactions = one_bucket;
  mutex = false;
}

abbrev rich : Account
rich = account (pos 1) (pos 100)

rich-IsSound : IsSound rich
rich-IsSound = record { nonneg = ground arith; backed = ground arith; small = ground arith }

withdraw_lem_example : withdraw (pos 30) rich ≡ (
    if leb_ℤ (pos 30) (pos 0)
    then throws (invalid_argument "Withdrawal amount must be positive")
    else if leb_ℤ (pos 30) rich.available_balance
    then ok (true, lowered (pos 30) rich)
    else ok (false, rich))
withdraw_lem_example = withdraw_lem (pos 30) rich rich-IsSound refl

deposit_lem_example : deposit (pos 30) rich ≡ (
    if leb_ℤ (pos 30) (pos 0)
    then throws (invalid_argument "Deposit amount must be positive")
    else ok (true, raised (pos 30) rich))
deposit_lem_example = deposit_lem (pos 30) rich rich-IsSound refl (omega int_laws)

abbrev some_operations : List Operation
some_operations =
    withdraw_op (pos 30) ∷ deposit_op (pos 5) ∷ withdraw_op (pos 900) ∷ deposit_op (negsuc 4) ∷ []

run-Books_example :
    Returns
      (run some_operations rich)
      λ r. Books rich r.1 (total moved_in some_operations r.0) (total moved_out some_operations r.0)
run-Books_example = run-Books some_operations rich rich-IsSound refl (omega int_laws)
