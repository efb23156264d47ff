-- ===== src/FraudDetector/Tests.antt =====
-- Two accounts of one user, which pay one another almost the same amount within a minute.
use mathlib.Core.List.{Memᴰ}
use concurrent_banking_syste.Prelude.{
  ℕ, ◌+◌, ◌*◌, ◌-◌, ◌≤◌, ◌≡◌, ◌↔◌, refl, false, Option, some, String, List, [], ◌∷◌, ◌++◌, arith,
  ltb, get_or, length, replicate,
}
use concurrent_banking_syste.Prelude.Int.{ℤ, pos, pos_part, ◌-ℤ◌}
use concurrent_banking_syste.Run.{ok, Returns, sub64}
use concurrent_banking_syste.HashTable
use concurrent_banking_syste.HashTable.{HashTable, get_all}
use concurrent_banking_syste.HashTable.IntKey.{cast_key}
use concurrent_banking_syste.HashTable.Placed.{IsValid}
use concurrent_banking_syste.HashTable.Empty.{new-IsValid}
use concurrent_banking_syste.Transaction.{Transaction}
use concurrent_banking_syste.Account.{Account}
use concurrent_banking_syste.User.{User}
use concurrent_banking_syste.TransactionLog
use concurrent_banking_syste.Memory.{Memory, user_at, account_at}
use concurrent_banking_syste.FraudDetector
use concurrent_banking_syste.FraudDetector.{
  Floating, Edge, FraudDetector, find_cycles_from, hop_is_viable, breaks_off, out_of_band, at_limit,
  enter, leave, flag, visit_edge, visit_edges,
}
use concurrent_banking_syste.FraudDetector.Detect.{
  all_accounts, sort, parse_timestamp, build_graph, detect_cycles, add_edge, add_transaction,
}
use concurrent_banking_syste.FraudDetector.Cycle.{out}
use concurrent_banking_syste.FraudDetector.Exact.{IsSuspicious}
use concurrent_banking_syste.FraudDetector.Build.{
  Sent, user_transfers, account_transfers, edges_from, build_graph_lem,
}
use concurrent_banking_syste.FraudDetector.Audit.{audit, audit_lem}

-- Fractions that are not negative, as pairs.
abbrev fractions : Floating
fractions = record {
  Double = ℕ × ℕ;
  of_int64 = λ a. (pos_part a, 1);
  divide = λ a b. (a.0 * b.1, a.1 * b.0);
  subtract = λ a b. (a.0 * b.1 - b.0 * a.1, a.1 * b.1);
  less = λ a b. ltb (a.0 * b.1) (b.0 * a.1);
  one = (1, 1);
  upper = (102, 100);
}

abbrev one_bucket : {V : Type 0} → List (ℤ × V) → ℕ → HashTable ℤ V
one_bucket b n = record { buckets = b ∷ []; entry_count = n }

abbrev transfer : ℤ → ℤ → ℤ → ℤ → String → Transaction
transfer id from to amount time = record {
  transaction_id = id;
  from_account = some from;
  to_account = some to;
  transaction_amount = amount;
  receiver_name = "";
  receiver_mobile = "";
  remarks = "";
  transaction_status = "SUCCESS";
  transaction_at = time;
  transaction_type = "TRANSFER";
}

abbrev account : ℤ → Transaction → Account
account id t = record {
  account_id = id;
  account_number = "";
  account_holder = "";
  actual_balance = pos 0;
  available_balance = pos 0;
  hold_amount = pos 0;
  account_status = "";
  account_type = "";
  account_created_at = "";
  account_updated_at = "";
  transactions = one_bucket ((t.transaction_id, t) ∷ []) 1;
  mutex = false;
}

abbrev owner : User
owner = record {
  user_id = pos 7;
  full_name = "";
  address = "";
  mobile = "";
  email = "";
  gender = "";
  nid = "";
  password_hash = "";
  user_created_at = "";
  user_updated_at = "";
  login_status = "";
  accounts = one_bucket ((pos 2, 1) ∷ (pos 1, 0) ∷ []) 2;
}

abbrev memory : Memory
memory = record {
  accounts =
      account (pos 1) (transfer (pos 10) (pos 1) (pos 2) (pos 100000) "noon")
      ∷ account (pos 2) (transfer (pos 11) (pos 2) (pos 1) (pos 98000) "later")
      ∷ [];
  users = owner ∷ [];
  bank_db = one_bucket ((pos 7, 0) ∷ []) 1;
  account_to_user = one_bucket [] 0;
  log = TransactionLog.new;
}

-- A clock that knows one time.
abbrev clock : String → Option ℤ
clock s = some (pos 1000)

abbrev tolerance : ℕ × ℕ
tolerance = (5, 100)

abbrev detector : FraudDetector (ℕ × ℕ)
detector = FraudDetector.new (pos 10000) tolerance (pos 604800) 12

abbrev sent : List Sent
sent =
    (pos 2, record { to = pos 1; amount = pos 98000; timestamp = pos 1000 })
    ∷ (pos 1, record { to = pos 2; amount = pos 100000; timestamp = pos 1000 })
    ∷ []

accounts-memory : all_accounts memory ≡ ok (pos 2 ∷ pos 1 ∷ [])
unfolding all_accounts user_at get_all
accounts-memory = refl

sent-memory : user_transfers clock memory (get_all memory.bank_db) ≡ ok sent
unfolding user_transfers account_transfers user_at account_at get_all parse_timestamp
sent-memory = refl

-- The pair is flagged, from its lower account.
audit-memory :
    audit fractions ⦃key = cast_key⦄ clock 4 detector memory
    ≡ ok ((pos 1 ∷ pos 2 ∷ pos 1 ∷ []) ∷ [])
unfolding audit build_graph detect_cycles get_all user_at account_at add_transaction add_edge
    HashTable.find HashTable.bucket_index FraudDetector.new HashTable.new replicate HashTable.insert
    HashTable.overwrite get_or all_accounts sort find_cycles_from at_limit parse_timestamp
    breaks_off enter flag hop_is_viable leave out_of_band visit_edge visit_edges HashTable.find_in
    ◌-ℤ◌ sub64
audit-memory = refl

audit_lem_example : Returns (audit fractions ⦃key = cast_key⦄ clock 4 detector memory) λ flagged.
    (d' : FraudDetector (ℕ × ℕ)) × (d' ≡ record detector { graph = d'.graph })
    × ((a : ℤ) → out ⦃key = cast_key⦄ d' a ≡ edges_from a sent)
    × ((c : List ℤ)
        → Memᴰ c flagged ↔ IsSuspicious fractions ⦃key = cast_key⦄ d' (pos 2 ∷ pos 1 ∷ []) c)
audit_lem_example =
    audit_lem clock (λ s t h. ground arith) fractions ⦃key = cast_key⦄ 4 (pos 10000) tolerance
      (pos 604800) 12 memory accounts-memory sent-memory (omega arith)

build_graph_lem_example : Returns (build_graph ⦃key = cast_key⦄ clock memory detector) λ d'.
    (d' ≡ record detector { graph = d'.graph })
    × IsValid ⦃key = cast_key⦄ d'.graph
    × ((a : ℤ) → out ⦃key = cast_key⦄ d' a ≡ out ⦃key = cast_key⦄ detector a ++ edges_from a sent)
    × (length (get_all d'.graph) ≤ length (get_all detector.graph) + 2)
unfolding FraudDetector.new
build_graph_lem_example =
    build_graph_lem ⦃key = cast_key⦄ clock memory detector
      (new-IsValid ⦃key = cast_key⦄ 16 (omega arith)) sent-memory
