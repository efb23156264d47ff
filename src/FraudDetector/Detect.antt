-- ===== src/FraudDetector/Detect.antt =====
-- `buildGraph` and `detectCycles` of backend/include/fraud_detector.hpp, over the tables in memory.
use concurrent_banking_syste.Prelude.{
  ℕ, Option, none, some, String, List, [], ◌∷◌, ◌++◌, str_eq, if◌then◌else◌,
}
use concurrent_banking_syste.Prelude.Int.{ℤ, pos, ltb_ℤ}
use concurrent_banking_syste.Run.{Run, ok, ◌>>=◌}
use concurrent_banking_syste.HashTable
use concurrent_banking_syste.HashTable.{HashTable, Key}
use concurrent_banking_syste.Transaction.{Transaction}
use concurrent_banking_syste.User.{AccountPtr, UserPtr}
use concurrent_banking_syste.Memory.{Memory, user_at, account_at}
use concurrent_banking_syste.FraudDetector.{
  Floating, Edge, FraudDetector, or_empty, Search, find_cycles_from,
}

-- The two nested loops that collect the ids of all accounts.
push_ids : List ℤ → List (ℤ × AccountPtr) → List ℤ
push_ids ids [] = ids
push_ids ids (e ∷ es) = push_ids (ids ++ e.0 ∷ []) es

collect_ids : Memory → List ℤ → List (ℤ × UserPtr) → Run (List ℤ)
unfolding push_ids
collect_ids m ids [] = ok ids
collect_ids m ids (e ∷ es) =
    user_at e.1 m >>= λ user. collect_ids m (push_ids ids (HashTable.get_all user.accounts)) es

unfoldable pub all_accounts : Memory → Run (List ℤ)
unfolding collect_ids
all_accounts m = collect_ids m [] (HashTable.get_all m.bank_db)

-- `std::sort`.
unfoldable pub insert_sorted : ℤ → List ℤ → List ℤ
insert_sorted a [] = a ∷ []
insert_sorted a (b ∷ l) = let rest = insert_sorted a l in if ltb_ℤ b a then b ∷ rest else a ∷ b ∷ l

unfoldable pub sort : List ℤ → List ℤ
unfolding insert_sorted
sort [] = []
sort (a ∷ l) = insert_sorted a (sort l)

abbrev pub fresh : ℤ → List (List ℤ) → Search
fresh s flagged = record {
  on_path = s ∷ [];
  path_nodes = s ∷ [];
  path_edges = [];
  flagged = flagged;
}

module _ (floating : Floating) ⦃key : Key ℤ⦄ where
  open floating use {Double}

  unfoldable pub search_all :
      ℕ → FraudDetector Double → List ℤ → List (List ℤ) → Run (List (List ℤ))
  search_all fuel d [] flagged = ok flagged
  search_all fuel d (s ∷ ids) flagged =
      find_cycles_from floating fuel d s s (pos 0) (pos 0) (fresh s flagged) >>= λ search.
      search_all fuel d ids search.flagged

  unfoldable pub detect_cycles : ℕ → FraudDetector Double → Memory → Run (List (List ℤ))
  unfolding search_all
  detect_cycles fuel d m = all_accounts m >>= λ ids. search_all fuel d (sort ids) []

-- `strptime` stands for `strptime` and `timegm`.
unfoldable pub parse_timestamp : (String → Option ℤ) → String → ℤ
parse_timestamp strptime s = elim (strptime s) [ none ↦ pos 0 | some t ↦ t ]

module _ ⦃key : Key ℤ⦄ where
  unfoldable pub add_edge : ℤ → ℤ → ℤ → ℤ → HashTable ℤ (List Edge) → Run (HashTable ℤ (List Edge))
  add_edge from to amount ts graph = HashTable.find from graph >>= λ found.
      HashTable.insert from
        (or_empty found ++ record { to = to; amount = amount; timestamp = ts } ∷ []) graph

  module _ (strptime : String → Option ℤ) where
    unfoldable pub add_transaction :
        ℤ → Transaction → HashTable ℤ (List Edge) → Run (HashTable ℤ (List Edge))
    unfolding parse_timestamp
    add_transaction account_id t graph =
        if str_eq t.transaction_type "TRANSFER"
        then elim t.to_account [
          | none ↦ ok graph
          | some to ↦
              add_edge account_id to t.transaction_amount
                (parse_timestamp strptime t.transaction_at) graph
        ]
        else ok graph

    unfoldable pub add_transactions :
        ℤ → List (ℤ × Transaction) → HashTable ℤ (List Edge) → Run (HashTable ℤ (List Edge))
    add_transactions account_id [] graph = ok graph
    add_transactions account_id (e ∷ es) graph =
        add_transaction account_id e.1 graph >>= add_transactions account_id es

    unfoldable pub add_accounts :
        Memory → List (ℤ × AccountPtr) → HashTable ℤ (List Edge) → Run (HashTable ℤ (List Edge))
    unfolding add_transactions
    add_accounts m [] graph = ok graph
    add_accounts m (e ∷ es) graph = account_at e.1 m >>= λ acc.
        add_transactions e.0 (HashTable.get_all acc.transactions) graph >>= add_accounts m es

    unfoldable pub add_users :
        Memory → List (ℤ × UserPtr) → HashTable ℤ (List Edge) → Run (HashTable ℤ (List Edge))
    unfolding add_accounts
    add_users m [] graph = ok graph
    add_users m (e ∷ es) graph = user_at e.1 m >>= λ user.
        add_accounts m (HashTable.get_all user.accounts) graph >>= add_users m es

    unfoldable pub build_graph :
        {Double : Type 0} → Memory → FraudDetector Double → Run (FraudDetector Double)
    unfolding add_users
    build_graph m d = add_users m (HashTable.get_all m.bank_db) d.graph >>= λ graph.
        ok (record d { graph = graph })
