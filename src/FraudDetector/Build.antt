-- ===== src/FraudDetector/Build.antt =====
-- `buildGraph` of backend/include/fraud_detector.hpp: the edges are the transfers that memory knows.
use mathlib.Core.List.{append-nil, append_assoc}
use concurrent_banking_syste.Prelude.{
  ◌+◌, ◌≤◌, length, length-append, ◌≡◌, refl, sym, ap, Option, none, some, String, List, [], ◌∷◌,
  ◌++◌, arith, str_eq, if◌then◌else◌, Bool-cases, Option-cases, inl, inr,
}
use concurrent_banking_syste.Prelude.Int.{ℤ, eqb_ℤ, eqb_ℤ_iff}
use concurrent_banking_syste.Run.{Run, ok, ◌>>=◌, Returns, both_returned, ok-inj}
use concurrent_banking_syste.HashTable.{HashTable, Key, get_all}
use concurrent_banking_syste.HashTable.Placed.{view, IsValid}
use concurrent_banking_syste.HashTable.Methods.{find-view, insert-Writes}
use concurrent_banking_syste.HashTable.Snapshot.{get_all-eq}
use concurrent_banking_syste.HashTable.IntKey.{equal-eqb}
use concurrent_banking_syste.Transaction.{Transaction}
use concurrent_banking_syste.User.{AccountPtr, UserPtr}
use concurrent_banking_syste.Memory.{Memory, user_at, account_at}
use concurrent_banking_syste.FraudDetector.{Edge, FraudDetector, or_empty}
use concurrent_banking_syste.FraudDetector.Cycle.{out}
use concurrent_banking_syste.FraudDetector.Detect.{
  add_edge, parse_timestamp, add_transaction, add_transactions, add_accounts, add_users,
  build_graph,
}

-- A transfer with the account that sent it.
abbrev pub Sent : Type 0
Sent = ℤ × Edge

abbrev pub sent_by : ℤ → Option Edge → List Sent → List Sent
sent_by account_id none rest = rest
sent_by account_id (some e) rest = (account_id, e) ∷ rest

module _ (strptime : String → Option ℤ) where
  -- The transfers among an account's transactions: those of the type "TRANSFER" that name a receiver.
  abbrev pub edge_of : Transaction → Option Edge
  edge_of t =
      if str_eq t.transaction_type "TRANSFER"
      then elim t.to_account [
        | none ↦ none
        | some to ↦ some (record {
          to = to;
          amount = t.transaction_amount;
          timestamp = parse_timestamp strptime t.transaction_at;
        })
      ]
      else none

  abbrev pub transfers_of : ℤ → List (ℤ × Transaction) → List Sent
  transfers_of account_id [] = []
  transfers_of account_id (e ∷ es) = sent_by account_id (edge_of e.1) (transfers_of account_id es)

  -- Those of the accounts behind a table, and of all users; a null pointer on the way is a fault.
  unfoldable pub account_transfers : Memory → List (ℤ × AccountPtr) → Run (List Sent)
  account_transfers m [] = ok []
  account_transfers m (e ∷ es) = account_at e.1 m >>= λ acc.
      account_transfers m es >>= λ rest. ok (transfers_of e.0 (get_all acc.transactions) ++ rest)

  unfoldable pub user_transfers : Memory → List (ℤ × UserPtr) → Run (List Sent)
  user_transfers m [] = ok []
  user_transfers m (e ∷ es) = user_at e.1 m >>= λ user.
      account_transfers m (get_all user.accounts) >>= λ here.
      user_transfers m es >>= λ rest. ok (here ++ rest)

-- The edges of one sender, in order.
abbrev pub edges_from : ℤ → List Sent → List Edge
edges_from a [] = []
edges_from a (s ∷ ss) = if eqb_ℤ s.0 a then s.1 ∷ edges_from a ss else edges_from a ss

edges_from-append :
    (a : ℤ) (xs ys : List Sent) → edges_from a (xs ++ ys) ≡ edges_from a xs ++ edges_from a ys
edges_from-append a [] ys = refl
edges_from-append a (s ∷ ss) ys = ground (arith, edges_from-append a ss ys)

module _ ⦃key : Key ℤ⦄ where
  abbrev edges_at : HashTable ℤ (List Edge) → ℤ → List Edge
  edges_at graph a = or_empty (view graph a)

  -- The graph `graph'` is `graph` with the edges `ss` behind those of each sender.
  pub record Extends (graph : HashTable ℤ (List Edge)) (ss : List Sent)
      (graph' : HashTable ℤ (List Edge)) : Type 0 where
    pub valid : IsValid graph'
    pub edges : (a : ℤ) → edges_at graph' a ≡ edges_at graph a ++ edges_from a ss
    pub entries : length (get_all graph') ≤ length (get_all graph) + length ss

  Extends-nil : (graph : HashTable ℤ (List Edge)) → IsValid graph → Extends graph [] graph
  Extends-nil graph v = record {
    valid = v;
    edges = λ a. sym (append-nil (edges_at graph a));
    entries = omega arith;
  }

  Extends-append :
      (g h i : HashTable ℤ (List Edge)) (ss ts : List Sent)
      → Extends g ss h
      → Extends h ts i
      → Extends g (ss ++ ts) i
  Extends-append g h i ss ts x y = record {
    valid = y.valid;
    edges = λ a. rw (y.edges a, x.edges a, edges_from-append, append_assoc) refl;
    entries = omega (arith, x.entries, y.entries, length-append ss ts);
  }

  added :
      (from : ℤ) (e : Edge) (graph : HashTable ℤ (List Edge)) (a : ℤ)
      → or_empty (if eqb_ℤ from a then some (edges_at graph from ++ e ∷ []) else view graph a)
        ≡ edges_at graph a ++ edges_from a ((from, e) ∷ [])
  added from e graph a = elim (Bool-cases (eqb_ℤ from a)) [
    | inl same ↦ rw same (ap (λ b. edges_at graph b ++ e ∷ []) ((eqb_ℤ_iff from a).0 same))
    | inr other ↦ rw (other, append-nil)
  ]

  add_edge-Extends :
      (from : ℤ) (e : Edge) (graph : HashTable ℤ (List Edge))
      → IsValid graph
      → Returns (add_edge from e.to e.amount e.timestamp graph) (Extends graph ((from, e) ∷ []))
  unfolding add_edge
  add_edge-Extends from e graph v =
      let (graph', run, w) = insert-Writes graph v from (edges_at graph from ++ e ∷ []) in
      (
        graph',
        rw (find-view, v, run),
        record {
          valid = w.valid;
          edges = λ a. rw (w.reads a, equal-eqb) (added from e graph a);
          entries = rw (get_all-eq graph', get_all-eq graph) (omega (arith, w.entries));
        },
      )

  module _ (strptime : String → Option ℤ) where
    add_transaction-Extends :
        (id : ℤ) (t : Transaction) (graph : HashTable ℤ (List Edge))
        → IsValid graph
        → Returns
            (add_transaction strptime id t graph)
            (Extends graph (sent_by id (edge_of strptime t) []))
    unfolding add_transaction
    add_transaction-Extends id t graph v =
        elim (Bool-cases (str_eq t.transaction_type "TRANSFER")) [
          | inr other ↦ (graph, rw other, rw other (Extends-nil graph v))
          | inl transfer ↦ elim (Option-cases t.to_account) [
            | inl missing ↦
                (graph, rw (transfer, missing), rw (transfer, missing) (Extends-nil graph v))
            | inr (to, there) ↦
                let e : Edge = record {
                  to = to;
                  amount = t.transaction_amount;
                  timestamp = parse_timestamp strptime t.transaction_at;
                } in
                let (graph', run, x) = add_edge-Extends id e graph v in
                (graph', rw (transfer, there, run), rw (transfer, there) x)
          ]
        ]

    transfers_of-cons :
        (id : ℤ) (o : Option Edge) (rest : List Sent) → sent_by id o [] ++ rest ≡ sent_by id o rest
    transfers_of-cons id none rest = refl
    transfers_of-cons id (some e) rest = refl

    add_transactions-Extends :
        (id : ℤ) (ts : List (ℤ × Transaction)) (graph : HashTable ℤ (List Edge))
        → IsValid graph
        → Returns
            (add_transactions strptime id ts graph)
            (Extends graph (transfers_of strptime id ts))
    unfolding add_transactions
    add_transactions-Extends id [] graph v = (graph, refl, Extends-nil graph v)
    add_transactions-Extends id (t ∷ ts) graph v =
        let (g, run, x) = add_transaction-Extends id t.1 graph v in
        let (h, runs, y) = add_transactions-Extends id ts g x.valid in
        (
          h,
          rw (run, runs),
          rw (← transfers_of-cons id (edge_of strptime t.1) (transfers_of strptime id ts))
              (Extends-append graph g h _ _ x y),
        )

    add_accounts-Extends :
        (m : Memory) (es : List (ℤ × AccountPtr)) (graph : HashTable ℤ (List Edge)) (ss : List Sent)
        → IsValid graph
        → account_transfers strptime m es ≡ ok ss
        → Returns (add_accounts strptime m es graph) (Extends graph ss)
    unfolding add_accounts account_transfers
    add_accounts-Extends m [] graph ss v known =
        (graph, refl, rw (sym (ok-inj known)) (Extends-nil graph v))
    add_accounts-Extends m (e ∷ es) graph ss v known =
        let (acc, at, known') = both_returned (account_at e.1 m) _ known in
        let (rest, others, same) = both_returned (account_transfers strptime m es) _ known' in
        let (g, run, x) = add_transactions-Extends e.0 (get_all acc.transactions) graph v in
        let (h, runs, y) = add_accounts-Extends m es g rest x.valid others in
        (h, rw (at, run, runs), rw (sym (ok-inj same)) (Extends-append graph g h _ _ x y))

    add_users-Extends :
        (m : Memory) (es : List (ℤ × UserPtr)) (graph : HashTable ℤ (List Edge)) (ss : List Sent)
        → IsValid graph
        → user_transfers strptime m es ≡ ok ss
        → Returns (add_users strptime m es graph) (Extends graph ss)
    unfolding add_users user_transfers
    add_users-Extends m [] graph ss v known =
        (graph, refl, rw (sym (ok-inj known)) (Extends-nil graph v))
    add_users-Extends m (e ∷ es) graph ss v known =
        let (user, at, known') = both_returned (user_at e.1 m) _ known in
        let (here, mine, known'') =
          both_returned (account_transfers strptime m (get_all user.accounts)) _ known' in
        let (rest, others, same) = both_returned (user_transfers strptime m es) _ known'' in
        let (g, run, x) = add_accounts-Extends m (get_all user.accounts) graph here v mine in
        let (h, runs, y) = add_users-Extends m es g rest x.valid others in
        (h, rw (at, run, runs), rw (sym (ok-inj same)) (Extends-append graph g h _ _ x y))

    -- `buildGraph`, on a valid graph and a memory in which every account can be read, always
    -- returns, leaves the settings and a valid graph, and puts behind the edges of each account one
    -- edge for each of its transactions in memory of the type TRANSFER that names a receiver, in
    -- order.
    pub build_graph_lem :
        {Double : Type 0} (m : Memory) (d : FraudDetector Double) {ss : List Sent}
        → IsValid d.graph
        → user_transfers strptime m (get_all m.bank_db) ≡ ok ss
        → Returns (build_graph strptime m d) λ d'.
          (d' ≡ record d { graph = d'.graph })
          × IsValid d'.graph
          × ((a : ℤ) → out d' a ≡ out d a ++ edges_from a ss)
          × (length (get_all d'.graph) ≤ length (get_all d.graph) + length ss)
    unfolding build_graph
    build_graph_lem m d {ss} v known =
        let (graph, run, x) = add_users-Extends m (get_all m.bank_db) d.graph ss v known in
        (record d { graph = graph }, rw run, (refl, x.valid, x.edges, x.entries))
