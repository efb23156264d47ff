-- ===== src/FraudDetector/Audit.antt =====
-- The graph built from memory and searched, as backend/src/fraud_test.cpp does with the detector of
-- backend/include/fraud_detector.hpp.
use mathlib.Core.List.{Memᴰ}
use concurrent_banking_syste.Prelude.{
  ℕ, ◌+◌, ◌≤◌, ◌≡◌, ◌↔◌, ◌∙◌, refl, sym, Option, some, String, List, [], ◌∷◌, arith, str_eq, length,
  replicate, Bool-cases, Option-cases, inl, inr, All, All-append,
}
use concurrent_banking_syste.Prelude.Int.{ℤ, eqb_ℤ}
use concurrent_banking_syste.Run.{Run, ok, ◌>>=◌, Returns, both_returned, ok-inj}
use concurrent_banking_syste.HashTable
use concurrent_banking_syste.HashTable.{HashTable, Key, get_all, default_buckets}
use concurrent_banking_syste.HashTable.Empty.{new-IsValid, view-new}
use concurrent_banking_syste.Transaction.{Transaction}
use concurrent_banking_syste.User.{AccountPtr, UserPtr}
use concurrent_banking_syste.Memory.{Memory, user_at, account_at}
use concurrent_banking_syste.FraudDetector
use concurrent_banking_syste.FraudDetector.{Floating, Edge, FraudDetector, or_empty}
use concurrent_banking_syste.FraudDetector.Cycle.{out}
use concurrent_banking_syste.FraudDetector.Hops.{IsTime}
use concurrent_banking_syste.FraudDetector.Finds.{IsTimed}
use concurrent_banking_syste.FraudDetector.Depth.{IsGraph}
use concurrent_banking_syste.FraudDetector.Exact.{IsSuspicious, detect_cycles_lem}
use concurrent_banking_syste.FraudDetector.Detect.{
  parse_timestamp, all_accounts, build_graph, detect_cycles,
}
use concurrent_banking_syste.FraudDetector.Build.{
  Sent, transfers_of, account_transfers, user_transfers, edges_from, build_graph_lem,
}

unfoldable pub audit :
    (floating : Floating) ⦃key : Key ℤ⦄ (strptime : String → Option ℤ)
    → ℕ
    → FraudDetector floating.Double
    → Memory
    → Run (List (List ℤ))
audit floating strptime fuel d m =
    build_graph strptime m d >>= λ built. detect_cycles floating fuel built m

abbrev AreTimed : List Sent → Type 0
AreTimed = All (λ (s : Sent). IsTimed s.1)

edges_from-IsTimed : (a : ℤ) (ss : List Sent) → AreTimed ss → All IsTimed (edges_from a ss)
edges_from-IsTimed a [] h = tt
edges_from-IsTimed a (s ∷ ss) h = elim (Bool-cases (eqb_ℤ s.0 a)) [
  | inl same ↦ rw same (h.0, edges_from-IsTimed a ss h.1)
  | inr other ↦ rw other (edges_from-IsTimed a ss h.1)
]

module _ (strptime : String → Option ℤ)
    (times : (s : String) (t : ℤ) → strptime s ≡ some t → IsTime t) where
  parsed-IsTime : (s : String) → IsTime (parse_timestamp strptime s)
  unfolding parse_timestamp
  parsed-IsTime s = elim (Option-cases (strptime s)) [
    | inl no_match ↦ rw (parse_timestamp, no_match) (omega arith, omega arith)
    | inr (t, e) ↦ rw (parse_timestamp, e) (times s t e)
  ]

  transfers_of-IsTimed :
      (id : ℤ) (ts : List (ℤ × Transaction)) → AreTimed (transfers_of strptime id ts)
  transfers_of-IsTimed id [] = tt
  transfers_of-IsTimed id (t ∷ ts) =
      let rest = transfers_of-IsTimed id ts in
      elim (Bool-cases (str_eq t.1.transaction_type "TRANSFER")) [
        | inr other ↦ rw other rest
        | inl transfer ↦ elim (Option-cases t.1.to_account) [
          | inl missing ↦ rw (transfer, missing) rest
          | inr (to, there) ↦ rw (transfer, there) (parsed-IsTime t.1.transaction_at, rest)
        ]
      ]

  account_transfers-IsTimed :
      (m : Memory) (es : List (ℤ × AccountPtr)) {ss : List Sent}
      → account_transfers strptime m es ≡ ok ss
      → AreTimed ss
  unfolding account_transfers
  account_transfers-IsTimed m [] known = rw (sym (ok-inj known)) tt
  account_transfers-IsTimed m (e ∷ es) known =
      let (acc, at, known') = both_returned (account_at e.1 m) _ known in
      let (rest, others, same) = both_returned (account_transfers strptime m es) _ known' in
      rw (sym (ok-inj same)) (
        All-append (λ (s : Sent). IsTimed s.1) _ rest
          (transfers_of-IsTimed e.0 (get_all acc.transactions))
          (account_transfers-IsTimed m es others))

  user_transfers-IsTimed :
      (m : Memory) (es : List (ℤ × UserPtr)) {ss : List Sent}
      → user_transfers strptime m es ≡ ok ss
      → AreTimed ss
  unfolding user_transfers
  user_transfers-IsTimed m [] known = rw (sym (ok-inj known)) tt
  user_transfers-IsTimed m (e ∷ es) known =
      let (user, at, known') = both_returned (user_at e.1 m) _ known in
      let (here, mine, known'') =
        both_returned (account_transfers strptime m (get_all user.accounts)) _ known' in
      let (rest, others, same) = both_returned (user_transfers strptime m es) _ known'' in
      rw (sym (ok-inj same)) (
        All-append (λ (s : Sent). IsTimed s.1) here rest
          (account_transfers-IsTimed m (get_all user.accounts) mine)
          (user_transfers-IsTimed m es others))

  module _ (floating : Floating) ⦃key : Key ℤ⦄ where
    open floating use {Double}

    new-empty : length (get_all (HashTable.new ℤ (List Edge) default_buckets)) ≡ 0
    unfolding HashTable.new get_all replicate
    new-empty = refl

    -- A new detector, with any numbers and any floating-point arithmetic, that builds the graph
    -- from memory and searches it, where every account can be read and the times are in the range
    -- of dates, with fuel for two more accounts than there are transfers: it always returns. The
    -- edges of an account are its transfers in memory, in order, and a list of accounts is flagged
    -- exactly where it is a suspicious cycle: a closed walk of such edges from its lowest account,
    -- past no account twice, no longer than the limit, each amount at least the threshold and in
    -- the band of the one before, and any two hops at most a window apart.
    pub audit_lem :
        (fuel : ℕ) (threshold : ℤ) (tolerance : Double) (window : ℤ) (limit : ℕ) (m : Memory)
        {ids : List ℤ} {ss : List Sent}
        → all_accounts m ≡ ok ids
        → user_transfers strptime m (get_all m.bank_db) ≡ ok ss
        → length ss + 2 ≤ fuel
        → let d = FraudDetector.new threshold tolerance window limit in
          Returns (audit floating strptime fuel d m) λ flagged.
            (d' : FraudDetector Double) × (d' ≡ record d { graph = d'.graph })
            × ((a : ℤ) → out d' a ≡ edges_from a ss)
            × ((c : List ℤ) → Memᴰ c flagged ↔ IsSuspicious floating d' ids c)
    unfolding audit FraudDetector.new
    audit_lem fuel threshold tolerance window limit m {ids} {ss} accounts known enough =
        let valid = new-IsValid {K = ℤ} {V = List Edge} 16 (omega arith) in
        let (d', run, (same, valid', edges, entries)) =
          build_graph_lem strptime m (FraudDetector.new threshold tolerance window limit) valid
            known in
        let out_is : (a : ℤ) → out d' a ≡ edges_from a ss = λ a. edges a ∙ rw view-new refl in
        let graph : (s : ℤ) → IsGraph floating d' s = λ s. record {
          valid = valid';
          timed = λ node.
              rw out_is
                (edges_from-IsTimed node ss (user_transfers-IsTimed m (get_all m.bank_db) known));
        } in
        let (flagged, found, exact) =
          detect_cycles_lem floating d' graph fuel (omega (arith, entries, new-empty)) m accounts in
        (flagged, rw (run, found), (d', same, out_is, exact))
