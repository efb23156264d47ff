-- ===== src/FraudDetector/Cycle.antt =====
-- What a suspicious cycle is, apart from the search for it in backend/include/fraud_detector.hpp.
use mathlib.Core.List.{Memᴰ}
use concurrent_banking_syste.Prelude.{
  ℕ, ◌+◌, ◌≤◌, ◌≡◌, ◌⊎◌, Option, none, some, false, List, [], ◌∷◌, ◌++◌, map, length, All,
}
use concurrent_banking_syste.Prelude.Int.{ℤ, pos, ◌≤ℤ◌, ◌<ℤ◌, ◌-ℤ◌}
use concurrent_banking_syste.HashTable.{Key}
use concurrent_banking_syste.HashTable.Placed.{view}
use concurrent_banking_syste.FraudDetector.{
  Floating, Edge, FraudDetector, or_empty, holds, back, out_of_band,
}

-- The edges that leave a node.
abbrev pub out : ⦃key : Key ℤ⦄ → {Double : Type 0} → FraudDetector Double → ℤ → List Edge
out d node = or_empty (view d.graph node)

-- Edges of the graph that lead from `node` to `last`, one after the other.
abbrev pub Walk :
    ⦃key : Key ℤ⦄ → {Double : Type 0} → FraudDetector Double → ℤ → List Edge → ℤ → Type 0
Walk d node [] last = node ≡ last
Walk d node (e ∷ es) last = Memᴰ e (out d node) × Walk d e.to es last

-- The walk comes back to `start` at its end and not before, passes no node that was met, and none
-- below `start`.
abbrev pub IsSimple : ℤ → List ℤ → List Edge → Type 0
IsSimple start met [] = ⊥
IsSimple start met (e ∷ []) = e.to ≡ start
IsSimple start met (e ∷ f ∷ es) =
    (start <ℤ e.to) × (holds e.to met ≡ false) × IsSimple start (e.to ∷ met) (f ∷ es)

-- Any two hops lie at most a window apart in time.
abbrev pub IsWithin : ℤ → List Edge → Type 0
IsWithin window es = (e f : Edge) → Memᴰ e es → Memᴰ f es → f.timestamp -ℤ e.timestamp ≤ℤ window

module _ (floating : Floating) where
  open floating use {Double}

  -- An edge may follow one whose amount is positive and in the band of its own.
  abbrev pub Follows : FraudDetector Double → Option Edge → Edge → Type 0
  Follows d none e = Unit
  Follows d (some previous) e =
      (pos 0 <ℤ previous.amount) × (out_of_band floating d previous.amount e.amount ≡ false)

  abbrev pub IsKept : FraudDetector Double → Option Edge → List Edge → Type 0
  IsKept d previous [] = Unit
  IsKept d previous (e ∷ es) = Follows d previous e × IsKept d (some e) es

  abbrev pub Fits : FraudDetector Double → ℕ → Type 0
  Fits d n = (d.max_cycle_length ≡ 0) ⊎ (n ≤ d.max_cycle_length)

  module _ ⦃key : Key ℤ⦄ where
    -- What `rest` has to be for a cycle that goes on from the path `path`, whose nodes are `met`.
    pub record Completes (d : FraudDetector Double) (start : ℤ) (met : List ℤ) (path : List Edge)
        (node : ℤ) (rest : List Edge) : Type 0 where
      pub walks : Walk d node rest start
      pub simple : IsSimple start met rest
      pub large : All (λ (e : Edge). d.min_amount_threshold ≤ℤ e.amount) rest
      pub kept : IsKept d (back path) rest
      pub fits : Fits d (length path + length rest)
      pub within : IsWithin d.max_window_seconds (path ++ rest)

    -- The edges of a suspicious cycle from `start` back to it.
    abbrev pub IsCycle : FraudDetector Double → ℤ → List Edge → Type 0
    IsCycle d start es = Completes d start (start ∷ []) [] start es

-- The accounts that a cycle passes.
abbrev pub nodes_of : ℤ → List Edge → List ℤ
nodes_of start es = start ∷ map (λ (e : Edge). e.to) es
