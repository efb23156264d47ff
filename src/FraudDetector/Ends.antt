-- ===== src/FraudDetector/Ends.antt =====
-- The cycles that the search of backend/include/fraud_detector.hpp can still close from a place.
use mathlib.Core.Path.{subst}
use mathlib.Core.List.{Memᴰ}
use mathlib.Core.List.Memᴰ
use concurrent_banking_syste.Prelude.{
  ◌≡◌, ◌≢◌, ◌↔◌, ◌⊎◌, inl, inr, false, List, [], ◌∷◌, ◌++◌, map, if◌then◌else◌,
}
use concurrent_banking_syste.Prelude.Int.{ℤ, ltb_ℤ}
use concurrent_banking_syste.HashTable.{Key}
use concurrent_banking_syste.FraudDetector.{
  Floating, Edge, FraudDetector, Search, holds, min, max, widened, at_limit,
}
use concurrent_banking_syste.FraudDetector.Cycle.{out}
use concurrent_banking_syste.FraudDetector.Hops.{Viable}

-- A search but for the cycles that were flagged.
pub record Place : Type 0 where
  pub met : List ℤ
  pub nodes : List ℤ
  pub path : List Edge
  pub earliest : ℤ
  pub latest : ℤ

abbrev pub at : Place → List (List ℤ) → Search
at p f = record { on_path = p.met; path_nodes = p.nodes; path_edges = p.path; flagged = f }

abbrev pub grown : Place → Edge → Place
grown p e = record {
  met = e.to ∷ p.met;
  nodes = p.nodes ++ e.to ∷ [];
  path = p.path ++ e ∷ [];
  earliest = widened min p.path p.earliest e.timestamp;
  latest = widened max p.path p.latest e.timestamp;
}

module _ (floating : Floating) ⦃key : Key ℤ⦄ (d : FraudDetector floating.Double) (start : ℤ) where
  -- The edges that a call of `findCyclesFrom` looks at.
  abbrev pub options : ℤ → List Edge → List Edge
  options node path = if at_limit floating d path then [] else out d node

  -- After the edge `e`, the edges `rest` close a cycle.
  abbrev pub After : Place → Edge → List Edge → Type 0
  After p e [] =
      (ltb_ℤ e.to start ≡ false) × Viable floating d p.path e p.earliest p.latest × (e.to ≡ start)
  After p e (f ∷ rest) =
      (ltb_ℤ e.to start ≡ false)
      × Viable floating d p.path e p.earliest p.latest
      × (e.to ≢ start)
      × (holds e.to p.met ≡ false)
      × Memᴰ f (options e.to (p.path ++ e ∷ []))
      × After (grown p e) f rest

  -- A cycle that one of `es` begins to close.
  abbrev pub Ends : Place → List Edge → List ℤ → Type 0
  Ends p es c =
      (e : Edge) × (rest : List Edge) × Memᴰ e es
      × After p e rest
      × (c ≡ p.nodes ++ map (λ (f : Edge). f.to) (e ∷ rest))

  abbrev pub Finds : Place → List Edge → List (List ℤ) → Search → Type 0
  Finds p es f s =
      (more : List (List ℤ)) × (s ≡ at p (f ++ more)) × ((c : List ℤ) → Memᴰ c more ↔ Ends p es c)

  pub After-allowed :
      (p : Place) (e : Edge) (rest : List Edge)
      → After p e rest
      → (ltb_ℤ e.to start ≡ false) × Viable floating d p.path e p.earliest p.latest
  After-allowed p e [] a = (a.0, a.1)
  After-allowed p e (f ∷ rest) a = (a.0, a.1)

  -- What holds after a lone edge holds of it.
  pub only :
      (p : Place) {e f : Edge} (rest : List Edge)
      → Memᴰ f (e ∷ [])
      → After p f rest
      → After p e rest
  only p rest m a = subst (λ x. After p x rest) (Memᴰ.eq_of_singleton m) a

  pub Ends-cons :
      (p : Place) (e : Edge) (es : List Edge) (c : List ℤ)
      → (Ends p (e ∷ []) c ⊎ Ends p es c) ↔ Ends p (e ∷ es) c
  Ends-cons p e es c = (forth, back')
    where
      forth : Ends p (e ∷ []) c ⊎ Ends p es c → Ends p (e ∷ es) c
      forth (inl (f, rest, m, a, k)) = (f, rest, Memᴰ.head (Memᴰ.eq_of_singleton m), a, k)
      forth (inr (f, rest, m, a, k)) = (f, rest, Memᴰ.tail m, a, k)

      back' : Ends p (e ∷ es) c → Ends p (e ∷ []) c ⊎ Ends p es c
      back' (f, rest, Memᴰ.head q, a, k) = inl (f, rest, Memᴰ.head q, a, k)
      back' (f, rest, Memᴰ.tail m, a, k) = inr (f, rest, m, a, k)
