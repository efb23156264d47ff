-- ===== src/FraudDetector/Depth.antt =====
-- The loop and the recursion of `findCyclesFrom` of backend/include/fraud_detector.hpp: with fuel for
-- the accounts that the graph has it returns, and has flagged what could be closed.
use mathlib.Core.List.{append_assoc}
use mathlib.Core.List.Memᴰ
use concurrent_banking_syste.Prelude.{
  ℕ, zero, suc, ◌+◌, ◌≤◌, ◌≡◌, ◌⊎◌, inl, inr, refl, ◌∙◌, false, none, List, [], ◌∷◌, ◌++◌, arith,
  Bool-cases, Option-cases, All,
}
use concurrent_banking_syste.Prelude.Int.{ℤ}
use concurrent_banking_syste.Run.{Run, Returns}
use concurrent_banking_syste.HashTable.{Key, get_all}
use concurrent_banking_syste.HashTable.Placed.{view, IsValid}
use concurrent_banking_syste.HashTable.Methods.{find-view}
use concurrent_banking_syste.HashTable.Snapshot.{get_all-view}
use concurrent_banking_syste.FraudDetector.{
  Floating, Edge, FraudDetector, Search, holds, visit_edges, find_cycles_from, at_limit,
}
use concurrent_banking_syste.FraudDetector.Cycle.{out}
use concurrent_banking_syste.FraudDetector.Hops.{IsTime, widened-IsTime}
use concurrent_banking_syste.FraudDetector.Ends.{Place, at, grown, options, Finds, Ends-cons}
use concurrent_banking_syste.FraudDetector.Finds.{IsTimed, AgainFinds, Finds-none, visit_edge-Finds}
use concurrent_banking_syste.FraudDetector.Fuel.{unseen, unseen-lt}

module _ (floating : Floating) ⦃key : Key ℤ⦄ (d : FraudDetector floating.Double) (start : ℤ) where
  module _ (p : Place) (e : Edge) (es : List Edge) (f : List (List ℤ)) where
    -- What two searches find one after the other.
    Finds-both :
        (s t : Search) (found : Finds floating d start p (e ∷ []) f s)
        → Finds floating d start p es (f ++ found.0) t
        → Finds floating d start p (e ∷ es) f t
    Finds-both s t (here, _, first) (more, end, rest) = (
      here ++ more,
      rw (end, append_assoc),
      λ c. (
        λ m. (Ends-cons floating d start p e es c).0 (elim (Memᴰ.append_cases here m) [
          | inl x ↦ inl ((first c).0 x)
          | inr x ↦ inr ((rest c).0 x)
        ]),
        λ x. elim ((Ends-cons floating d start p e es c).1 x) [
          | inl y ↦ Memᴰ.append_left more ((first c).1 y)
          | inr y ↦ Memᴰ.append_right here ((rest c).1 y)
        ],
      ),
    )

  visit_edges-Finds :
      (again : Edge → ℤ → ℤ → Search → Run Search) (p : Place) (es : List Edge) (f : List (List ℤ))
      → IsTime p.earliest
      → IsTime p.latest
      → All IsTimed es
      → AgainFinds floating d start again p
      → Returns
          (visit_edges floating again d start p.earliest p.latest es (at p f))
          (Finds floating d start p es f)
  unfolding visit_edges
  visit_edges-Finds again p [] f early late timed finds =
      (at p f, refl, Finds-none floating d start p [] f (λ c x. Memᴰ.not-nil x.2))
  visit_edges-Finds again p (e ∷ es) f early late timed finds =
      let (s, run, found) =
        visit_edge-Finds floating d start again p early late e f timed.0 finds in
      let (t, run', found') =
        visit_edges-Finds again p es (f ++ found.0) early late timed.1 finds in
      (t, rw (run, found.1, run'), Finds-both p e es f s t found found')

  -- The graph's times are times, and its table is valid.
  pub record IsGraph : Type 0 where
    pub valid : IsValid d.graph
    pub timed : (node : ℤ) → All IsTimed (out d node)

  abbrev pub left : List ℤ → ℕ
  left met = unseen met (get_all d.graph)

  -- Enough depth: two more than there are accounts to meet, or any for an account without edges.
  abbrev pub Enough : ℕ → List ℤ → ℤ → Type 0
  Enough fuel met node = (left met + 2 ≤ fuel) ⊎ ((1 ≤ fuel) × (view d.graph node ≡ none))

  -- One account deeper, one unit of fuel less.
  Enough-grown :
      (fuel : ℕ) (met : List ℤ) (a : ℤ)
      → IsValid d.graph
      → left met + 2 ≤ suc fuel
      → holds a met ≡ false
      → Enough fuel (a ∷ met) a
  Enough-grown fuel met a valid enough new = elim (Option-cases (view d.graph a)) [
    | inl missing ↦ inr (omega arith, missing)
    | inr (edges, there) ↦
        let less =
          unseen-lt a met (get_all d.graph) ((get_all-view a d.graph valid).0 ∙ there) new in
        inl (omega (arith, less))
  ]

  pub find_cycles_from-Finds :
      (fuel : ℕ) (p : Place) (node : ℤ) (f : List (List ℤ))
      → IsGraph
      → IsTime p.earliest
      → IsTime p.latest
      → Enough fuel p.met node
      → Returns
          (find_cycles_from floating fuel d start node p.earliest p.latest (at p f))
          (Finds floating d start p (options floating d start node p.path) f)
  unfolding find_cycles_from
  find_cycles_from-Finds zero p node f g early late enough = absurd (ground arith)
  find_cycles_from-Finds (suc fuel) p node f g early late enough =
      elim (Bool-cases (at_limit floating d p.path)) [
        | inl limit ↦ (
          at p f,
          rw limit,
          rw limit (Finds-none floating d start p [] f (λ c x. Memᴰ.not-nil x.2)),
        )
        | inr room ↦ elim (Option-cases (view d.graph node)) [
          | inl none_there ↦ (
            at p f,
            rw (room, find-view, g.valid, none_there),
            rw (room, none_there) (Finds-none floating d start p [] f (λ c x. Memᴰ.not-nil x.2)),
          )
          | inr (edges, there) ↦
              let timed : All IsTimed edges = rw there at (g.timed node) in
              let depth : left p.met + 2 ≤ suc fuel = elim enough [
                | inl e ↦ e
                | inr (_, missing) ↦ absurd (cc (missing, there))
              ] in
              let again : AgainFinds floating d start
                  (λ (e : Edge). find_cycles_from floating fuel d start e.to) p =
                λ e f' t new.
                  let ends = widened-IsTime p.path in
                  find_cycles_from-Finds fuel (grown p e) e.to f' g
                    (ends p.earliest e.timestamp early t).0 (ends p.latest e.timestamp late t).1
                    (Enough-grown fuel p.met e.to g.valid depth new) in
              let (s, run, found) =
                visit_edges-Finds (λ (e : Edge). find_cycles_from floating fuel d start e.to) p
                  edges f early late timed again in
              (s, rw (room, find-view, g.valid, there, run), rw (room, there) found)
        ]
      ]
