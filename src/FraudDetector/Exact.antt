-- ===== src/FraudDetector/Exact.antt =====
-- `detectCycles` of backend/include/fraud_detector.hpp flags the suspicious cycles and nothing else.
use mathlib.Core.Path.{subst}
use mathlib.Core.List.{Memᴰ}
use mathlib.Core.List.Memᴰ
use concurrent_banking_syste.Prelude.{
  ℕ, ◌+◌, ◌≤◌, ◌≡◌, ◌↔◌, ◌⊎◌, inl, inr, refl, List, [], ◌∷◌, ◌++◌, arith, length, Bool-cases,
}
use concurrent_banking_syste.Prelude.Int.{ℤ, pos, ltb_ℤ}
use concurrent_banking_syste.Run.{ok, Returns}
use concurrent_banking_syste.HashTable.{Key, get_all}
use concurrent_banking_syste.Memory.{Memory}
use concurrent_banking_syste.FraudDetector.{Floating, Edge, FraudDetector}
use concurrent_banking_syste.FraudDetector.Detect.{
  all_accounts, insert_sorted, sort, search_all, detect_cycles,
}
use concurrent_banking_syste.FraudDetector.Cycle.{IsCycle, nodes_of}
use concurrent_banking_syste.FraudDetector.Window.{empty-IsWindow}
use concurrent_banking_syste.FraudDetector.Ends.{Place, options, Ends}
use concurrent_banking_syste.FraudDetector.Depth.{IsGraph, find_cycles_from-Finds}
use concurrent_banking_syste.FraudDetector.Closed.{closed_iff}
use concurrent_banking_syste.FraudDetector.Fuel.{unseen-le-length}

insert_sorted-mem : (x a : ℤ) (l : List ℤ) → Memᴰ x (insert_sorted a l) ↔ ((x ≡ a) ⊎ Memᴰ x l)
unfolding insert_sorted
insert_sorted-mem x a [] = (
  λ m. inl (Memᴰ.eq_of_singleton m),
  λ h. elim h [ inl e ↦ Memᴰ.head e | inr m ↦ absurd (Memᴰ.not-nil m) ],
)
insert_sorted-mem x a (b ∷ l) =
    let rest = insert_sorted-mem x a l in
    elim (Bool-cases (ltb_ℤ b a)) [
      | inl later ↦ rw later (
        λ m. elim (Memᴰ.cases_cons m) [
          | inl e ↦ inr (Memᴰ.head e)
          | inr n ↦ elim (rest.0 n) [ inl e ↦ inl e | inr o ↦ inr (Memᴰ.tail o) ]
        ],
        λ h. elim h [
          | inl e ↦ Memᴰ.tail (rest.1 (inl e))
          | inr m ↦ elim (Memᴰ.cases_cons m) [
            | inl e ↦ Memᴰ.head e
            | inr o ↦ Memᴰ.tail (rest.1 (inr o))
          ]
        ],
      )
      | inr here ↦
          rw here
            (λ m. Memᴰ.cases_cons m, λ h. elim h [ inl e ↦ Memᴰ.head e | inr m ↦ Memᴰ.tail m ])
    ]

sort-mem : (x : ℤ) (l : List ℤ) → Memᴰ x (sort l) ↔ Memᴰ x l
unfolding sort
sort-mem x [] = (λ m. m, λ m. m)
sort-mem x (a ∷ l) =
    let into = insert_sorted-mem x a (sort l) in
    let rest = sort-mem x l in
    (
      λ m. elim (into.0 m) [ inl e ↦ Memᴰ.head e | inr n ↦ Memᴰ.tail (rest.0 n) ],
      λ m. into.1 (elim (Memᴰ.cases_cons m) [ inl e ↦ inl e | inr n ↦ inr (rest.1 n) ]),
    )

abbrev place : ℤ → Place
place s = record { met = s ∷ []; nodes = s ∷ []; path = []; earliest = pos 0; latest = pos 0 }

module _ (floating : Floating) ⦃key : Key ℤ⦄ (d : FraudDetector floating.Double) where
  abbrev pub CyclesFrom : ℤ → List ℤ → Type 0
  CyclesFrom s c = (es : List Edge) × IsCycle floating d s es × (c ≡ nodes_of s es)

  -- The list `c` is that of the accounts of a suspicious cycle whose lowest account is one of `ids`.
  abbrev pub IsSuspicious : List ℤ → List ℤ → Type 0
  IsSuspicious ids c = (s : ℤ) × Memᴰ s ids × CyclesFrom s c

  ends-cycle :
      (s : ℤ) (c : List ℤ)
      → Ends floating d s (place s) (options floating d s s []) c ↔ CyclesFrom s c
  ends-cycle s c = (forth, back')
    where
      forth : Ends floating d s (place s) (options floating d s s []) c → CyclesFrom s c
      forth (e, rest, m, a, k) = (
        e ∷ rest,
        (closed_iff floating d s (place s) s e rest (empty-IsWindow (pos 0) (pos 0))).0 (m, a),
        k,
      )

      back' : CyclesFrom s c → Ends floating d s (place s) (options floating d s s []) c
      back' ([], cycle, k) = absurd (cycle.simple)
      back' (e ∷ rest, cycle, k) =
          let (m, a) =
            (closed_iff floating d s (place s) s e rest (empty-IsWindow (pos 0) (pos 0))).1 cycle in
          (e, rest, m, a, k)

  module _ (graph : (s : ℤ) → IsGraph floating d s) (fuel : ℕ)
      (enough : length (get_all d.graph) + 2 ≤ fuel) where
    search_all_lem :
        (ids : List ℤ) (flagged : List (List ℤ))
        → Returns
            (search_all floating fuel d ids flagged)
            λ found. (c : List ℤ) → Memᴰ c found ↔ (Memᴰ c flagged ⊎ IsSuspicious ids c)
    unfolding search_all
    search_all_lem [] flagged = (
      flagged,
      refl,
      λ c. (λ m. inl m, λ h. elim h [ inl m ↦ m | inr x ↦ absurd (Memᴰ.not-nil x.1) ]),
    )
    search_all_lem (s ∷ ids) flagged =
        let (t, run, (more, end, spec)) =
          find_cycles_from-Finds floating d s fuel (place s) s flagged (graph s) (omega arith)
            (omega arith) (inl (omega (arith, unseen-le-length (s ∷ []) (get_all d.graph)))) in
        let (found, runs, all) = search_all_lem ids (flagged ++ more) in
        (
          found,
          rw (run, end, runs),
          λ c.
              let cycle = ends-cycle s c in
              (
                λ m. elim ((all c).0 m) [
                  | inl n ↦ elim (Memᴰ.append_cases flagged n) [
                    | inl old ↦ inl old
                    | inr new ↦ inr (s, Memᴰ.head refl, cycle.0 ((spec c).0 new))
                  ]
                  | inr (x, n, es) ↦ inr (x, Memᴰ.tail n, es)
                ],
                λ h. (all c).1 (elim h [
                  | inl old ↦ inl (Memᴰ.append_left more old)
                  | inr (x, n, es) ↦ elim (Memᴰ.cases_cons n) [
                    | inl e ↦
                        let here = subst (λ y. CyclesFrom y c) e es in
                        inl (Memᴰ.append_right flagged ((spec c).1 (cycle.1 here)))
                    | inr o ↦ inr (x, o, es)
                  ]
                ]),
              ),
        )

    pub detect_cycles_lem :
        (m : Memory) {ids : List ℤ}
        → all_accounts m ≡ ok ids
        → Returns
            (detect_cycles floating fuel d m)
            λ flagged. (c : List ℤ) → Memᴰ c flagged ↔ IsSuspicious ids c
    unfolding detect_cycles
    detect_cycles_lem m {ids} accounts =
        let (flagged, run, all) = search_all_lem (sort ids) [] in
        (
          flagged,
          rw (accounts, run),
          λ c. (
            λ m. elim ((all c).0 m) [
              | inl n ↦ absurd (Memᴰ.not-nil n)
              | inr (s, n, es) ↦ (s, (sort-mem s ids).0 n, es)
            ],
            λ (s, n, es). (all c).1 (inr (s, (sort-mem s ids).1 n, es)),
          ),
        )
