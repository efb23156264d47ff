-- ===== src/FraudDetector/Finds.antt =====
-- `findCyclesFrom` of backend/include/fraud_detector.hpp flags the cycles that can still be closed,
-- and leaves the path as it was.
use mathlib.Core.List.{Memᴰ, append-nil, append_assoc}
use mathlib.Core.List.Memᴰ
use concurrent_banking_syste.Prelude.{
  ◌≡◌, ◌≢◌, ◌↔◌, inl, inr, refl, sym, ◌∙◌, true, false, List, [], ◌∷◌, ◌++◌, map, Bool-cases,
}
use concurrent_banking_syste.Prelude.Int.{ℤ, ltb_ℤ, eqb_ℤ, eqb_ℤ_iff}
use concurrent_banking_syste.Run.{Run, Returns}
use concurrent_banking_syste.HashTable.{Key}
use concurrent_banking_syste.FraudDetector.{
  Floating, Edge, FraudDetector, Search, holds, visit_edge, enter, leave, flag,
}
use concurrent_banking_syste.FraudDetector.Paths.{pop_back-snoc, erase-absent}
use concurrent_banking_syste.FraudDetector.Hops.{Viable, IsTime, hop_cases}
use concurrent_banking_syste.FraudDetector.Ends.{
  Place, at, grown, options, Ends, Finds, After-allowed, only,
}

abbrev pub IsTimed : Edge → Type 0
IsTimed e = IsTime e.timestamp

enter-at :
    (p : Place) (e : Edge) (f : List (List ℤ))
    → holds e.to p.met ≡ false
    → enter e (at p f) ≡ at (grown p e) f
unfolding enter
enter-at p e f h = rw h

leave-grown :
    (p : Place) (e : Edge) (f : List (List ℤ))
    → holds e.to p.met ≡ false
    → leave e (at (grown p e) f) ≡ at p f
unfolding leave
leave-grown p e f h = rw (
  pop_back-snoc p.nodes e.to,
  pop_back-snoc p.path e,
  erase-absent e.to p.met h,
  (eqb_ℤ_iff e.to e.to).1 refl,
)

ne_of_eqb : (a b : ℤ) → eqb_ℤ a b ≡ false → a ≢ b
ne_of_eqb a b h e = cc (h, (eqb_ℤ_iff a b).1 e)

module _ (floating : Floating) ⦃key : Key ℤ⦄ (d : FraudDetector floating.Double) (start : ℤ) where
  -- Nothing to find.
  pub Finds-none :
      (p : Place) (es : List Edge) (f : List (List ℤ))
      → ((c : List ℤ) → ¬ Ends floating d start p es c)
      → Finds floating d start p es f (at p f)
  Finds-none p es f never =
      ([], rw append-nil, λ c. (λ m. absurd (Memᴰ.not-nil m), λ x. absurd (never c x)))

  abbrev pub AgainFinds : (Edge → ℤ → ℤ → Search → Run Search) → Place → Type 0
  AgainFinds again p =
      (e : Edge) (f : List (List ℤ))
      → IsTimed e
      → holds e.to p.met ≡ false
      → Returns (again e (grown p e).earliest (grown p e).latest (at (grown p e) f))
          (Finds floating d start (grown p e) (options floating d start e.to (p.path ++ e ∷ [])) f)

  module _ (again : Edge → ℤ → ℤ → Search → Run Search) (p : Place) (early : IsTime p.earliest)
      (late : IsTime p.latest) where
    abbrev pub visit : Edge → List (List ℤ) → Run Search
    visit e f = visit_edge floating again d start p.earliest p.latest e (at p f)

    closing :
        (e : Edge) (c : List ℤ)
        → ltb_ℤ e.to start ≡ false
        → Viable floating d p.path e p.earliest p.latest
        → e.to ≡ start
        → Memᴰ c ((p.nodes ++ start ∷ []) ∷ []) ↔ Ends floating d start p (e ∷ []) c
    closing e c low viable home = (forth, back')
      where
        forth : Memᴰ c ((p.nodes ++ start ∷ []) ∷ []) → Ends floating d start p (e ∷ []) c
        forth m = (e, [], Memᴰ.head refl, (low, viable, home), rw home (Memᴰ.eq_of_singleton m))

        back' : Ends floating d start p (e ∷ []) c → Memᴰ c ((p.nodes ++ start ∷ []) ∷ [])
        back' (x, [], m, a, k) = Memᴰ.head (k ∙ rw a.2 refl)
        back' (x, y ∷ rest, m, a, k) = absurd ((only floating d start p (y ∷ rest) m a).2 home)

    deeper :
        (e : Edge) (c : List ℤ)
        → ltb_ℤ e.to start ≡ false
        → Viable floating d p.path e p.earliest p.latest
        → e.to ≢ start
        → holds e.to p.met ≡ false
        → Ends floating d start (grown p e) (options floating d start e.to (p.path ++ e ∷ [])) c
          ↔ Ends floating d start p (e ∷ []) c
    deeper e c low viable away new = (forth, back')
      where
        forth :
            Ends floating d start (grown p e) (options floating d start e.to (p.path ++ e ∷ [])) c
            → Ends floating d start p (e ∷ []) c
        forth (x, rest, m, a, k) = (
          e,
          x ∷ rest,
          Memᴰ.head refl,
          (low, viable, away, new, m, a),
          k ∙ append_assoc p.nodes (e.to ∷ []) (map (λ (f : Edge). f.to) (x ∷ rest)),
        )

        back' :
            Ends floating d start p (e ∷ []) c
            → Ends floating d start (grown p e) (options floating d start e.to (p.path ++ e ∷ [])) c
        back' (x, [], m, a, k) = absurd (away (only floating d start p [] m a).2)
        back' (x, y ∷ rest, m, a, k) =
            let a' = only floating d start p (y ∷ rest) m a in
            let same : x ≡ e = Memᴰ.eq_of_singleton m in
            (
              y,
              rest,
              a'.4,
              a'.5,
              k
                  ∙ rw same (
                      sym (append_assoc p.nodes (e.to ∷ []) (map (λ (f : Edge). f.to) (y ∷ rest)))),
            )

    barred :
        (e : Edge) (c : List ℤ)
        → e.to ≢ start
        → holds e.to p.met ≡ true
        → ¬ Ends floating d start p (e ∷ []) c
    barred e c away old (x, [], m, a, k) = away (only floating d start p [] m a).2
    barred e c away old (x, y ∷ rest, m, a, k) =
        cc (old, (only floating d start p (y ∷ rest) m a).3)

    -- One edge.
    pub visit_edge-Finds :
        (e : Edge) (f : List (List ℤ))
        → IsTimed e
        → AgainFinds again p
        → Returns (visit e f) (Finds floating d start p (e ∷ []) f)
    unfolding visit_edge
    visit_edge-Finds e f timed finds = elim (Bool-cases (ltb_ℤ e.to start)) [
      | inl below ↦ (
        at p f,
        rw below,
        Finds-none p (e ∷ []) f λ c (x, rest, m, a, k).
            cc (
              below,
              (After-allowed floating d start p e rest (only floating d start p rest m a)).0,
            ),
      )
      | inr low ↦ elim (hop_cases floating d p.path e p.earliest p.latest early late timed) [
        | inr (run, unfit) ↦ (
          at p f,
          rw (low, run),
          Finds-none p (e ∷ []) f λ c (x, rest, m, a, k).
              unfit (After-allowed floating d start p e rest (only floating d start p rest m a)).1,
        )
        | inl (run, viable) ↦ elim (Bool-cases (eqb_ℤ e.to start)) [
          | inl home ↦ (
            flag start (at p f),
            rw (low, run, home),
            (
              (p.nodes ++ start ∷ []) ∷ [],
              unfold flag in refl,
              λ c. closing e c low viable ((eqb_ℤ_iff e.to start).0 home),
            ),
          )
          | inr away ↦ elim (Bool-cases (holds e.to p.met)) [
            | inl old ↦ (
              at p f,
              rw (low, run, away, old),
              Finds-none p (e ∷ []) f λ c. barred e c (ne_of_eqb e.to start away) old,
            )
            | inr new ↦
                let (s', run', (more, end, spec)) = finds e f timed new in
                (
                  at p (f ++ more),
                  rw (
                    low,
                    run,
                    away,
                    new,
                    enter-at p e f new,
                    run',
                    end,
                    leave-grown p e (f ++ more) new,
                  ),
                  (
                    more,
                    refl,
                    λ c.
                        let into = deeper e c low viable (ne_of_eqb e.to start away) new in
                        (λ m. into.0 ((spec c).0 m), λ x. (spec c).1 (into.1 x)),
                  ),
                )
          ]
        ]
      ]
    ]
