-- ===== src/FraudDetector/Closed.antt =====
-- What the search of backend/include/fraud_detector.hpp can close are the suspicious cycles.
use mathlib.Core.List.{Memᴰ, append_assoc}
use mathlib.Core.List.Memᴰ
use concurrent_banking_syste.Prelude.{
  ℕ, suc, ◌+◌, ◌≡◌, ◌≢◌, ◌↔◌, inl, inr, false, List, [], ◌∷◌, ◌++◌, arith, length, length-append,
  Bool-cases,
}
use concurrent_banking_syste.Prelude.Int.{ℤ, ◌<ℤ◌, ltb_ℤ}
use concurrent_banking_syste.HashTable.{Key}
use concurrent_banking_syste.FraudDetector.{Floating, Edge, FraudDetector, at_limit}
use concurrent_banking_syste.FraudDetector.Paths.{back-snoc}
use concurrent_banking_syste.FraudDetector.Cycle.{out, Fits, Completes}
use concurrent_banking_syste.FraudDetector.Hops.{Viable}
use concurrent_banking_syste.FraudDetector.Window.{
  IsWindow, widened-IsWindow, within_window, window_of_within,
}
use concurrent_banking_syste.FraudDetector.Ends.{Place, grown, options, After}

ltb_ℤ-self : (a b : ℤ) → a ≡ b → ltb_ℤ a b ≡ false
ltb_ℤ-self a b e = rw e (ground arith)

ltb_ℤ-above : (a b : ℤ) → b <ℤ a → (ltb_ℤ a b ≡ false) × (a ≢ b)
ltb_ℤ-above a b h = (ground arith, λ e. ground arith)

above_of_ltb : (a b : ℤ) → ltb_ℤ a b ≡ false → a ≢ b → b <ℤ a
above_of_ltb a b h n = ground arith

length-grown :
    (path : List Edge) (e : Edge) (n : ℕ) → length (path ++ e ∷ []) + n ≡ length path + suc n
length-grown path e n = omega (arith, length-append path (e ∷ []))

module _ (floating : Floating) ⦃key : Key ℤ⦄ (d : FraudDetector floating.Double) (start : ℤ) where
  at_limit-Fits :
      (path : List Edge) (n : ℕ)
      → Fits floating d (length path + suc n)
      → at_limit floating d path ≡ false
  unfolding at_limit
  at_limit-Fits path n (inl unlimited) = ground arith
  at_limit-Fits path n (inr small) = ground arith

  Fits-at_limit :
      (path : List Edge) → at_limit floating d path ≡ false → Fits floating d (length path + 1)
  unfolding at_limit
  Fits-at_limit path h = ground arith

  -- An edge that is looked at leaves the node, and the path may grow.
  options-mem :
      (node : ℤ) (path : List Edge) (e : Edge)
      → Memᴰ e (options floating d start node path)
      → Memᴰ e (out d node) × (at_limit floating d path ≡ false)
  options-mem node path e m = elim (Bool-cases (at_limit floating d path)) [
    | inl limit ↦ absurd (Memᴰ.not-nil (rw limit at m))
    | inr room ↦ (rw room at m, room)
  ]

  module _ (p : Place) (w : IsWindow p.path p.earliest p.latest) where
    grown-IsWindow : (e : Edge) → IsWindow (grown p e).path (grown p e).earliest (grown p e).latest
    grown-IsWindow e = widened-IsWindow p.path e p.earliest p.latest w

    Viable-of :
        (node : ℤ) (e : Edge) (rest : List Edge)
        → Completes floating d start p.met p.path node (e ∷ rest)
        → Viable floating d p.path e p.earliest p.latest
    Viable-of node e rest c = record {
      large = c.large.0;
      follows = c.kept.0;
      span = window_of_within p.path e rest p.earliest p.latest d.max_window_seconds w c.within;
    }

  Completes-After :
      (p : Place) (node : ℤ) (e : Edge) (rest : List Edge)
      → IsWindow p.path p.earliest p.latest
      → Completes floating d start p.met p.path node (e ∷ rest)
      → Memᴰ e (options floating d start node p.path) × After floating d start p e rest
  Completes-After p node e [] w c = (
    rw (at_limit-Fits p.path 0 c.fits) c.walks.0,
    (ltb_ℤ-self e.to start c.simple, Viable-of p w node e [] c, c.simple),
  )
  Completes-After p node e (f ∷ rest) w c =
      let above = ltb_ℤ-above e.to start c.simple.0 in
      let deeper = Completes-After (grown p e) e.to f rest (grown-IsWindow p w e) (record {
        walks = c.walks.1;
        simple = c.simple.2;
        large = c.large.1;
        kept = rw back-snoc c.kept.1;
        fits = rw (length-grown p.path e (suc (length rest))) c.fits;
        within = rw append_assoc c.within;
      }) in
      (
        rw (at_limit-Fits p.path (suc (length rest)) c.fits) c.walks.0,
        (above.0, Viable-of p w node e (f ∷ rest) c, above.1, c.simple.1, deeper.0, deeper.1),
      )

  After-Completes :
      (p : Place) (node : ℤ) (e : Edge) (rest : List Edge)
      → IsWindow p.path p.earliest p.latest
      → Memᴰ e (options floating d start node p.path)
      → After floating d start p e rest
      → Completes floating d start p.met p.path node (e ∷ rest)
  After-Completes p node e [] w m a =
      let (edge, room) = options-mem node p.path e m in
      record {
        walks = (edge, a.2);
        simple = a.2;
        large = (a.1.large, tt);
        kept = (a.1.follows, tt);
        fits = Fits-at_limit p.path room;
        within =
            within_window (p.path ++ e ∷ []) (grown p e).earliest (grown p e).latest
              d.max_window_seconds (grown-IsWindow p w e) a.1.span;
      }
  After-Completes p node e (f ∷ rest) w m a =
      let (edge, room) = options-mem node p.path e m in
      let deeper = After-Completes (grown p e) e.to f rest (grown-IsWindow p w e) a.4 a.5 in
      record {
        walks = (edge, deeper.walks);
        simple = (above_of_ltb e.to start a.0 a.2, a.3, deeper.simple);
        large = (a.1.large, deeper.large);
        kept = (a.1.follows, rw back-snoc at deeper.kept);
        fits = rw (length-grown p.path e (suc (length rest))) at deeper.fits;
        within = rw append_assoc at deeper.within;
      }

  -- From the start of a search: what it can close are the cycles.
  pub closed_iff :
      (p : Place) (node : ℤ) (e : Edge) (rest : List Edge)
      → IsWindow p.path p.earliest p.latest
      → (Memᴰ e (options floating d start node p.path) × After floating d start p e rest)
        ↔ Completes floating d start p.met p.path node (e ∷ rest)
  closed_iff p node e rest w =
      (λ h. After-Completes p node e rest w h.0 h.1, Completes-After p node e rest w)
