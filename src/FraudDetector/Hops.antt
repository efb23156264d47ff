-- ===== src/FraudDetector/Hops.antt =====
-- `hopIsViable` of backend/include/fraud_detector.hpp: when it lets an edge through, and that its
-- subtraction of times does not overflow.
use concurrent_banking_syste.Prelude.{
  ◌^◌, ◌≡◌, ◌⊎◌, inl, inr, Bool-cases, refl, Option, none, some, true, false, List, [], ◌∷◌, arith,
}
use concurrent_banking_syste.Prelude.Int.{ℤ, pos, negsuc, ◌≤ℤ◌, ◌<ℤ◌, ◌-ℤ◌, -ℤ_parts, ltb_ℤ, leb_ℤ}
use concurrent_banking_syste.Run.{ok, sub64}
use concurrent_banking_syste.FraudDetector.{
  Floating, Edge, FraudDetector, back, min, max, widened, out_of_band, breaks_off, hop_is_viable,
}
use concurrent_banking_syste.FraudDetector.Cycle.{Follows}

-- The times that `timegm` can give lie far inside the range of `time_t`.
abbrev pub IsTime : ℤ → Type 0
IsTime t = (negsuc (2 ^ 61) ≤ℤ t) × (t ≤ℤ pos (2 ^ 61))

-- An edge that may come next, and the window after it.
pub record Viable (floating : Floating) (d : FraudDetector floating.Double) (path : List Edge)
    (e : Edge) (earliest latest : ℤ) : Type 0 where
  pub large : d.min_amount_threshold ≤ℤ e.amount
  pub follows : Follows floating d (back path) e
  pub span :
      widened max path latest e.timestamp -ℤ widened min path earliest e.timestamp
      ≤ℤ d.max_window_seconds

pub sub64-times : (a b : ℤ) → IsTime a → IsTime b → sub64 a b ≡ ok (a -ℤ b)
unfolding sub64
sub64-times a b ha hb = ground (arith, -ℤ_parts a b)

pub widened-IsTime :
    (path : List Edge) (old new : ℤ)
    → IsTime old
    → IsTime new
    → IsTime (widened min path old new) × IsTime (widened max path old new)
widened-IsTime [] old new ho hn = (hn, hn)
widened-IsTime (_ ∷ _) old new ho hn = ground arith

-- The window never ends before it begins.
widened-ordered :
    (path : List Edge) (earliest latest new : ℤ)
    → ltb_ℤ (widened max path latest new -ℤ widened min path earliest new) (pos 0) ≡ false
widened-ordered [] earliest latest new = ground (arith, -ℤ_parts new new)
widened-ordered (_ ∷ _) earliest latest new =
    ground (arith, -ℤ_parts (max latest new) (min earliest new))

leb_ℤ-false : (a b : ℤ) → leb_ℤ a b ≡ false → b <ℤ a
leb_ℤ-false a b h = ground arith

module _ (floating : Floating) (d : FraudDetector floating.Double) where
  breaks_off-Follows :
      (previous : Option Edge) (e : Edge)
      → ((breaks_off floating d previous e ≡ false) × Follows floating d previous e)
        ⊎ ((breaks_off floating d previous e ≡ true) × ¬ Follows floating d previous e)
  unfolding breaks_off
  breaks_off-Follows none e = inl (refl, tt)
  breaks_off-Follows (some p) e = elim (Bool-cases (leb_ℤ p.amount (pos 0))) [
    | inl low ↦ inr (rw low, λ f. ground (arith, f.0))
    | inr high ↦ elim (Bool-cases (out_of_band floating d p.amount e.amount)) [
      | inl out ↦ inr (rw (high, out), λ f. cc (f.1, out))
      | inr kept ↦ inl (rw (high, kept), (leb_ℤ-false p.amount (pos 0) high, kept))
    ]
  ]

  module _ (path : List Edge) (e : Edge) (earliest latest : ℤ) where
    abbrev first : ℤ
    first = widened min path earliest e.timestamp

    abbrev last : ℤ
    last = widened max path latest e.timestamp

    -- The test lets exactly the viable edges through, and gives the new window.
    pub hop_cases :
        IsTime earliest
        → IsTime latest
        → IsTime e.timestamp
        → ((hop_is_viable floating d path e earliest latest ≡ ok (some (first, last)))
            × Viable floating d path e earliest latest)
          ⊎ ((hop_is_viable floating d path e earliest latest ≡ ok none)
              × ¬ Viable floating d path e earliest latest)
    unfolding hop_is_viable
    hop_cases te tl tn = elim (Bool-cases (ltb_ℤ e.amount d.min_amount_threshold)) [
      | inl small ↦ inr (rw small, λ v. ground (arith, v.large))
      | inr large ↦ elim (breaks_off-Follows (back path) e) [
        | inr (breaks, unfit) ↦ inr (rw (large, breaks), λ v. unfit v.follows)
        | inl (follows, fit) ↦
            let run =
              sub64-times last first (widened-IsTime path latest e.timestamp tl tn).1
                (widened-IsTime path earliest e.timestamp te tn).0 in
            elim (Bool-cases (ltb_ℤ d.max_window_seconds (last -ℤ first))) [
              | inl late ↦ inr (
                rw (large, follows, run, widened-ordered path earliest latest e.timestamp, late),
                λ v. ground (arith, v.span),
              )
              | inr soon ↦ inl (
                rw (large, follows, run, widened-ordered path earliest latest e.timestamp, soon),
                record { large = ground arith; follows = fit; span = ground arith },
              )
            ]
      ]
    ]
