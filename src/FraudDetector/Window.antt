-- ===== src/FraudDetector/Window.antt =====
-- The window of a path, which backend/include/fraud_detector.hpp keeps as its first and its last time.
use mathlib.Core.List.{Memᴰ}
use mathlib.Core.List.Memᴰ
use concurrent_banking_syste.Prelude.{
  ◌≡◌, refl, ◌⊎◌, inl, inr, List, [], ◌∷◌, ◌++◌, arith, Bool-cases,
}
use concurrent_banking_syste.Prelude.Int.{ℤ, ◌≤ℤ◌, ◌-ℤ◌, ltb_ℤ, int_laws}
use concurrent_banking_syste.FraudDetector.{Edge, min, max, widened}
use concurrent_banking_syste.FraudDetector.Cycle.{IsWithin}

-- A time of some edge of the path.
abbrev pub IsMet : List Edge → ℤ → Type 0
IsMet path time = (e : Edge) × Memᴰ e path × (e.timestamp ≡ time)

pub record IsWindow (path : List Edge) (earliest latest : ℤ) : Type 0 where
  pub covers : (e : Edge) → Memᴰ e path → (earliest ≤ℤ e.timestamp) × (e.timestamp ≤ℤ latest)
  pub begins : (path ≡ []) ⊎ IsMet path earliest
  pub ends : (path ≡ []) ⊎ IsMet path latest

pub empty-IsWindow : (earliest latest : ℤ) → IsWindow [] earliest latest
empty-IsWindow earliest latest = record {
  covers = λ e m. absurd (Memᴰ.not-nil m);
  begins = inl refl;
  ends = inl refl;
}

IsMet-append :
    (path : List Edge) (e : Edge) {time : ℤ} → IsMet path time → IsMet (path ++ e ∷ []) time
IsMet-append path e (f, m, at) = (f, Memᴰ.append_left (e ∷ []) m, at)

IsMet-last : (path : List Edge) (e : Edge) → IsMet (path ++ e ∷ []) e.timestamp
IsMet-last path e = (e, Memᴰ.append_right path (Memᴰ.head refl), refl)

-- The ends of the window after one more edge are met.
widened-IsMet :
    (path : List Edge) (e : Edge) (old : ℤ)
    → (path ≡ []) ⊎ IsMet path old
    → IsMet (path ++ e ∷ []) (widened min path old e.timestamp)
      × IsMet (path ++ e ∷ []) (widened max path old e.timestamp)
widened-IsMet [] e old h = (IsMet-last [] e, IsMet-last [] e)
widened-IsMet (x ∷ xs) e old (inl h) = absurd (cc)
widened-IsMet (x ∷ xs) e old (inr h) =
    let kept = IsMet-append (x ∷ xs) e h in
    let new = IsMet-last (x ∷ xs) e in
    (
      elim (Bool-cases (ltb_ℤ e.timestamp old)) [ inl b ↦ rw b new | inr b ↦ rw b kept ],
      elim (Bool-cases (ltb_ℤ old e.timestamp)) [ inl b ↦ rw b new | inr b ↦ rw b kept ],
    )

widened-covers :
    (path : List Edge) (e f : Edge) (earliest latest : ℤ)
    → ((g : Edge) → Memᴰ g path → (earliest ≤ℤ g.timestamp) × (g.timestamp ≤ℤ latest))
    → Memᴰ f (path ++ e ∷ [])
    → (widened min path earliest e.timestamp ≤ℤ f.timestamp)
      × (f.timestamp ≤ℤ widened max path latest e.timestamp)
widened-covers [] e f earliest latest covers m =
    rw (Memᴰ.eq_of_singleton m) (omega arith, omega arith)
widened-covers (x ∷ xs) e f earliest latest covers m = elim (Memᴰ.append_cases (x ∷ xs) m) [
  | inl old ↦ ground (arith, covers f old)
  | inr new ↦ rw (Memᴰ.eq_of_singleton new) (ground arith)
]

pub widened-IsWindow :
    (path : List Edge) (e : Edge) (earliest latest : ℤ)
    → IsWindow path earliest latest
    → IsWindow
        (path ++ e ∷ [])
        (widened min path earliest e.timestamp)
        (widened max path latest e.timestamp)
widened-IsWindow path e earliest latest w = record {
  covers = λ f m. widened-covers path e f earliest latest w.covers m;
  begins = inr (widened-IsMet path e earliest w.begins).0;
  ends = inr (widened-IsMet path e latest w.ends).1;
}

-- A window that is not too wide, and a path whose hops lie close together, are the same.
pub within_window :
    (path : List Edge) (earliest latest window : ℤ)
    → IsWindow path earliest latest
    → latest -ℤ earliest ≤ℤ window
    → IsWithin window path
within_window path earliest latest window w span e f m n =
    omega (int_laws, w.covers e m, w.covers f n)

pub window_of_within :
    (path : List Edge) (e : Edge) (rest : List Edge) (earliest latest window : ℤ)
    → IsWindow path earliest latest
    → IsWithin window (path ++ e ∷ rest)
    → widened max path latest e.timestamp -ℤ widened min path earliest e.timestamp ≤ℤ window
window_of_within path e rest earliest latest window w within =
    let (a, m, first) = (widened-IsMet path e earliest w.begins).0 in
    let (b, n, last) = (widened-IsMet path e latest w.ends).1 in
    rw (← first, ← last) (within a b (prefix a m) (prefix b n))
  where
    prefix : (x : Edge) → Memᴰ x (path ++ e ∷ []) → Memᴰ x (path ++ e ∷ rest)
    prefix x m = elim (Memᴰ.append_cases path m) [
      | inl old ↦ Memᴰ.append_left (e ∷ rest) old
      | inr new ↦ Memᴰ.append_right path (Memᴰ.head (Memᴰ.eq_of_singleton new))
    ]
