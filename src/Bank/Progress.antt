-- ===== src/Bank/Progress.antt =====
-- The threads that take the mutexes of backend/include/bank.hpp in the order of the ids never wait for
-- one another for good.
use mathlib.Core.Path.{subst}
use concurrent_banking_syste.Prelude.{
  ℕ, zero, suc, ◌+◌, ◌≡◌, inl, inr, refl, ap, true, false, some, List, [], ◌∷◌, map, get_elem?, set,
  length, All, arith, Bool-cases,
}
use concurrent_banking_syste.Prelude.Int.{ℤ, ◌<ℤ◌, ltb_ℤ, eqb_ℤ, eqb_ℤ_iff}
use concurrent_banking_syste.Bank.Locks.{
  Task, guard_of, transfer_of, Call, acquire, release, calls_of, Thread, begun, taken, drop_id,
  advance, Step, moves, Steps, here, next, left, IsProper,
}

-- Whatever a thread holds lies below what it takes next, and in the end it holds nothing.
abbrev pub IsOrdered : List ℤ → List Call → Type 0
IsOrdered held [] = held ≡ []
IsOrdered held (acquire a ∷ cs) = All (λ (h : ℤ). h <ℤ a) held × IsOrdered (a ∷ held) cs
IsOrdered held (release a ∷ cs) = IsOrdered (drop_id a held) cs

abbrev pub IsSound : Thread → Type 0
IsSound t = IsOrdered t.held t.calls

pub some-inj : {A : Type 0} {a b : A} → some a ≡ some b → a ≡ b
some-inj h = cc

eqb_ℤ-self : (a : ℤ) → eqb_ℤ a a ≡ true
eqb_ℤ-self a = (eqb_ℤ_iff a a).1 refl

eqb_ℤ-lt : (a b : ℤ) → a <ℤ b → eqb_ℤ b a ≡ false
eqb_ℤ-lt a b h = ground arith

pair-IsOrdered :
    (a b : ℤ) → a <ℤ b → IsOrdered [] (acquire a ∷ acquire b ∷ release b ∷ release a ∷ [])
pair-IsOrdered a b h = (tt, ((h, tt), rw (eqb_ℤ-self b, eqb_ℤ-lt a b h, eqb_ℤ-self a) refl))

begun-IsSound : (t : Task) → IsProper t → IsSound (begun t)
unfolding calls_of
begun-IsSound (guard_of a) p = (tt, rw (eqb_ℤ-self a) refl)
begun-IsSound (transfer_of from to) p = elim (Bool-cases (ltb_ℤ from to)) [
  | inl lower ↦ rw lower (pair-IsOrdered from to (ground arith))
  | inr upper ↦ rw upper (pair-IsOrdered to from (ground arith))
]

pub begun-All : (ts : List Task) → All IsProper ts → All IsSound (map begun ts)
begun-All [] h = tt
begun-All (t ∷ ts) h = (begun-IsSound t h.0, begun-All ts h.1)

-- A step keeps a thread sound, and makes one call.
advance-IsSound :
    (ts : List Thread) (calls : List Call) (held : List ℤ) (t' : Thread)
    → IsOrdered held calls
    → advance ts (record { calls = calls; held = held }) ≡ some t'
    → IsSound t' × (length calls ≡ suc (length t'.calls))
unfolding advance
advance-IsSound ts [] held t' s e = absurd (cc)
advance-IsSound ts (acquire a ∷ cs) held t' s e = elim (Bool-cases (taken a ts)) [
  | inl busy ↦ absurd (cc (rw busy at e))
  | inr free ↦
      let same : record { calls = cs; held = a ∷ held } ≡ t' = some-inj (rw free at e) in
      subst (λ (u : Thread). IsSound u × (suc (length cs) ≡ suc (length u.calls))) same (s.1, refl)
]
advance-IsSound ts (release a ∷ cs) held t' s e =
    subst (λ (u : Thread). IsSound u × (suc (length cs) ≡ suc (length u.calls))) (some-inj e)
      (s, refl)

abbrev pub AllSound : List Thread → Type 0
AllSound = All IsSound

IsSound-at :
    (ts : List Thread) (i : ℕ) (t : Thread) → AllSound ts → get_elem? ts i ≡ some t → IsSound t
IsSound-at [] i t h e = absurd (cc)
IsSound-at (u ∷ ts) zero t h e = subst IsSound (some-inj e) h.0
IsSound-at (u ∷ ts) (suc i) t h e = IsSound-at ts i t h.1 e

set-AllSound :
    (ts : List Thread) (i : ℕ) (t' : Thread) → AllSound ts → IsSound t' → AllSound (set ts i t')
set-AllSound [] i t' h s = tt
set-AllSound (u ∷ ts) zero t' h s = (s, h.1)
set-AllSound (u ∷ ts) (suc i) t' h s = (h.0, set-AllSound ts i t' h.1 s)

left-set :
    (ts : List Thread) (i : ℕ) (t t' : Thread)
    → get_elem? ts i ≡ some t
    → length t.calls ≡ suc (length t'.calls)
    → left ts ≡ suc (left (set ts i t'))
left-set [] i t t' e h = absurd (cc)
left-set (u ∷ ts) zero t t' e h =
    let same = ap (λ (x : Thread). length x.calls) (some-inj e) in omega (arith, same)
left-set (u ∷ ts) (suc i) t t' e h = omega (arith, left-set ts i t t' e h)

Step-AllSound :
    {ts us : List Thread} → Step ts us → AllSound ts → AllSound us × (left ts ≡ suc (left us))
Step-AllSound {ts} (moves i t t' at e) h =
    let (s, n) = advance-IsSound ts t.calls t.held t' (IsSound-at ts i t h at) e in
    (set-AllSound ts i t' h s, left-set ts i t t' at n)

pub Steps-AllSound :
    {ts us : List Thread} {n : ℕ}
    → Steps ts n us
    → AllSound ts
    → AllSound us × (n + left us ≡ left ts)
Steps-AllSound here h = (h, omega arith)
Steps-AllSound (next r s) h =
    let (k, e) = Steps-AllSound r h in
    let (k', e') = Step-AllSound s k in (k', omega (arith, e, e'))
