-- ===== src/Bank/Deadlock.antt =====
-- No schedule of the threads that lock the accounts of backend/include/bank.hpp ends in a deadlock.
use mathlib.Core.List.{Memᴰ}
use mathlib.Core.List.Memᴰ
use mathlib.Core.Path.{subst}
use concurrent_banking_syste.Prelude.{
  ℕ, zero, suc, ◌+◌, ◌≤◌, ◌<◌, ◌≡◌, ◌⊎◌, inl, inr, refl, sym, Bool, true, false, none, some, List,
  [], ◌∷◌, map, get_elem?, set, All, arith, if◌then◌else◌, Bool-cases, Option-cases,
}
use concurrent_banking_syste.Prelude.Int.{ℤ, ◌<ℤ◌, ltb_ℤ, eqb_ℤ, eqb_ℤ_iff}
use concurrent_banking_syste.Bank.Locks.{
  Task, Call, acquire, release, Thread, begun, holds, taken, advance, Step, moves, Steps, left,
  IsProper,
}
use concurrent_banking_syste.Bank.Progress.{IsOrdered, IsSound, AllSound, begun-All, Steps-AllSound}

-- A thread that waits for a mutex above `a`.
abbrev wants_above : ℤ → Thread → Bool
wants_above a t = elim t.calls [
  | [] ↦ false
  | c ∷ _ ↦ elim c [ acquire b ↦ ltb_ℤ a b | release _ ↦ false ]
]

waits : ℤ → List Thread → ℕ
waits a [] = 0
waits a (t ∷ ts) = let rest = waits a ts in if wants_above a t then suc rest else rest

wants_above_mono :
    (a b : ℤ) (calls : List Call) (held : List ℤ)
    → a <ℤ b
    → wants_above b (record { calls = calls; held = held }) ≡ true
    → wants_above a (record { calls = calls; held = held }) ≡ true
wants_above_mono a b [] held h w = w
wants_above_mono a b (acquire c ∷ cs) held h w = ground arith
wants_above_mono a b (release c ∷ cs) held h w = w

waits_mono : (a b : ℤ) (ts : List Thread) → a <ℤ b → waits b ts ≤ waits a ts
unfolding waits
waits_mono a b [] h = omega arith
waits_mono a b (t ∷ ts) h = elim (Bool-cases (wants_above b t)) [
  | inl more ↦
      rw (more, wants_above_mono a b t.calls t.held h more) (omega (arith, waits_mono a b ts h))
  | inr less ↦ elim (Bool-cases (wants_above a t)) [
    | inl some_more ↦ rw (less, some_more) (omega (arith, waits_mono a b ts h))
    | inr no_more ↦ rw (less, no_more) (waits_mono a b ts h)
  ]
]

-- A thread that is stuck, though it has calls to make: it waits for a mutex that is taken.
abbrev Waiting : List Thread → Thread → ℤ → Type 0
Waiting ts t a = (cs : List Call) × (t.calls ≡ acquire a ∷ cs) × (taken a ts ≡ true)

waits-lt :
    (a b : ℤ) (ts : List Thread) (t : Thread) (cs : List Call)
    → Memᴰ t ts
    → t.calls ≡ acquire b ∷ cs
    → a <ℤ b
    → suc (waits b ts) ≤ waits a ts
unfolding waits
waits-lt a b [] t cs m at h = absurd (Memᴰ.not-nil m)
waits-lt a b (u ∷ ts) t cs (Memᴰ.head e) at h =
    let at_u : u.calls ≡ acquire b ∷ cs = subst (λ (x : Thread). x.calls ≡ acquire b ∷ cs) e at in
    rw at_u (ground (arith, waits_mono a b ts h))
waits-lt a b (u ∷ ts) t cs (Memᴰ.tail m) at h = elim (Bool-cases (wants_above b u)) [
  | inl more ↦
      rw (more, wants_above_mono a b u.calls u.held h more)
        (omega (arith, waits-lt a b ts t cs m at h))
  | inr less ↦ elim (Bool-cases (wants_above a u)) [
    | inl some_more ↦ rw (less, some_more) (omega (arith, waits-lt a b ts t cs m at h))
    | inr no_more ↦ rw (less, no_more) (waits-lt a b ts t cs m at h)
  ]
]

taken-mem :
    (a : ℤ) (ts : List Thread)
    → taken a ts ≡ true
    → (t : Thread) × Memᴰ t ts × (holds a t.held ≡ true)
taken-mem a [] h = absurd (cc)
taken-mem a (t ∷ ts) h = elim (Bool-cases (holds a t.held)) [
  | inl mine ↦ (t, Memᴰ.head refl, mine)
  | inr other ↦ let (u, m, k) = taken-mem a ts (rw other at h) in (u, Memᴰ.tail m, k)
]

-- What a thread holds lies below the mutex that it waits for.
holds-lt : (a b : ℤ) (held : List ℤ) → All (λ (x : ℤ). x <ℤ b) held → holds a held ≡ true → a <ℤ b
holds-lt a b [] s h = absurd (cc)
holds-lt a b (c ∷ l) s h = elim (Bool-cases (eqb_ℤ a c)) [
  | inl same ↦ rw ((eqb_ℤ_iff a c).0 same) s.0
  | inr other ↦ holds-lt a b l s.1 (rw other at h)
]

-- Where no thread can move, each waits or has made its calls.
IsStuck : List Thread → Thread → Type 0
IsStuck ts t = (t.calls ≡ []) ⊎ ((a : ℤ) × Waiting ts t a)

IsStuck-of :
    (ts : List Thread) (calls : List Call) (held : List ℤ)
    → advance ts (record { calls = calls; held = held }) ≡ none
    → IsStuck ts (record { calls = calls; held = held })
unfolding advance IsStuck
IsStuck-of ts [] held e = inl refl
IsStuck-of ts (acquire a ∷ cs) held e = elim (Bool-cases (taken a ts)) [
  | inl busy ↦ inr (a, (cs, refl, busy))
  | inr free ↦ absurd (cc (rw free at e))
]
IsStuck-of ts (release a ∷ cs) held e = absurd (cc)

module _ (ts : List Thread) (sound : AllSound ts) where
  IsSound-of : (us : List Thread) → AllSound us → (t : Thread) → Memᴰ t us → IsSound t
  IsSound-of [] h t m = absurd (Memᴰ.not-nil m)
  IsSound-of (u ∷ us) h t m = elim (Memᴰ.cases_cons m) [
    | inl e ↦ subst IsSound (sym e) h.0
    | inr n ↦ IsSound-of us h.1 t n
  ]

  -- A taken mutex leads to a taken mutex with a higher id, and so on without end.
  no_cycle :
      ((t : Thread) → Memᴰ t ts → IsStuck ts t)
      → (n : ℕ) (a : ℤ) → taken a ts ≡ true
      → waits a ts < n
      → ⊥
  unfolding IsStuck
  no_cycle stuck zero a busy h = elim h [ ]
  no_cycle stuck (suc n) a busy h =
      let (t, m, mine) = taken-mem a ts busy in
      let ordered = IsSound-of ts sound t m in
      elim (stuck t m) [
        | inl over ↦
            let empty : t.held ≡ [] = subst (IsOrdered t.held) over ordered in
            cc (subst (λ (l : List ℤ). holds a l ≡ true) empty mine)
        | inr (b, (cs, at, busy')) ↦
            let below = subst (IsOrdered t.held) at ordered in
            let up = holds-lt a b t.held below.0 mine in
            no_cycle stuck n b busy' (omega (arith, waits-lt a b ts t cs m at up))
      ]

  movable :
      (us : List Thread)
      → ((t : Thread) → Memᴰ t us → IsStuck ts t)
        ⊎ ((i : ℕ) × (t : Thread) × (t' : Thread) × (get_elem? us i ≡ some t)
            × (advance ts t ≡ some t'))
  movable [] = inl (λ t m. absurd (Memᴰ.not-nil m))
  movable (u ∷ us) = elim (Option-cases (advance ts u)) [
    | inr (u', e) ↦ inr (0, u, u', refl, e)
    | inl blocked ↦ elim (movable us) [
      | inr (i, t, t', at, e) ↦ inr (suc i, t, t', at, e)
      | inl stuck ↦ inl (λ t m. elim (Memᴰ.cases_cons m) [
        | inl e ↦ subst (IsStuck ts) (sym e) (IsStuck-of ts u.calls u.held blocked)
        | inr n ↦ stuck t n
      ])
    ]
  ]

  left-stuck :
      ((t : Thread) → Memᴰ t ts → IsStuck ts t)
      → (us : List Thread) → ((t : Thread) → Memᴰ t us → Memᴰ t ts)
      → left us ≡ 0
  unfolding IsStuck
  left-stuck stuck [] within = refl
  left-stuck stuck (u ∷ us) within =
      let rest = left-stuck stuck us (λ t m. within t (Memᴰ.tail m)) in
      elim (stuck u (within u (Memᴰ.head refl))) [
        | inl over ↦ rw over (omega (arith, rest))
        | inr (a, (cs, at, busy)) ↦ absurd (no_cycle stuck (suc (waits a ts)) a busy (omega arith))
      ]

  progress : (left ts ≡ 0) ⊎ ((us : List Thread) × Step ts us)
  progress = elim (movable ts) [
    | inl stuck ↦ inl (left-stuck stuck ts (λ t m. m))
    | inr (i, t, t', at, e) ↦ inr (set ts i t', moves i t t' at e)
  ]

-- Any number of threads, each of which locks the mutexes of one guard or of one transfer between
-- two different accounts and throws no exception between: after any number of steps, in any
-- interleaving, either all their calls are made or some thread can make its next one, and the steps
-- taken and the calls left add up to all the calls, so that no schedule deadlocks or goes on for
-- ever.
pub no_deadlock :
    (tasks : List Task) (n : ℕ) (ts : List Thread)
    → All IsProper tasks
    → Steps (map begun tasks) n ts
    → (n + left ts ≡ left (map begun tasks)) × ((left ts ≡ 0) ⊎ ((us : List Thread) × Step ts us))
no_deadlock tasks n ts proper run =
    let (sound, count) = Steps-AllSound run (begun-All tasks proper) in (count, progress ts sound)
