-- ===== src/Account/History.antt =====
-- Sequences of deposits and withdrawals on one account, each caller catching its own exception.
use concurrent_banking_syste.Prelude.{
  ℕ, ◌+◌, ◌-◌, ◌^◌, ◌≤◌, ◌≡◌, refl, ap, Bool, true, false, List, [], ◌∷◌, arith, Bool-cases, inl,
  inr,
}
use concurrent_banking_syste.Prelude.Int.{
  ℤ, pos, pos_part, neg_part, ◌+ℤ◌, ◌≤ℤ◌, ◌<ℤ◌, leb_ℤ, int_laws,
}
use concurrent_banking_syste.Run.{Run, ok, throws, fault, ◌>>=◌, Returns}
use concurrent_banking_syste.Account.{Account, deposit, withdraw}
use concurrent_banking_syste.Account.Laws.{
  IsSound, raised, lowered, withdraw_lem, deposit_lem, raised-IsSound, lowered-IsSound,
}

pub data Operation : Type 0 where
  deposit_op withdraw_op : ℤ → Operation

-- `caught` stands for the exception that the caller caught.
pub data Answer : Type 0 where
  accepted refused caught : Answer

answer_of : Account → Run (Bool × Account) → Run (Answer × Account)
answer_of a (ok (true, a')) = ok (accepted, a')
answer_of a (ok (false, a')) = ok (refused, a')
answer_of a (throws e) = ok (caught, a)
answer_of a (fault f) = fault f

pub perform : Operation → Account → Run (Answer × Account)
unfolding answer_of
perform (deposit_op x) a = answer_of a (deposit x a)
perform (withdraw_op x) a = answer_of a (withdraw x a)

pub run : List Operation → Account → Run (List Answer × Account)
run [] a = ok ([], a)
run (o ∷ os) a = do (r, a') ← perform o a; (rs, a'') ← run os a'; ok (r ∷ rs, a'')

-- The most that the operations can add.
abbrev pub incoming : Operation → ℕ
incoming (deposit_op x) = pos_part x
incoming (withdraw_op x) = 0

abbrev pub inflow : List Operation → ℕ
inflow [] = 0
inflow (o ∷ os) = incoming o + inflow os

-- What the accepted operations moved, in and out.
abbrev pub moved_in : Operation → Answer → ℕ
moved_in (deposit_op x) accepted = pos_part x
moved_in _ _ = 0

abbrev pub moved_out : Operation → Answer → ℕ
moved_out (withdraw_op x) accepted = pos_part x
moved_out _ _ = 0

abbrev pub total {ℓ} : {A : Type ℓ} → (Operation → A → ℕ) → List Operation → List A → ℕ
total f [] rs = 0
total f (o ∷ os) [] = 0
total f (o ∷ os) (r ∷ rs) = f o r + total f os rs

-- The books of an account that `i` came into and `o` went out of: it is sound, its mutex is free,
-- and both balances moved by the difference.
pub record Books (a a' : Account) (i o : ℕ) : Type 0 where
  pub sound : IsSound a'
  pub free : a'.mutex ≡ false
  pub actual : a'.actual_balance +ℤ pos o ≡ a.actual_balance +ℤ pos i
  pub available : a'.available_balance +ℤ pos o ≡ a.available_balance +ℤ pos i

room-deposit :
    (x : ℤ) (a : Account)
    → a.actual_balance +ℤ pos (pos_part x) ≤ℤ pos (2 ^ 63 - 1)
    → a.actual_balance +ℤ x ≤ℤ pos (2 ^ 63 - 1)
room-deposit x a h = omega int_laws

perform-Books :
    (op : Operation) (a : Account)
    → IsSound a
    → a.mutex ≡ false
    → a.actual_balance +ℤ pos (incoming op) ≤ℤ pos (2 ^ 63 - 1)
    → Returns (perform op a) λ r. Books a r.1 (moved_in op r.0) (moved_out op r.0)
unfolding perform
perform-Books (deposit_op x) a s free room = elim (Bool-cases (leb_ℤ x (pos 0))) [
  | inl e ↦ (
    (caught, a),
    rw (deposit_lem x a s free (room-deposit x a room), e),
    record { sound = s; free = free; actual = refl; available = refl },
  )
  | inr e ↦
      let p : pos 0 <ℤ x = ground arith in
      let positive : neg_part x ≡ 0 = ground arith in
      (
        (accepted, raised x a),
        rw (deposit_lem x a s free (room-deposit x a room), e),
        record {
          sound = raised-IsSound x a s p (room-deposit x a room);
          free = free;
          actual = omega int_laws;
          available = omega int_laws;
        },
      )
]
perform-Books (withdraw_op x) a s free room = elim (Bool-cases (leb_ℤ x (pos 0))) [
  | inl e ↦ (
    (caught, a),
    rw (withdraw_lem x a s free, e),
    record { sound = s; free = free; actual = refl; available = refl },
  )
  | inr e ↦ elim (Bool-cases (leb_ℤ x a.available_balance)) [
    | inr poor ↦ (
      (refused, a),
      rw (withdraw_lem x a s free, e, poor),
      record { sound = s; free = free; actual = refl; available = refl },
    )
    | inl rich ↦
        let p : pos 0 <ℤ x = ground arith in
        let positive : neg_part x ≡ 0 = ground arith in
        (
          (accepted, lowered x a),
          rw (withdraw_lem x a s free, e, rich),
          record {
            sound = lowered-IsSound x a s p (ground arith);
            free = free;
            actual = omega int_laws;
            available = omega int_laws;
          },
        )
  ]
]

moved_in-le : (op : Operation) (r : Answer) → moved_in op r ≤ incoming op
moved_in-le (deposit_op x) accepted = omega arith
moved_in-le (deposit_op x) refused = omega arith
moved_in-le (deposit_op x) caught = omega arith
moved_in-le (withdraw_op x) r = omega arith

Books-trans :
    {a b c : Account} {i o i' o' : ℕ}
    → Books a b i o
    → Books b c i' o'
    → Books a c (i + i') (o + o')
Books-trans x y = record {
  sound = y.sound;
  free = y.free;
  actual = omega (
    int_laws,
    ap pos_part x.actual,
    ap neg_part x.actual,
    ap pos_part y.actual,
    ap neg_part y.actual,
  );
  available = omega (
    int_laws,
    ap pos_part x.available,
    ap neg_part x.available,
    ap pos_part y.available,
    ap neg_part y.available,
  );
}

Books-room :
    {a b : Account} {i o : ℕ} (n rest : ℕ)
    → Books a b i o
    → i ≤ n
    → a.actual_balance +ℤ pos (n + rest) ≤ℤ pos (2 ^ 63 - 1)
    → b.actual_balance +ℤ pos rest ≤ℤ pos (2 ^ 63 - 1)
Books-room n rest x h room = omega (int_laws, ap pos_part x.actual, ap neg_part x.actual)

-- Any sequence of `deposit` and `withdraw`, each caller catching its own exception, on a sound
-- account with a free mutex whose deposits keep the balance in `int64_t`, ends without overflow in
-- a sound account with a free mutex; both balances differ from the first ones by exactly what was
-- accepted.
pub run-Books :
    (ops : List Operation) (a : Account)
    → IsSound a
    → a.mutex ≡ false
    → a.actual_balance +ℤ pos (inflow ops) ≤ℤ pos (2 ^ 63 - 1)
    → Returns (run ops a) λ r. Books a r.1 (total moved_in ops r.0) (total moved_out ops r.0)
unfolding run
run-Books [] a s free room =
    (([], a), refl, record { sound = s; free = free; actual = refl; available = refl })
run-Books (op ∷ ops) a s free room =
    let (r, step, b) = perform-Books op a s free (omega int_laws) in
    let (rs, steps, bs) =
      run-Books ops r.1 b.sound b.free
        (Books-room (incoming op) (inflow ops) b (moved_in-le op r.0) room) in
    ((r.0 ∷ rs.0, rs.1), rw (step, ◌>>=◌, steps), Books-trans b bs)
