-- ===== src/Postgres/Ledger.antt =====
-- A database that meets the interface: rows as a function of the id, and a log. An update that would
-- leave `bigint` fails, as PostgreSQL's does.
use concurrent_banking_syste.Prelude.{
  ℕ, ◌≡◌, refl, sym, ◌∙◌, ap, Option, none, some, Bool, true, ◌&&◌, List, [], ◌∷◌, ◌++◌, arith,
  if◌then◌else◌, Bool-cases, inl, inr, String,
}
use concurrent_banking_syste.Prelude.Int.{ℤ, leb_ℤ, eqb_ℤ, eqb_ℤ_iff, fits64}
use concurrent_banking_syste.Run.{sql_error}
use concurrent_banking_syste.Postgres.{
  Postgres, Reply, result, fails, committed, TookEffect, surely, unsaid, Statement,
  withdraw_statement, deposit_statement, log_statement, LogRow, Balances, minus, plus,
  withdraw_rows, withdrawn, deposit_rows, deposited, at_id,
}

pub record Ledger : Type 0 where
  pub rows : ℤ → Option Balances
  pub log : List LogRow

unfoldable pub in_range : Balances → Bool
in_range b = fits64 b.actual && fits64 b.available

unfoldable pub keep : Option Balances → Option Balances
unfolding in_range
keep none = none
keep (some b) = if in_range b then some b else none

abbrev pub rows_of : Ledger → ℤ → Option Balances
rows_of d id = keep (d.rows id)

store : ℤ → Balances → Ledger → Reply (ℕ × Ledger)
unfolding in_range
store id b d =
    if in_range b
    then result (1, record d { rows = λ j. if eqb_ℤ id j then some b else d.rows j })
    else fails (sql_error "bigint out of range")

withdraw_row : ℤ → ℤ → Ledger → Option Balances → Reply (ℕ × Ledger)
unfolding store
withdraw_row x id d none = result (0, d)
withdraw_row x id d (some b) = if leb_ℤ x b.available then store id (minus x b) d else result (0, d)

deposit_row : ℤ → ℤ → Ledger → Option Balances → Reply (ℕ × Ledger)
unfolding store
deposit_row x id d none = result (0, d)
deposit_row x id d (some b) = store id (plus x b) d

unfoldable pub run : Statement → Ledger → Reply (ℕ × Ledger)
unfolding withdraw_row deposit_row keep
run (withdraw_statement x id) d = withdraw_row x id d (keep (d.rows id))
run (deposit_statement x id) d = deposit_row x id d (keep (d.rows id))
run (log_statement id type x remarks from to) d = result (
  1,
  record d {
    log =
        d.log
        ++ record {
          account_id = id;
          transaction_type = type;
          transaction_amount = x;
          remarks = remarks;
          from_account = from;
          to_account = to;
        }
          ∷ [];
  },
)

update : ℤ → Balances → Ledger → Ledger
update id b d = record d { rows = λ j. if eqb_ℤ id j then some b else d.rows j }

update-keep :
    (id : ℤ) (b : Balances) (d : Ledger) (j : ℤ)
    → in_range b ≡ true
    → keep ((update id b d).rows j) ≡ (if eqb_ℤ id j then some b else keep (d.rows j))
unfolding update keep
update-keep id b d j e = elim (Bool-cases (eqb_ℤ id j)) [
  | inl same ↦ rw (same, e)
  | inr other ↦ rw other
]

store_parts :
    (id : ℤ) (b : Balances) (d : Ledger) {n : ℕ} {d' : Ledger}
    → store id b d ≡ result (n, d')
    → (in_range b ≡ true) × (n ≡ 1) × (d' ≡ update id b d)
unfolding store update
store_parts id b d h = elim (Bool-cases (in_range b)) [
  | inl e ↦ (e, cc (rw e at h), cc (rw e at h))
  | inr e ↦ absurd (cc (rw e at h))
]

store_law :
    (id : ℤ) (b : Balances) (d : Ledger) {n : ℕ} {d' : Ledger}
    → store id b d ≡ result (n, d')
    → (n ≡ 1)
      × ((j : ℤ) → keep (d'.rows j) ≡ (if eqb_ℤ id j then some b else keep (d.rows j)))
      × (d'.log ≡ d.log)
unfolding update
store_law id b d h =
    let (e, one, same) = store_parts id b d h in
    (one, λ j. ap (λ z. keep (z.rows j)) same ∙ update-keep id b d j e, ap (λ z. z.log) same)

unchanged :
    (d : Ledger) {n : ℕ} {d' : Ledger}
    → ◌≡◌ {A = Reply (ℕ × Ledger)} (result (0, d)) (result (n, d'))
    → (n ≡ 0) × (d' ≡ d)
unchanged d h = (cc, cc)

at_row :
    (f : ℤ → Option Balances) (id j : ℤ) (g : Option Balances → Option Balances)
    (o : Option Balances)
    → g (f id) ≡ o
    → at_id f id g j ≡ (if eqb_ℤ id j then o else f j)
at_row f id j g o h = elim (Bool-cases (eqb_ℤ id j)) [
  | inl e ↦ rw (e, ← (eqb_ℤ_iff id j).0 e) h
  | inr e ↦ rw e
]

same_row :
    (f : ℤ → Option Balances) (id j : ℤ) (g : Option Balances → Option Balances)
    → g (f id) ≡ f id
    → at_id f id g j ≡ f j
same_row f id j g h = elim (Bool-cases (eqb_ℤ id j)) [
  | inl e ↦ rw (e, ← (eqb_ℤ_iff id j).0 e) h
  | inr e ↦ rw e
]

-- What the server says of an update that leaves `n` rows changed by `g`.
abbrev Changes : Ledger → ℤ → (Option Balances → Option Balances) → ℕ → ℕ → Ledger → Type 0
Changes d id g rows n d' =
    (n ≡ rows) × ((j : ℤ) → keep (d'.rows j) ≡ at_id (rows_of d) id g j) × (d'.log ≡ d.log)

untouched :
    (d : Ledger) (id : ℤ) (g : Option Balances → Option Balances) {n : ℕ} {d' : Ledger}
    → g (keep (d.rows id)) ≡ keep (d.rows id)
    → ◌≡◌ {A = Reply (ℕ × Ledger)} (result (0, d)) (result (n, d'))
    → Changes d id g 0 n d'
untouched d id g e h =
    let (zero, same) = unchanged d h in
    (
      zero,
      λ j. ap (λ z. keep (z.rows j)) same ∙ sym (same_row (rows_of d) id j g e),
      ap (λ z. z.log) same,
    )

replaced :
    (d : Ledger) (id : ℤ) (g : Option Balances → Option Balances) (b : Balances) {n : ℕ}
    {d' : Ledger}
    → g (keep (d.rows id)) ≡ some b
    → store id b d ≡ result (n, d')
    → Changes d id g 1 n d'
replaced d id g b e h =
    let (one, reads, log) = store_law id b d h in
    (one, λ j. reads j ∙ sym (at_row (rows_of d) id j g (some b) e), log)

withdraw_row_law :
    (x id : ℤ) (d : Ledger) (o : Option Balances) {n : ℕ} {d' : Ledger}
    → keep (d.rows id) ≡ o
    → withdraw_row x id d o ≡ result (n, d')
    → Changes d id (withdrawn x) (withdraw_rows x o) n d'
unfolding withdraw_row
withdraw_row_law x id d none e h = untouched d id (withdrawn x) (rw e) h
withdraw_row_law x id d (some b) e h = elim (Bool-cases (leb_ℤ x b.available)) [
  | inl l ↦ rw l (replaced d id (withdrawn x) (minus x b) (rw (e, l)) (rw l at h))
  | inr l ↦ rw l (untouched d id (withdrawn x) (rw (e, l)) (rw l at h))
]

deposit_row_law :
    (x id : ℤ) (d : Ledger) (o : Option Balances) {n : ℕ} {d' : Ledger}
    → keep (d.rows id) ≡ o
    → deposit_row x id d o ≡ result (n, d')
    → Changes d id (deposited x) (deposit_rows x o) n d'
unfolding deposit_row
deposit_row_law x id d none e h = untouched d id (deposited x) (rw e) h
deposit_row_law x id d (some b) e h = replaced d id (deposited x) (plus x b) (rw e) h

pub keep_range :
    (o : Option Balances) {b : Balances}
    → keep o ≡ some b
    → (fits64 b.actual ≡ true) × (fits64 b.available ≡ true)
unfolding keep in_range
keep_range o h = ground arith

log_parts :
    (e : LogRow) (d : Ledger) {n : ℕ} {d' : Ledger}
    → ◌≡◌ {A = Reply (ℕ × Ledger)} (result (1, record d { log = d.log ++ e ∷ [] })) (result (n, d'))
    → ((j : ℤ) → rows_of d' j ≡ rows_of d j) × (d'.log ≡ d.log ++ e ∷ [])
log_parts e d {n} {d'} h =
    let same : d' ≡ record d { log = d.log ++ e ∷ [] } = cc in
    (λ j. ap (λ z. keep (z.rows j)) same, ap (λ z. z.log) same)

pub run_withdraw :
    (x id : ℤ) (d : Ledger) {n : ℕ} {d' : Ledger}
    → run (withdraw_statement x id) d ≡ result (n, d')
    → Changes d id (withdrawn x) (withdraw_rows x (rows_of d id)) n d'
unfolding run
run_withdraw x id d h = withdraw_row_law x id d (keep (d.rows id)) refl h

pub run_deposit :
    (x id : ℤ) (d : Ledger) {n : ℕ} {d' : Ledger}
    → run (deposit_statement x id) d ≡ result (n, d')
    → Changes d id (deposited x) (deposit_rows x (rows_of d id)) n d'
unfolding run
run_deposit x id d h = deposit_row_law x id d (keep (d.rows id)) refl h

pub run_log :
    (id : ℤ) (type : String) (x : ℤ) (remarks : String) (from to : Option ℤ) (d : Ledger) {n : ℕ}
    {d' : Ledger}
    → run (log_statement id type x remarks from to) d ≡ result (n, d')
    → ((j : ℤ) → rows_of d' j ≡ rows_of d j)
      × (d'.log
          ≡ d.log
            ++ record {
              account_id = id;
              transaction_type = type;
              transaction_amount = x;
              remarks = remarks;
              from_account = from;
              to_account = to;
            }
              ∷ [])
unfolding run
run_log id type x remarks from to d h = log_parts _ d h

pub commit_keeps :
    (d : Ledger) {d' : Ledger}
    → TookEffect {Database = Ledger} (committed d) d'
    → ((j : ℤ) → rows_of d' j ≡ rows_of d j) × (d'.log ≡ d.log)
commit_keeps d {d'} (surely h) =
    let same : d' ≡ d = cc in (λ j. ap (λ z. rows_of z j) same, ap (λ z. z.log) same)
commit_keeps d (unsaid e h) = absurd (cc)

-- The server whose every commit succeeds.
abbrev pub ledger : Postgres
ledger = record {
  Database = Ledger;
  execute = run;
  commit = λ d. committed d;
  balances = rows_of;
  history = λ d. d.log;
  withdraw_law = λ x id d h. run_withdraw x id d h;
  deposit_law = λ x id d h. run_deposit x id d h;
  log_law = λ id type x remarks from to d h. run_log id type x remarks from to d h;
  commit_law = λ d h. commit_keeps d h;
  range_law = λ d id h. keep_range (d.rows id) h;
}
