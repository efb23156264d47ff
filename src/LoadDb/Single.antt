-- ===== src/LoadDb/Single.antt =====
-- The branches `WITHDRAW` and `DEPOSIT` of `Load_DB::transaction`.
use concurrent_banking_syste.Prelude.{
  ℕ, ◌≡◌, refl, sym, ap, ◌∙◌, true, false, Option, some, none, arith, Bool-cases, inl, inr, [], ◌∷◌,
  ◌++◌, ◌==◌,
}
use concurrent_banking_syste.Prelude.Int.{ℤ, pos, eqb_ℤ_iff, leb_ℤ, ◌<ℤ◌}
use concurrent_banking_syste.Exec.{done}
use concurrent_banking_syste.HashTable.{Key}
use concurrent_banking_syste.Memory.{Memory}
use concurrent_banking_syste.Requests.{TransactionRequest}
use concurrent_banking_syste.Bank.{apply_memory_update}
use concurrent_banking_syste.Postgres.{
  Postgres, Statement, Reply, LogRow, Balances, minus, plus, withdraw_statement, deposit_statement,
  log_statement, at_id, withdrawn, deposited, withdraw_rows, deposit_rows,
}
use concurrent_banking_syste.LoadDb.{World, withdraw_branch, deposit_branch, transaction}
use concurrent_banking_syste.LoadDb.Synced.{CachedAs, Synced, Synced-ext, changed}
use concurrent_banking_syste.LoadDb.Cache.{update_withdraw, update_deposit}
use concurrent_banking_syste.LoadDb.Promise.{
  Reply-cases, Ends, Promise, caught, refused, finished, statement_failed, later_failed, one_runs,
  all_run, withdrawn-changed, deposited-changed, branch-withdraw, branch-deposit,
}

-- The row that both branches log.
abbrev pub single_row : TransactionRequest → LogRow
single_row t = record {
  account_id = t.account_id;
  transaction_type = t.transaction_type;
  transaction_amount = t.transaction_amount;
  remarks = t.remarks;
  from_account = none;
  to_account = none;
}

-- The statement that logs it.
abbrev pub single_log : TransactionRequest → Statement
single_log t =
    log_statement t.account_id t.transaction_type t.transaction_amount t.remarks none none

-- A row with the funds for a withdrawal, and a row.
abbrev pub HasFunds : ℤ → Option Balances → Type 0
HasFunds x o = (b : Balances) × (o ≡ some b) × (leb_ℤ x b.available ≡ true)

abbrev pub Exists : Option Balances → Type 0
Exists o = (b : Balances) × (o ≡ some b)

-- Rows are affected only where there is an account with the funds.
pub withdraw_rows_pos :
    (x : ℤ) (o : Option Balances) → (withdraw_rows x o == 0) ≡ false → HasFunds x o
withdraw_rows_pos x none h = absurd (ground arith)
withdraw_rows_pos x (some b) h = (b, refl, ground arith)

pub withdraw_rows_zero :
    (x : ℤ) (o : Option Balances) → (withdraw_rows x o == 0) ≡ true → ¬ HasFunds x o
withdraw_rows_zero x none h (b, e, _) = absurd (cc)
withdraw_rows_zero x (some c) h (b, e, l) = absurd (ground arith)

pub deposit_rows_zero : (x : ℤ) (o : Option Balances) → (deposit_rows x o == 0) ≡ true → ¬ Exists o
deposit_rows_zero x none h (b, e) = absurd (cc)
deposit_rows_zero x (some c) h (b, e) = absurd (ground arith)

pub deposit_rows_pos :
    (x : ℤ) (o : Option Balances) → (deposit_rows x o == 0) ≡ false → (b : Balances) × (o ≡ some b)
deposit_rows_pos x none h = absurd (ground arith)
deposit_rows_pos x (some b) h = (b, refl)

pub changed_self : (g : ℤ → Option Balances) (id : ℤ) (b : Balances) → changed g id b id ≡ some b
changed_self g id b = rw ((eqb_ℤ_iff id id).1 refl)

module _ (pg : Postgres) ⦃key : Key ℤ⦄ (t : TransactionRequest) (w : World pg.Database)
    (s : Synced (pg.balances w.db) w.memory) (positive : pos 0 <ℤ t.transaction_amount) where
  open pg use {Database, execute, balances, history, withdraw_law, deposit_law, log_law, range_law}

  abbrev f : ℤ → Option Balances
  f = balances w.db

  abbrev x : ℤ
  x = t.transaction_amount

  abbrev log : Database → Reply (ℕ × Database)
  log d = execute (single_log t) d

  abbrev Goal : Type 0 → Statement → (ℤ → Option Balances) → Type 0
  Goal Granted update g =
      Ends (transaction pg t w)
        (Promise pg Granted (update ∷ single_log t ∷ []) g (single_row t ∷ []) w)

  withdraw_memory :
      (d : Database)
      → t.transaction_type ≡ "WITHDRAW"
      → ((j : ℤ) → balances d j ≡ at_id f t.account_id (withdrawn x) j)
      → (b : Balances) → f t.account_id ≡ some b
      → leb_ℤ x b.available ≡ true
      → (m' : Memory) × (apply_memory_update t w.memory ≡ done true m')
        × Synced (at_id f t.account_id (withdrawn x)) m'
  withdraw_memory d ty reads b hb enough =
      let c : CachedAs w.memory t.account_id b = rw hb at (s t.account_id) in
      let (m', run, s') = update_withdraw t f w.memory s b c positive ty (ground arith) (
        range_law d t.account_id (
          reads t.account_id
          ∙ withdrawn-changed f t.account_id x b t.account_id hb enough
          ∙ changed_self f t.account_id (minus x b))) in
      (
        m',
        run,
        Synced-ext (changed f t.account_id (minus x b)) (at_id f t.account_id (withdrawn x)) m'
            (λ j. withdrawn-changed f t.account_id x b j hb enough) s',
      )

  -- `WITHDRAW` of a positive amount, from a state in which memory mirrors the rows of the database,
  -- with any server: `transaction` always returns. If it answers true, the account had the funds,
  -- both its balances are lower by the amount, the log has one row more, and memory mirrors the
  -- database. If it answers false, memory is what it was, and either the database is too, and the
  -- funds were missing, or one of the statements that this very request takes, or its commit,
  -- threw, when they are run in order from this database; or the request was to be granted, the
  -- database has it applied, and the commit threw in doubt.
  pub withdraw_ends :
      t.transaction_type ≡ "WITHDRAW"
      → Goal
          (HasFunds x (f t.account_id))
          (withdraw_statement x t.account_id)
          (at_id f t.account_id (withdrawn x))
  unfolding withdraw_branch
  withdraw_ends ty = elim (Reply-cases (execute (withdraw_statement x t.account_id) w.db)) [
    | inr (e, no_update) ↦
        caught pg t w _ _ e (statement_failed no_update) (branch-withdraw pg t w ty ∙ rw no_update)
    | inl ((n, d), updated) ↦
        let law = withdraw_law x t.account_id w.db updated in
        elim (Bool-cases (n == 0)) [
          | inl z ↦
              refused pg t w _ _ "Transaction Failed: Insufficient funds or invalid account"
                (withdraw_rows_zero x (f t.account_id) (ap (λ k. k == 0) (sym law.0) ∙ z))
                (branch-withdraw pg t w ty ∙ rw (updated, z))
          | inr nz ↦ elim (Reply-cases (log d)) [
            | inr (e, no_log) ↦
                caught pg t w _ _ e (later_failed updated (statement_failed no_log))
                  (branch-withdraw pg t w ty ∙ rw (updated, nz, no_log))
            | inl ((k, d'), logged) ↦
                let (b, hb, enough) =
                  withdraw_rows_pos x (f t.account_id) (ap (λ k. k == 0) (sym law.0) ∙ nz) in
                let wrote = log_law _ _ _ _ _ _ d logged in
                finished pg t w _ _ d' (b, hb, enough) (one_runs updated (one_runs logged all_run))
                  (branch-withdraw pg t w ty ∙ rw (updated, nz, logged)) (λ j. wrote.0 j ∙ law.1 j)
                  (wrote.1 ∙ ap (λ h. h ++ single_row t ∷ []) law.2)
                  (withdraw_memory d ty law.1 b hb enough)
          ]
        ]
  ]

  deposit_memory :
      (d : Database)
      → t.transaction_type ≡ "DEPOSIT"
      → ((j : ℤ) → balances d j ≡ at_id f t.account_id (deposited x) j)
      → (b : Balances) → f t.account_id ≡ some b
      → (m' : Memory) × (apply_memory_update t w.memory ≡ done true m')
        × Synced (at_id f t.account_id (deposited x)) m'
  deposit_memory d ty reads b hb =
      let c : CachedAs w.memory t.account_id b = rw hb at (s t.account_id) in
      let (m', run, s') = update_deposit t f w.memory s b c positive ty (
        range_law d t.account_id (
          reads t.account_id
          ∙ deposited-changed f t.account_id x b t.account_id hb
          ∙ changed_self f t.account_id (plus x b))) in
      (
        m',
        run,
        Synced-ext (changed f t.account_id (plus x b)) (at_id f t.account_id (deposited x)) m'
            (λ j. deposited-changed f t.account_id x b j hb) s',
      )

  -- `DEPOSIT` of a positive amount, from a state in which memory mirrors the rows of the database,
  -- with any server: `transaction` always returns. If it answers true, the account had a row, both
  -- its balances are higher by the amount, the log has one row more, and memory mirrors the
  -- database. If it answers false, memory is what it was, and either the database is too, and the
  -- row was missing, or one of the statements that this very request takes, or its commit, threw,
  -- when they are run in order from this database; or the request was to be granted, the database
  -- has it applied, and the commit threw in doubt.
  pub deposit_ends :
      t.transaction_type ≡ "DEPOSIT"
      → Goal
          (Exists (f t.account_id))
          (deposit_statement x t.account_id)
          (at_id f t.account_id (deposited x))
  unfolding deposit_branch
  deposit_ends ty = elim (Reply-cases (execute (deposit_statement x t.account_id) w.db)) [
    | inr (e, no_update) ↦
        caught pg t w _ _ e (statement_failed no_update) (branch-deposit pg t w ty ∙ rw no_update)
    | inl ((n, d), updated) ↦
        let law = deposit_law x t.account_id w.db updated in
        elim (Bool-cases (n == 0)) [
          | inl z ↦
              refused pg t w _ _ "Transaction Failed: Account not found"
                (deposit_rows_zero x (f t.account_id) (ap (λ k. k == 0) (sym law.0) ∙ z))
                (branch-deposit pg t w ty ∙ rw (updated, z))
          | inr nz ↦ elim (Reply-cases (log d)) [
            | inr (e, no_log) ↦
                caught pg t w _ _ e (later_failed updated (statement_failed no_log))
                  (branch-deposit pg t w ty ∙ rw (updated, nz, no_log))
            | inl ((k, d'), logged) ↦
                let (b, hb) =
                  deposit_rows_pos x (f t.account_id) (ap (λ k. k == 0) (sym law.0) ∙ nz) in
                let wrote = log_law _ _ _ _ _ _ d logged in
                finished pg t w _ _ d' (b, hb) (one_runs updated (one_runs logged all_run))
                  (branch-deposit pg t w ty ∙ rw (updated, nz, logged)) (λ j. wrote.0 j ∙ law.1 j)
                  (wrote.1 ∙ ap (λ h. h ++ single_row t ∷ []) law.2)
                  (deposit_memory d ty law.1 b hb)
          ]
        ]
  ]
