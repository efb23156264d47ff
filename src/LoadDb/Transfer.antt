-- ===== src/LoadDb/Transfer.antt =====
-- The branch `TRANSFER` of `Load_DB::transaction`, between two different accounts.
use concurrent_banking_syste.Prelude.{
  ℕ, ◌≡◌, ◌≢◌, ◌⊎◌, sym, ap, ◌∙◌, true, false, Option, some, none, arith, if◌then◌else◌, Bool-cases,
  inl, inr, List, [], ◌∷◌, ◌++◌, ◌==◌,
}
use mathlib.Core.List.{append_assoc}
use concurrent_banking_syste.Prelude.Int.{ℤ, pos, eqb_ℤ, eqb_ℤ_iff, ltb_ℤ, leb_ℤ, ◌<ℤ◌}
use concurrent_banking_syste.Run.{Exception}
use concurrent_banking_syste.Exec.{done, thrown}
use concurrent_banking_syste.HashTable.{Key}
use concurrent_banking_syste.Memory.{Memory}
use concurrent_banking_syste.Requests.{TransactionRequest}
use concurrent_banking_syste.Bank.{apply_memory_update}
use concurrent_banking_syste.Postgres.{
  Postgres, Statement, Reply, LogRow, Balances, minus, plus, withdraw_statement, deposit_statement,
  log_statement, at_id, withdrawn, deposited, withdraw_rows, deposit_rows,
}
use concurrent_banking_syste.LoadDb.{
  World, value, update_both, log_both, transfer_branch, transaction,
}
use concurrent_banking_syste.LoadDb.Synced.{CachedAs, Synced, Synced-ext, changed}
use concurrent_banking_syste.LoadDb.Cache.{update_transfer}
use concurrent_banking_syste.LoadDb.Promise.{
  Reply-cases, Ends, Promise, caught, refused, finished, Fails, Runs, statement_failed,
  later_failed, one_runs, all_run, branch-transfer,
}
use concurrent_banking_syste.LoadDb.Single.{
  withdraw_rows_pos, deposit_rows_pos, withdraw_rows_zero, deposit_rows_zero, HasFunds, Exists,
  changed_self,
}

-- The rows that a transfer logs for the sender and for the receiver.
abbrev pub sender_row : TransactionRequest → ℤ → LogRow
sender_row t to_id = record {
  account_id = t.account_id;
  transaction_type = t.transaction_type;
  transaction_amount = t.transaction_amount;
  remarks = t.remarks;
  from_account = none;
  to_account = some to_id;
}

abbrev pub receiver_row : TransactionRequest → ℤ → LogRow
receiver_row t to_id = record {
  account_id = to_id;
  transaction_type = t.transaction_type;
  transaction_amount = t.transaction_amount;
  remarks = t.remarks;
  from_account = some t.account_id;
  to_account = none;
}

-- The statements that log them, and the whole transfer, with the update of the lower id first.
abbrev pub transfer_logs : TransactionRequest → ℤ → List Statement
transfer_logs t to_id =
    log_statement t.account_id t.transaction_type t.transaction_amount t.remarks none (some to_id)
    ∷ log_statement to_id t.transaction_type t.transaction_amount t.remarks (some t.account_id) none
    ∷ []

abbrev pub transfer_script : TransactionRequest → ℤ → List Statement
transfer_script t to_id =
    let out = withdraw_statement t.transaction_amount t.account_id in
    let in_ = deposit_statement t.transaction_amount to_id in
    if ltb_ℤ t.account_id to_id
    then out ∷ in_ ∷ transfer_logs t to_id
    else in_ ∷ out ∷ transfer_logs t to_id

-- The balances after a transfer: the amount leaves one account and reaches the other.
abbrev pub transferred : (ℤ → Option Balances) → ℤ → ℤ → ℤ → ℤ → Option Balances
transferred f x from_id to_id j =
    if eqb_ℤ to_id j then deposited x (f j) else if eqb_ℤ from_id j then withdrawn x (f j) else f j

-- Between different accounts the order of the two updates does not matter.
module _ (f : ℤ → Option Balances) (x from_id to_id : ℤ) (ne : from_id ≢ to_id) where
  withdraw_first :
      (j : ℤ)
      → at_id (at_id f from_id (withdrawn x)) to_id (deposited x) j
        ≡ transferred f x from_id to_id j
  withdraw_first j = ground (arith, eqb_ℤ_iff from_id j, eqb_ℤ_iff to_id j)

  deposit_first :
      (j : ℤ)
      → at_id (at_id f to_id (deposited x)) from_id (withdrawn x) j
        ≡ transferred f x from_id to_id j
  deposit_first j = ground (arith, eqb_ℤ_iff from_id j, eqb_ℤ_iff to_id j)

  -- The first update leaves the other account's row alone.
  other_row : (g : Option Balances → Option Balances) (i k : ℤ) → i ≢ k → at_id f i g k ≡ f k
  other_row g i k n = ground (arith, eqb_ℤ_iff i k)

  transferred-changed :
      (b c : Balances) (j : ℤ)
      → f from_id ≡ some b
      → f to_id ≡ some c
      → leb_ℤ x b.available ≡ true
      → transferred f x from_id to_id j ≡ changed (changed f from_id (minus x b)) to_id (plus x c) j
  transferred-changed b c j hb hc l = elim (Bool-cases (eqb_ℤ to_id j)) [
    | inl e ↦ rw (e, ← (eqb_ℤ_iff to_id j).0 e, hc)
    | inr n ↦ elim (Bool-cases (eqb_ℤ from_id j)) [
      | inl e ↦ rw (n, e, ← (eqb_ℤ_iff from_id j).0 e, hb, l)
      | inr n' ↦ rw (n, n')
    ]
  ]

sent_self :
    (f : ℤ → Option Balances) (i k : ℤ) (b c : Balances)
    → i ≢ k
    → changed (changed f i b) k c i ≡ some b
sent_self f i k b c n = ground (arith, eqb_ℤ_iff k i, eqb_ℤ_iff i i)

module _ (pg : Postgres) ⦃key : Key ℤ⦄ (t : TransactionRequest) (w : World pg.Database) (to_id : ℤ)
    (ne : t.account_id ≢ to_id) where
  open pg use {Database, execute, balances, history, withdraw_law, deposit_law, log_law, range_law}

  abbrev f : ℤ → Option Balances
  f = balances w.db

  abbrev x : ℤ
  x = t.transaction_amount

  -- Both updates went well, in whichever order.
  record Updated (rows_out rows_in : ℕ) (d : Database) : Type 0 where
    runs : update_both pg x t.account_id to_id w.db w ≡ done (rows_out, rows_in, d) w
    taken : rows_out ≡ withdraw_rows x (f t.account_id)
    given : rows_in ≡ deposit_rows x (f to_id)
    reads : (j : ℤ) → balances d j ≡ transferred f x t.account_id to_id j
    same_log : history d ≡ history w.db
    fails_later : Fails pg (transfer_logs t to_id) d → Fails pg (transfer_script t to_id) w.db
    runs_on :
        {d' : Database}
        → Runs pg (transfer_logs t to_id) d d'
        → Runs pg (transfer_script t to_id) w.db d'

  abbrev BothUpdated : Type 0
  BothUpdated = (o : ℕ) × (i : ℕ) × (d : Database) × Updated o i d

  abbrev Failed : Type 0
  Failed =
      (e : Exception) × Fails pg (transfer_script t to_id) w.db
      × (update_both pg x t.account_id to_id w.db w ≡ thrown e w)

  lower_first : ltb_ℤ t.account_id to_id ≡ true → BothUpdated ⊎ Failed
  unfolding update_both
  lower_first lt = elim (Reply-cases (execute (withdraw_statement x t.account_id) w.db)) [
    | inr (e, no_w) ↦ inr (e, rw lt (statement_failed no_w), rw (lt, no_w))
    | inl ((o, d), out) ↦ elim (Reply-cases (execute (deposit_statement x to_id) d)) [
      | inr (e, no_d) ↦
          inr (e, rw lt (later_failed out (statement_failed no_d)), rw (lt, out, no_d))
      | inl ((i, d'), paid) ↦
          let a = withdraw_law x t.account_id w.db out in
          let b = deposit_law x to_id d paid in
          inl (
            o,
            i,
            d',
            record {
              runs = rw (lt, out, paid);
              taken = a.0;
              given =
                  b.0
                  ∙ ap (deposit_rows x) (
                      a.1 to_id
                      ∙ other_row f x t.account_id to_id ne (withdrawn x) t.account_id to_id ne);
              reads = λ j.
                  b.1 j
                  ∙ ap (λ o. if eqb_ℤ to_id j then deposited x o else o) (a.1 j)
                  ∙ withdraw_first f x t.account_id to_id ne j;
              same_log = b.2 ∙ a.2;
              fails_later = λ h. rw lt (later_failed out (later_failed paid h));
              runs_on = λ h. rw lt (one_runs out (one_runs paid h));
            },
          )
    ]
  ]

  upper_first : ltb_ℤ t.account_id to_id ≡ false → BothUpdated ⊎ Failed
  unfolding update_both
  upper_first ge = elim (Reply-cases (execute (deposit_statement x to_id) w.db)) [
    | inr (e, no_d) ↦ inr (e, rw ge (statement_failed no_d), rw (ge, no_d))
    | inl ((i, d), paid) ↦ elim (Reply-cases (execute (withdraw_statement x t.account_id) d)) [
      | inr (e, no_w) ↦
          inr (e, rw ge (later_failed paid (statement_failed no_w)), rw (ge, paid, no_w))
      | inl ((o, d'), out) ↦
          let a = deposit_law x to_id w.db paid in
          let b = withdraw_law x t.account_id d out in
          inl (
            o,
            i,
            d',
            record {
              runs = rw (ge, paid, out);
              taken =
                  b.0
                  ∙ ap (withdraw_rows x) (
                      a.1 t.account_id
                      ∙ other_row f x t.account_id to_id ne (deposited x) to_id t.account_id
                          (λ e. ne (sym e)));
              given = a.0;
              reads = λ j.
                  b.1 j
                  ∙ ap (λ o. if eqb_ℤ t.account_id j then withdrawn x o else o) (a.1 j)
                  ∙ deposit_first f x t.account_id to_id ne j;
              same_log = b.2 ∙ a.2;
              fails_later = λ h. rw ge (later_failed paid (later_failed out h));
              runs_on = λ h. rw ge (one_runs paid (one_runs out h));
            },
          )
    ]
  ]

  both : BothUpdated ⊎ Failed
  both = elim (Bool-cases (ltb_ℤ t.account_id to_id)) [
    | inl lt ↦ lower_first lt
    | inr ge ↦ upper_first ge
  ]

  module _ (s : Synced (balances w.db) w.memory) (positive : pos 0 <ℤ x)
      (ty : t.transaction_type ≡ "TRANSFER") (dest : t.to_account ≡ some to_id) where
    abbrev rows : List LogRow
    rows = sender_row t to_id ∷ receiver_row t to_id ∷ []

    abbrev Granted : Type 0
    Granted = HasFunds x (f t.account_id) × Exists (f to_id)

    abbrev Goal : Type 0
    Goal =
        Ends (transaction pg t w)
          (Promise pg Granted (transfer_script t to_id) (transferred f x t.account_id to_id) rows w)

    transfer_memory :
        (d : Database) (b c : Balances)
        → ((j : ℤ) → balances d j ≡ transferred f x t.account_id to_id j)
        → f t.account_id ≡ some b
        → f to_id ≡ some c
        → leb_ℤ x b.available ≡ true
        → (m' : Memory) × (apply_memory_update t w.memory ≡ done true m')
          × Synced (transferred f x t.account_id to_id) m'
    transfer_memory d b c reads hb hc enough =
        let cb : CachedAs w.memory t.account_id b = rw hb at (s t.account_id) in
        let cc' : CachedAs w.memory to_id c = rw hc at (s to_id) in
        let same = λ (j : ℤ). transferred-changed f x t.account_id to_id ne b c j hb hc enough in
        let (m', run, s') =
          update_transfer t f w.memory s b cb positive to_id c cc' ty dest ne (ground arith)
            (range_law d t.account_id (
              reads t.account_id
              ∙ same t.account_id
              ∙ sent_self f t.account_id to_id (minus x b) (plus x c) ne))
            (range_law d to_id (
              reads to_id
              ∙ same to_id
              ∙ changed_self (changed f t.account_id (minus x b)) to_id (plus x c))) in
        (
          m',
          run,
          Synced-ext (changed (changed f t.account_id (minus x b)) to_id (plus x c))
              (transferred f x t.account_id to_id) m' same s',
        )

    abbrev log_out : Database → Reply (ℕ × Database)
    log_out d =
        execute (log_statement t.account_id t.transaction_type x t.remarks none (some to_id)) d

    abbrev log_in : Database → Reply (ℕ × Database)
    log_in d =
        execute (log_statement to_id t.transaction_type x t.remarks (some t.account_id) none) d

    logs : (o i : ℕ) (d : Database) → Updated o i d → (o == 0) ≡ false → (i == 0) ≡ false → Goal
    unfolding transfer_branch log_both value
    logs o i d u paid given = elim (Reply-cases (log_out d)) [
      | inr (e, no_log) ↦
          caught pg t w _ _ e (u.fails_later (statement_failed no_log))
            (branch-transfer pg t w ty ∙ rw (dest, u.runs, paid, given, no_log))
      | inl ((k, d'), logged) ↦ elim (Reply-cases (log_in d')) [
        | inr (e, no_log) ↦
            caught pg t w _ _ e (u.fails_later (later_failed logged (statement_failed no_log)))
              (branch-transfer pg t w ty ∙ rw (dest, u.runs, paid, given, logged, no_log))
        | inl ((k', d''), logged') ↦
            let wrote = log_law _ _ _ _ _ _ d logged in
            let wrote' = log_law _ _ _ _ _ _ d' logged' in
            let (b, hb, enough) =
              withdraw_rows_pos x (f t.account_id) (ap (λ n. n == 0) (sym u.taken) ∙ paid) in
            let (c, hc) = deposit_rows_pos x (f to_id) (ap (λ n. n == 0) (sym u.given) ∙ given) in
            finished pg t w _ _ d'' ((b, hb, enough), (c, hc))
              (u.runs_on (one_runs logged (one_runs logged' all_run)))
              (branch-transfer pg t w ty ∙ rw (dest, u.runs, paid, given, logged, logged'))
              (λ j. wrote'.0 j ∙ wrote.0 j ∙ u.reads j)
              (wrote'.1
                ∙ ap (λ h. h ++ receiver_row t to_id ∷ [])
                    (wrote.1 ∙ ap (λ h. h ++ sender_row t to_id ∷ []) u.same_log)
                ∙ append_assoc (history w.db) (sender_row t to_id ∷ []) (receiver_row t to_id ∷ []))
              (transfer_memory d b c u.reads hb hc enough)
      ]
    ]

    -- `TRANSFER` of a positive amount between two different accounts, from a state in which memory
    -- mirrors the rows of the database, with any server: `transaction` always returns. If it
    -- answers true, the sender had the funds and the receiver a row, the amount has left the one
    -- and reached the other, one row of the log stands for each, and memory mirrors the database.
    -- If it answers false, memory is what it was, and either the database is too, and one of the
    -- two was missing, or one of the statements that this very request takes, or its commit, threw,
    -- when they are run in order from this database; or the request was to be granted, the database
    -- has it applied, and the commit threw in doubt.
    pub transfer_ends : Goal
    unfolding transfer_branch value
    transfer_ends = elim both [
      | inr (e, server, failed) ↦
          caught pg t w _ _ e server (branch-transfer pg t w ty ∙ rw (dest, failed))
      | inl (o, i, d, u) ↦ elim (Bool-cases (o == 0)) [
        | inl z ↦
            refused pg t w _ _ "Transfer Failed: Insufficient funds or sender missing"
              (λ granted.
                withdraw_rows_zero x (f t.account_id) (ap (λ n. n == 0) (sym u.taken) ∙ z)
                  granted.0)
              (branch-transfer pg t w ty ∙ rw (dest, u.runs, z))
        | inr paid ↦ elim (Bool-cases (i == 0)) [
          | inl z ↦
              refused pg t w _ _ "Transfer Failed: Recipient account missing"
                (λ granted.
                  deposit_rows_zero x (f to_id) (ap (λ n. n == 0) (sym u.given) ∙ z) granted.1)
                (branch-transfer pg t w ty ∙ rw (dest, u.runs, paid, z))
          | inr given ↦ logs o i d u paid given
        ]
      ]
    ]
