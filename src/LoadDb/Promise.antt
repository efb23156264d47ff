-- ===== src/LoadDb/Promise.antt =====
-- What `Load_DB::transaction` leaves behind, on every branch of the code.
use concurrent_banking_syste.Prelude.{
  ℕ, [], ◌∷◌, ◌≡◌, refl, ◌∙◌, ◌⊎◌, Bool, true, false, Option, some, none, String, Bool-cases, inl,
  inr, List, ◌++◌,
}
use concurrent_banking_syste.Prelude.Int.{ℤ, eqb_ℤ, eqb_ℤ_iff, leb_ℤ}
use concurrent_banking_syste.Run.{Exception}
use concurrent_banking_syste.Exec.{Outcome, done, thrown}
use concurrent_banking_syste.HashTable.{Key}
use concurrent_banking_syste.Memory.{Memory}
use concurrent_banking_syste.Requests.{TransactionRequest, Connection}
use concurrent_banking_syste.Bank.{apply_memory_update}
use concurrent_banking_syste.Postgres.{
  Postgres, Statement, Reply, result, fails, Commit, committed, rolled_back, in_doubt, surely,
  unsaid, LogRow, Balances, minus, plus, at_id, withdrawn, deposited,
}
use concurrent_banking_syste.LoadDb.{
  World, told, send, on_memory, remember, finish, refuse, withdraw_branch, deposit_branch,
  transfer_branch, branch, transaction,
}
use concurrent_banking_syste.LoadDb.Synced.{Synced, Synced-ext, changed}

pub Reply-cases :
    {A : Type 0} (r : Reply A) → ((a : A) × (r ≡ result a)) ⊎ ((e : Exception) × (r ≡ fails e))
Reply-cases (result a) = inl (a, refl)
Reply-cases (fails e) = inr (e, refl)

-- The three ways of a commit.
pub data CommitCase {D : Type 0} (c : Commit D) : Type 0 where
  safe : (d : D) → c ≡ committed d → CommitCase c
  lost : (e : Exception) → c ≡ rolled_back e → CommitCase c
  doubtful : (e : Exception) (d : D) → c ≡ in_doubt e d → CommitCase c

pub Commit-cases : {D : Type 0} (c : Commit D) → CommitCase c
Commit-cases (committed d) = safe d refl
Commit-cases (rolled_back e) = lost e refl
Commit-cases (in_doubt e d) = doubtful e d refl

module _ {Database : Type 0} where
  -- A message changes neither the database nor the memory.
  pub told-keeps :
      (c : Connection) (text : String) (w : World Database)
      → ((told c text w).db ≡ w.db) × ((told c text w).memory ≡ w.memory)
  unfolding told
  told-keeps none text w = (refl, refl)
  told-keeps (some socket) text w = (refl, refl)

  -- The action ends in an answer and a world that satisfy `P`.
  abbrev pub Ends : Outcome (World Database) Bool → (Bool → World Database → Type 0) → Type 0
  Ends o P = (r : Bool) × (w' : World Database) × (o ≡ done r w') × P r w'

module _ (pg : Postgres) ⦃key : Key ℤ⦄ where
  open pg use {
    Database, execute, commit, balances, history, withdraw_law, deposit_law, log_law, commit_law,
    range_law,
  }

  -- The statements, one after the other from the database `d`, succeed and lead to the view `d'`.
  pub data Runs : List Statement → Database → Database → Type 0 where
    all_run : {d : Database} → Runs [] d d
    one_runs :
        {s : Statement} {ss : List Statement} {d d' d'' : Database} {n : ℕ}
        → execute s d ≡ result (n, d')
        → Runs ss d' d''
        → Runs (s ∷ ss) d d''

  -- The statements, one after the other from the database `d`, and then the commit: one of these
  -- calls throws, and nothing of them takes effect.
  pub data Fails : List Statement → Database → Type 0 where
    statement_failed :
        {s : Statement} {ss : List Statement} {d : Database} {e : Exception}
        → execute s d ≡ fails e
        → Fails (s ∷ ss) d
    later_failed :
        {s : Statement} {ss : List Statement} {d d' : Database} {n : ℕ}
        → execute s d ≡ result (n, d')
        → Fails ss d'
        → Fails (s ∷ ss) d
    commit_failed : {d : Database} {e : Exception} → commit d ≡ rolled_back e → Fails [] d

  pub Runs-Fails :
      {ss : List Statement} {d d' : Database} {e : Exception}
      → Runs ss d d'
      → commit d' ≡ rolled_back e
      → Fails ss d
  Runs-Fails all_run h = commit_failed h
  Runs-Fails (one_runs run rest) h = later_failed run (Runs-Fails rest h)

  -- The rows of the database read as `g`, and its log has the further rows.
  abbrev pub Applied :
      (ℤ → Option Balances) → List LogRow → World Database → World Database → Type 0
  Applied g rows w w' = ((j : ℤ) → balances w'.db j ≡ g j) × (history w'.db ≡ history w.db ++ rows)

  -- The commit threw in doubt: it has taken effect, and memory does not know.
  pub record InDoubt (script : List Statement) (w w' : World Database) : Type 0 where
    pub view : Database
    pub error : Exception
    pub runs : Runs script w.db view
    pub doubt : commit view ≡ in_doubt error w'.db

  -- What an answer promises, where `Granted` says when the request is to be granted, and `script` is
  -- the statements that it takes. After `true` it was to be granted, the database has it applied,
  -- and memory mirrors it. After `false` the memory is what it was; and the database is what it was,
  -- and the request was not to be granted or one of these very calls of the server threw; or
  -- the request was to be granted, the database has it applied, and the commit threw in doubt.
  abbrev pub Promise :
      Type 0
      → List Statement
      → (ℤ → Option Balances)
      → List LogRow
      → World Database
      → Bool
      → World Database
      → Type 0
  Promise Granted script g rows w false w' =
      (w'.memory ≡ w.memory)
      × (((w'.db ≡ w.db) × ((¬ Granted) ⊎ Fails script w.db))
          ⊎ (Granted × Applied g rows w w' × InDoubt script w w'))
  Promise Granted script g rows w true w' =
      Granted × Applied g rows w w' × Synced (balances w'.db) w'.memory

  module _ (t : TransactionRequest) (w : World Database) where
    finish-result :
        (d : Database) {d' : Database} {m' : Memory}
        → commit d ≡ committed d'
        → apply_memory_update t w.memory ≡ done true m'
        → finish pg t d w
          ≡ done true (told t.connection "SUCCESS" (record w { db = d'; memory = m' }))
    unfolding finish on_memory remember send
    finish-result d e u = rw (e, u)

    finish-fails :
        (d : Database) {e : Exception} → commit d ≡ rolled_back e → finish pg t d w ≡ thrown e w
    unfolding finish
    finish-fails d e = rw e

    finish-doubts :
        (d : Database) {d' : Database} {e : Exception}
        → commit d ≡ in_doubt e d'
        → finish pg t d w ≡ thrown e (record w { db = d' })
    unfolding finish
    finish-doubts d e = rw e

    module _ {Granted : Type 0} {script : List Statement} (g : ℤ → Option Balances)
        (rows : List LogRow) where
      -- Every exception of a branch ends in a refusal.
      pub caught :
          (e : Exception)
          → Fails script w.db
          → branch pg t w ≡ thrown e w
          → Ends (transaction pg t w) (Promise Granted script g rows w)
      unfolding transaction send
      caught e failed h =
          let same = told-keeps t.connection "ERROR" w in
          (false, told t.connection "ERROR" w, rw h, (same.1, inl (same.0, inr failed)))

      pub refused :
          (text : String)
          → ¬ Granted
          → branch pg t w ≡ refuse pg t text w
          → Ends (transaction pg t w) (Promise Granted script g rows w)
      unfolding transaction refuse send
      refused text denied h =
          let same = told-keeps t.connection text w in
          (false, told t.connection text w, rw h, (same.1, inl (same.0, inl denied)))

      -- A branch whose updates went well ends as the commit does.
      pub finished :
          (d : Database)
          → Granted
          → Runs script w.db d
          → branch pg t w ≡ finish pg t d w
          → ((j : ℤ) → balances d j ≡ g j)
          → history d ≡ history w.db ++ rows
          → (m' : Memory) × (apply_memory_update t w.memory ≡ done true m') × Synced g m'
          → Ends (transaction pg t w) (Promise Granted script g rows w)
      unfolding transaction send
      finished d granted runs h reads logged (m', update, s) = elim (Commit-cases (commit d)) [
        | lost e no_commit ↦ caught e (Runs-Fails runs no_commit) (h ∙ finish-fails d no_commit)
        | doubtful e d' doubt ↦
            let after : World Database = record w { db = d' } in
            let same = told-keeps t.connection "ERROR" after in
            let law = commit_law d (unsaid e doubt) in
            (
              false,
              told t.connection "ERROR" after,
              rw (h, finish-doubts d doubt),
              (
                same.1,
                inr (
                  granted,
                  (λ j. rw same.0 (law.0 j ∙ reads j), rw same.0 (law.1 ∙ logged)),
                  record { view = d; error = e; runs = runs; doubt = rw same.0 doubt },
                ),
              ),
            )
        | safe d' saved ↦
            let after : World Database = record w { db = d'; memory = m' } in
            let same = told-keeps t.connection "SUCCESS" after in
            let law = commit_law d (surely saved) in
            (
              true,
              told t.connection "SUCCESS" after,
              rw (h, finish-result d saved update),
              (
                granted,
                (λ j. rw same.0 (law.0 j ∙ reads j), rw same.0 (law.1 ∙ logged)),
                rw (same.0, same.1) (Synced-ext g (balances d') m' (λ j. law.0 j ∙ reads j) s),
              ),
            )
      ]

-- The rows after an update of the row `b` under `id`.
pub withdrawn-changed :
    (f : ℤ → Option Balances) (id x : ℤ) (b : Balances) (j : ℤ)
    → f id ≡ some b
    → leb_ℤ x b.available ≡ true
    → at_id f id (withdrawn x) j ≡ changed f id (minus x b) j
withdrawn-changed f id x b j h l = elim (Bool-cases (eqb_ℤ id j)) [
  | inl e ↦ rw (e, ← (eqb_ℤ_iff id j).0 e, h, l)
  | inr e ↦ rw e
]

pub deposited-changed :
    (f : ℤ → Option Balances) (id x : ℤ) (b : Balances) (j : ℤ)
    → f id ≡ some b
    → at_id f id (deposited x) j ≡ changed f id (plus x b) j
deposited-changed f id x b j h = elim (Bool-cases (eqb_ℤ id j)) [
  | inl e ↦ rw (e, ← (eqb_ℤ_iff id j).0 e, h)
  | inr e ↦ rw e
]

-- The test that picks a branch.
module _ (pg : Postgres) ⦃key : Key ℤ⦄ (t : TransactionRequest) (w : World pg.Database) where
  pub branch-withdraw : t.transaction_type ≡ "WITHDRAW" → branch pg t w ≡ withdraw_branch pg t w
  unfolding branch
  branch-withdraw ty = rw ty

  pub branch-deposit : t.transaction_type ≡ "DEPOSIT" → branch pg t w ≡ deposit_branch pg t w
  unfolding branch
  branch-deposit ty = rw ty

  pub branch-transfer : t.transaction_type ≡ "TRANSFER" → branch pg t w ≡ transfer_branch pg t w
  unfolding branch
  branch-transfer ty = rw ty
