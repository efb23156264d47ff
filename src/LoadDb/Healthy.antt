-- ===== src/LoadDb/Healthy.antt =====
-- On a server whose calls go well, `Load_DB::transaction` grants what is to be granted.
use mathlib.Core.Path.{subst}
use concurrent_banking_syste.Prelude.{◌≡◌, refl, Bool, true, false, Option, inl, inr, List}
use concurrent_banking_syste.Prelude.Int.{ℤ}
use concurrent_banking_syste.HashTable.{Key}
use concurrent_banking_syste.Postgres.{Postgres, Statement, committed, LogRow, Balances}
use concurrent_banking_syste.LoadDb.{World}
use concurrent_banking_syste.LoadDb.Promise.{
  Runs, all_run, one_runs, Fails, statement_failed, later_failed, commit_failed, Promise,
}

module _ (pg : Postgres) ⦃key : Key ℤ⦄ where
  open pg use {Database, execute, commit, balances}

  Runs-same : {ss : List Statement} {d a b : Database} → Runs pg ss d a → Runs pg ss d b → a ≡ b
  Runs-same all_run all_run = refl
  Runs-same {b = b} (one_runs {s = s} {ss = ss} h r) (one_runs h' r') =
      Runs-same r (subst (λ d. Runs pg ss d b) (cc (h, h')) r')

  -- Calls that go well do not fail.
  Runs-fine :
      {ss : List Statement} {d a b : Database}
      → Runs pg ss d a
      → commit a ≡ committed b
      → ¬ Fails pg ss d
  Runs-fine all_run saved (commit_failed e) = cc (saved, e)
  Runs-fine (one_runs h r) saved (statement_failed e) = cc (h, e)
  Runs-fine (one_runs {ss = ss} h r) saved (later_failed h' f) =
      Runs-fine r saved (subst (λ d. Fails pg ss d) (cc (h, h')) f)

  -- Where the statements and the commit succeed, an answer that keeps the promise is true for a
  -- request that is to be granted.
  pub Promise-true :
      {Granted : Type 0} {script : List Statement} (g : ℤ → Option Balances) (rows : List LogRow)
      (w w' : World Database) (b : Bool) {d d' : Database}
      → Runs pg script w.db d
      → commit d ≡ committed d'
      → Granted
      → Promise pg Granted script g rows w b w'
      → b ≡ true
  Promise-true g rows w w' true runs saved granted p = refl
  Promise-true g rows w w' false {d' = d'} runs saved granted (_, how) = absurd (elim how [
    | inl (_, why) ↦ elim why [
      | inl denied ↦ denied granted
      | inr failed ↦ Runs-fine runs saved failed
    ]
    | inr (_, _, doubt) ↦
        cc (subst (λ v. commit v ≡ committed d') (Runs-same runs doubt.runs) saved, doubt.doubt)
  ])
