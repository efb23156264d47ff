-- ===== src/Postgres.antt =====
-- The PostgreSQL server behind `pqxx`, which the repository does not hold: an interface with what
-- backend/src/database_loader.cpp relies on. The SQL texts of that file are the constructors of
-- `Statement`; what a statement does when it succeeds is a law, and every statement may fail.
pub mod Ledger
use concurrent_banking_syste.Prelude.{
  ℕ, ◌≡◌, Option, none, some, Bool, true, String, List, [], ◌∷◌, ◌++◌, if◌then◌else◌,
}
use concurrent_banking_syste.Prelude.Int.{ℤ, ◌+ℤ◌, ◌-ℤ◌, leb_ℤ, eqb_ℤ, fits64}
use concurrent_banking_syste.Run.{Exception}

-- `withdraw`, `deposit` and the three forms of `transaction_log`, with their parameters. A column
-- that an insertion does not name is `none`.
pub data Statement : Type 0 where
  withdraw_statement : (amount account_id : ℤ) → Statement
  deposit_statement : (amount account_id : ℤ) → Statement
  log_statement :
      (account_id : ℤ) (transaction_type : String) (amount : ℤ) (remarks : String)
      (from_account to_account : Option ℤ)
      → Statement

-- A row of Transaction_Table, as far as the program writes it.
pub record LogRow : Type 0 where
  pub account_id : ℤ
  pub transaction_type : String
  pub transaction_amount : ℤ
  pub remarks : String
  pub from_account : Option ℤ
  pub to_account : Option ℤ

-- `actual_balance` and `available_balance` of a row of Account_Table.
pub record Balances : Type 0 where
  pub actual : ℤ
  pub available : ℤ

abbrev pub minus : ℤ → Balances → Balances
minus x b = record { actual = b.actual -ℤ x; available = b.available -ℤ x }

abbrev pub plus : ℤ → Balances → Balances
plus x b = record { actual = b.actual +ℤ x; available = b.available +ℤ x }

-- The rows that the `WHERE` clauses of `withdraw` and `deposit` select (the account's own, or none),
-- and the table after the `SET`.
abbrev pub withdraw_rows : ℤ → Option Balances → ℕ
withdraw_rows x none = 0
withdraw_rows x (some b) = if leb_ℤ x b.available then 1 else 0

abbrev pub withdrawn : ℤ → Option Balances → Option Balances
withdrawn x none = none
withdrawn x (some b) = if leb_ℤ x b.available then some (minus x b) else some b

abbrev pub deposit_rows : ℤ → Option Balances → ℕ
deposit_rows x none = 0
deposit_rows x (some b) = 1

abbrev pub deposited : ℤ → Option Balances → Option Balances
deposited x none = none
deposited x (some b) = some (plus x b)

-- A function changed at one id.
abbrev pub at_id :
    (ℤ → Option Balances) → ℤ → (Option Balances → Option Balances) → ℤ → Option Balances
at_id f id g j = if eqb_ℤ id j then g (f j) else f j

-- What a call of `pqxx` comes to: a result, or an exception that it throws.
pub data Reply (A : Type 0) : Type 0 where
  result : A → Reply A
  fails : Exception → Reply A

-- What a `commit` comes to: the view is the database; or the call throws, and the database is as it
-- was; or it throws `in_doubt_error`, though the view is the database. A commit in doubt that did not
-- take effect is one that was rolled back.
pub data Commit (Database : Type 0) : Type 0 where
  committed : Database → Commit Database
  rolled_back : Exception → Commit Database
  in_doubt : Exception → Database → Commit Database

-- The commit made the view the database, whether or not it said so.
pub data TookEffect {Database : Type 0} (c : Commit Database) (d : Database) : Type 0 where
  surely : c ≡ committed d → TookEffect c d
  unsaid : (e : Exception) → c ≡ in_doubt e d → TookEffect c d

pub record Postgres : Type 1 where
  pub Database : Type 0
  -- `exec_params` in a transaction: the affected rows and the transaction's view of the database,
  -- or an exception.
  pub execute : Statement → Database → Reply (ℕ × Database)
  pub commit : Database → Commit Database
  pub balances : Database → ℤ → Option Balances
  pub history : Database → List LogRow
  pub withdraw_law :
      (x id : ℤ) (d : Database) {n : ℕ} {d' : Database}
      → execute (withdraw_statement x id) d ≡ result (n, d')
      → (n ≡ withdraw_rows x (balances d id))
        × ((j : ℤ) → balances d' j ≡ at_id (balances d) id (withdrawn x) j)
        × (history d' ≡ history d)
  pub deposit_law :
      (x id : ℤ) (d : Database) {n : ℕ} {d' : Database}
      → execute (deposit_statement x id) d ≡ result (n, d')
      → (n ≡ deposit_rows x (balances d id))
        × ((j : ℤ) → balances d' j ≡ at_id (balances d) id (deposited x) j)
        × (history d' ≡ history d)
  pub log_law :
      (id : ℤ) (type : String) (x : ℤ) (remarks : String) (from to : Option ℤ) (d : Database)
      {n : ℕ} {d' : Database}
      → execute (log_statement id type x remarks from to) d ≡ result (n, d')
      → ((j : ℤ) → balances d' j ≡ balances d j)
        × (history d'
            ≡ history d
              ++ record {
                account_id = id;
                transaction_type = type;
                transaction_amount = x;
                remarks = remarks;
                from_account = from;
                to_account = to;
              }
                ∷ [])
  pub commit_law :
      (d : Database) {d' : Database}
      → TookEffect (commit d) d'
      → ((j : ℤ) → balances d' j ≡ balances d j) × (history d' ≡ history d)
  -- The balance columns are `bigint`s.
  pub range_law :
      (d : Database) (id : ℤ) {b : Balances}
      → balances d id ≡ some b
      → (fits64 b.actual ≡ true) × (fits64 b.available ≡ true)
