-- ===== src/LoadDb.antt =====
-- `Load_DB::transaction` of backend/src/database_loader.cpp.
pub mod Synced
pub mod Cache
pub mod Promise
pub mod Healthy
pub mod Single
pub mod Transfer
pub mod Faults
pub mod Example
mod Tests
use concurrent_banking_syste.Prelude.{
  ℕ, Bool, true, false, Option, none, some, String, List, [], ◌∷◌, ◌++◌, ◌==◌, str_eq,
  if◌then◌else◌,
}
use concurrent_banking_syste.Prelude.Int.{ℤ, ltb_ℤ}
use concurrent_banking_syste.Run.{Run, ok, throws, Exception, bad_optional_access}
use concurrent_banking_syste.Exec.{
  Outcome, done, thrown, stuck, Action, ◌>>=◌, ◌>>◌, continue, give, lift, reading, modify,
  try_catch,
}
use concurrent_banking_syste.HashTable.{Key}
use concurrent_banking_syste.Memory.{Memory}
use concurrent_banking_syste.Requests.{TransactionRequest, Connection}
use concurrent_banking_syste.Bank.{apply_memory_update}
use concurrent_banking_syste.Postgres.{
  Postgres, Reply, result, fails, Commit, committed, rolled_back, in_doubt, withdraw_statement,
  deposit_statement, log_statement,
}

-- The committed database, the memory of `Bank` and `Load_DB`, and the messages sent so far.
pub record World (Database : Type 0) : Type 0 where
  pub db : Database
  pub memory : Memory
  pub sent : List (ℕ × String)

module _ {Database : Type 0} where
  -- `if (t.connection) t.connection->send(text)`.
  unfoldable pub told : Connection → String → World Database → World Database
  told none text w = w
  told (some socket) text w = record w { sent = w.sent ++ (socket, text) ∷ [] }

  unfoldable pub send : Connection → String → Action (World Database) (Unit {0})
  send connection text = modify (told connection text)

  -- A call of `pqxx`.
  abbrev pub ask : {A : Type 0} → Reply A → Action (World Database) A
  ask (result a) w = done a w
  ask (fails e) w = thrown e w

  -- A `commit`: one in doubt has changed the database, and throws all the same.
  abbrev pub ask_commit : Commit Database → Action (World Database) (Unit {0})
  ask_commit (committed d) w = done tt (record w { db = d })
  ask_commit (rolled_back e) w = thrown e w
  ask_commit (in_doubt e d) w = thrown e (record w { db = d })

  remember : {A : Type 0} → World Database → Outcome Memory A → Outcome (World Database) A
  remember w (done a m) = done a (record w { memory = m })
  remember w (thrown e m) = thrown e (record w { memory = m })
  remember w (stuck u) = stuck u

  unfoldable pub on_memory : {A : Type 0} → Action Memory A → Action (World Database) A
  unfolding remember
  on_memory action w = remember w (action w.memory)

-- `std::optional<int>::value`.
unfoldable pub value : {A : Type 0} → Option A → Run A
value none = throws bad_optional_access
value (some a) = ok a

module _ (pg : Postgres) ⦃key : Key ℤ⦄ where
  open pg use {Database, execute, commit}

  -- The end of the three branches: commit, then the memory, then the answer.
  unfoldable pub finish : TransactionRequest → Database → Action (World Database) Bool
  finish t working = do
    ask_commit (commit working)
    _ ← on_memory (apply_memory_update t)
    send t.connection "SUCCESS"
    give true

  unfoldable pub refuse : TransactionRequest → String → Action (World Database) Bool
  refuse t text = send t.connection text >> give false

  unfoldable pub withdraw_branch : TransactionRequest → Action (World Database) Bool
  withdraw_branch t = do
    began ← reading (λ w. ok w.db)
    (rows, d) ← ask (execute (withdraw_statement t.transaction_amount t.account_id) began)
    if rows == 0 then refuse t "Transaction Failed: Insufficient funds or invalid account" else (do
      (_, d') ← ask (
          execute
            (log_statement t.account_id t.transaction_type t.transaction_amount t.remarks none none)
            d)
      finish t d')

  unfoldable pub deposit_branch : TransactionRequest → Action (World Database) Bool
  deposit_branch t = do
    began ← reading (λ w. ok w.db)
    (rows, d) ← ask (execute (deposit_statement t.transaction_amount t.account_id) began)
    if rows == 0 then refuse t "Transaction Failed: Account not found" else (do
      (_, d') ← ask (
          execute
            (log_statement t.account_id t.transaction_type t.transaction_amount t.remarks none none)
            d)
      finish t d')

  -- The two updates of a transfer, the lower id first: the rows of the withdrawal, those of the
  -- deposit, and the view of the database after both.
  unfoldable pub update_both : ℤ → ℤ → ℤ → Database → Action (World Database) (ℕ × ℕ × Database)
  update_both amount from_id to_id began =
      if ltb_ℤ from_id to_id
      then (do
        (withdrawals, d) ← ask (execute (withdraw_statement amount from_id) began)
        (deposits, d') ← ask (execute (deposit_statement amount to_id) d)
        give (withdrawals, deposits, d'))
      else (do
        (deposits, d) ← ask (execute (deposit_statement amount to_id) began)
        (withdrawals, d') ← ask (execute (withdraw_statement amount from_id) d)
        give (withdrawals, deposits, d'))

  -- The two rows of Transaction_Table, and the end.
  unfoldable pub log_both : TransactionRequest → ℤ → Database → Action (World Database) Bool
  log_both t to_id d = do
    (_, d') ← ask (
        execute
          (log_statement t.account_id t.transaction_type t.transaction_amount t.remarks none
            (some to_id))
          d)
    (_, d'') ← ask (
        execute
          (log_statement to_id t.transaction_type t.transaction_amount t.remarks (some t.account_id)
            none)
          d')
    finish t d''

  unfoldable pub transfer_branch : TransactionRequest → Action (World Database) Bool
  transfer_branch t = do
    to_id ← lift (value t.to_account)
    began ← reading (λ w. ok w.db)
    (withdrawals, deposits, d) ← update_both t.transaction_amount t.account_id to_id began
    if withdrawals == 0
        then refuse t "Transfer Failed: Insufficient funds or sender missing"
        else if deposits == 0
        then refuse t "Transfer Failed: Recipient account missing"
        else log_both t to_id d

  unfoldable pub branch : TransactionRequest → Action (World Database) Bool
  branch t =
      if str_eq t.transaction_type "WITHDRAW"
      then withdraw_branch t
      else if str_eq t.transaction_type "DEPOSIT"
      then deposit_branch t
      else if str_eq t.transaction_type "TRANSFER"
      then transfer_branch t
      else give false

  unfoldable pub transaction : TransactionRequest → Action (World Database) Bool
  transaction t = try_catch (branch t) (λ _. send t.connection "ERROR" >> give false)
