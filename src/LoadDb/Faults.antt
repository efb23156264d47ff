-- ===== src/LoadDb/Faults.antt =====
-- What `Load_DB::transaction` leaves behind when memory refuses what the database has committed.
use concurrent_banking_syste.Prelude.{◌≡◌, ◌≢◌, false, some}
use concurrent_banking_syste.Prelude.Int.{ℤ, pos, ◌≤ℤ◌}
use concurrent_banking_syste.Run.{Exception, invalid_argument}
use concurrent_banking_syste.Exec.{done, thrown}
use concurrent_banking_syste.HashTable.{Key}
use concurrent_banking_syste.Memory.{Memory}
use concurrent_banking_syste.Requests.{TransactionRequest}
use concurrent_banking_syste.Bank.{apply_memory_update, apply_found, apply_transfer}
use concurrent_banking_syste.Bank.Cells.{two}
use concurrent_banking_syste.Bank.Update.{held, transfer_throws, withdraw_throws}
use concurrent_banking_syste.Postgres.{Postgres, Balances, committed}
use concurrent_banking_syste.LoadDb.{
  World, told, send, remember, on_memory, finish, branch, transaction,
}
use concurrent_banking_syste.LoadDb.Synced.{CachedAs, ptr-ne}

module _ (pg : Postgres) ⦃key : Key ℤ⦄ (t : TransactionRequest) (w : World pg.Database) where
  open pg use {Database, commit}

  -- The statements of the request have succeeded, and so has the commit.
  pub record Committed (d d' : Database) : Type 0 where
    pub reaches : branch pg t w ≡ finish pg t d w
    pub commits : commit d ≡ committed d'

  commits_then_throws :
      {d d' : Database} {m' : Memory} {e : Exception}
      → Committed d d'
      → apply_memory_update t w.memory ≡ thrown e m'
      → transaction pg t w
        ≡ done false (told t.connection "ERROR" (record w { db = d'; memory = m' }))
  unfolding transaction finish on_memory remember send
  commits_then_throws c u = rw (c.reaches, c.commits, u)

  -- `TRANSFER` of an amount that is not positive, between two different accounts that memory has
  -- with free mutexes, once its statements and the commit have succeeded: `transaction` answers
  -- false and sends "ERROR", the database keeps what was committed, and the mutexes of both
  -- accounts stay held.
  pub transfer_leaves_held :
      {d d' : Database} {to_id : ℤ} {b b₂ : Balances} (x : CachedAs w.memory t.account_id b)
      (y : CachedAs w.memory to_id b₂)
      → t.transaction_type ≡ "TRANSFER"
      → t.to_account ≡ some to_id
      → t.account_id ≢ to_id
      → t.transaction_amount ≤ℤ pos 0
      → Committed d d'
      → transaction pg t w
        ≡ done false (
            told t.connection "ERROR" (record w {
              db = d';
              memory = two w.memory x.ptr (held x.account) y.ptr (held y.account);
            }))
  unfolding apply_memory_update apply_found apply_transfer
  transfer_leaves_held {to_id} x y ty dest ne small c =
      commits_then_throws {m' = two w.memory x.ptr (held x.account) y.ptr (held y.account)}
        {e = invalid_argument "Withdrawal amount must be positive"} c
        (rw (
          apply_memory_update,
          x.found,
          ty,
          dest,
          y.found,
          transfer_throws w.memory (ptr-ne x y ne) x.cell_at y.cell_at x.free y.free
              t.transaction_amount t.account_id to_id small,
        ))

  -- `WITHDRAW` of an amount that is not positive, from an account that memory has with a free
  -- mutex, once its statements and the commit have succeeded: `transaction` answers false and sends
  -- "ERROR", the database keeps what was committed, and memory is what it was.
  pub withdraw_leaves_stale :
      {d d' : Database} {b : Balances}
      → CachedAs w.memory t.account_id b
      → t.transaction_type ≡ "WITHDRAW"
      → t.transaction_amount ≤ℤ pos 0
      → Committed d d'
      → transaction pg t w ≡ done false (told t.connection "ERROR" (record w { db = d' }))
  unfolding apply_memory_update apply_found
  withdraw_leaves_stale x ty small c =
      commits_then_throws {m' = w.memory}
        {e = invalid_argument "Withdrawal amount must be positive"} c
        (rw (
          apply_memory_update,
          x.found,
          ty,
          withdraw_throws w.memory x.ptr x.cell_at x.free t.transaction_amount small,
        ))
