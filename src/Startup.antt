-- ===== src/Startup.antt =====
-- The constructor of `Load_DB` and `Load_DB::establish_connection` in
-- backend/include/database_loader.hpp. What they print is left out.
pub mod Loaded
mod Tests
use concurrent_banking_syste.Prelude.{Bool, true, false, not, Option, some, List, if◌then◌else◌}
use concurrent_banking_syste.Prelude.Int.{ℤ}
use concurrent_banking_syste.Exec.{
  Outcome, done, thrown, stuck, Action, ◌>>=◌, ◌>>◌, continue, give, modify, try_catch,
}
use concurrent_banking_syste.HashTable.{Key}
use concurrent_banking_syste.Memory.{Memory}
use concurrent_banking_syste.Postgres.{Reply, result, fails}
use concurrent_banking_syste.StoreUsers.{Row, store_users}
use concurrent_banking_syste.Login.{Connecting}

-- The memory, with the table `bank_db`, and `connect_database`: `none` for a null pointer, else whether
-- the connection is open.
pub record Loader : Type 0 where
  pub memory : Memory
  pub connection : Option Bool

abbrev pub ask : {A : Type 0} → Reply A → Action Loader A
ask (result a) s = done a s
ask (fails e) s = thrown e s

kept : {A : Type 0} → Loader → Outcome Memory A → Outcome Loader A
kept s (done a m) = done a (record s { memory = m })
kept s (thrown e m) = thrown e (record s { memory = m })
kept s (stuck u) = stuck u

unfoldable pub on_tables : {A : Type 0} → Action Memory A → Action Loader A
unfolding kept
on_tables action s = kept s (action s.memory)

-- `connect_database = std::make_unique<pqxx::connection>(connection_string)`: whether it is open.
unfoldable pub connect : Connecting → Action Loader Bool
connect connecting = do
  is_open ← ask connecting.is_open
  modify (λ s. record s { connection = some is_open })
  give is_open

unfoldable pub establish_connection : Connecting → Action Loader Bool
establish_connection connecting = if not connecting.url_set then give false else connect connecting

-- `rows` is what the query of all users, accounts and transactions comes to.
unfoldable pub load_db : ⦃key : Key ℤ⦄ → Connecting → Reply (List Row) → Action Loader (Unit {0})
load_db connecting rows =
    try_catch
      (if not connecting.url_set then give tt else (do
        is_open ← connect connecting
        if not is_open then give tt else (do res ← ask rows; on_tables (store_users res))))
      (λ _. give tt)
