-- ===== src/Startup/Loaded.antt =====
-- What is in memory once `Load_DB` of backend/include/database_loader.hpp is constructed.
use concurrent_banking_syste.Prelude.{
  ◌≡◌, ◌||◌, refl, Bool, true, false, Option, some, List, [], All, arith,
}
use concurrent_banking_syste.Prelude.Int.{ℤ}
use concurrent_banking_syste.Exec.{done}
use concurrent_banking_syste.HashTable.{Key}
use concurrent_banking_syste.HashTable.Placed.{view, IsValid}
use concurrent_banking_syste.Postgres.{Reply, result, fails}
use concurrent_banking_syste.StoreUsers.{Row}
use concurrent_banking_syste.StoreUsers.Loaded.{IsWhole, loads, present, store_users_lem}
use concurrent_banking_syste.Login.{Connecting}
use concurrent_banking_syste.Startup.{Loader, load_db, connect, on_tables}

-- The rows that reach `store_users`: none where a step before it failed.
abbrev pub rows_read : Bool → Reply Bool → Reply (List Row) → List Row
rows_read false is_open rows = []
rows_read true (fails e) rows = []
rows_read true (result false) rows = []
rows_read true (result true) (fails e) = []
rows_read true (result true) (result rs) = rs

abbrev pub opened : Bool → Reply Bool → Option Bool → Option Bool
opened false is_open old = old
opened true (fails e) old = old
opened true (result b) old = some b

or-false : (b : Bool) → b ≡ (b || false)
or-false b = ground arith

module _ ⦃key : Key ℤ⦄ where
  -- The rows `rs` have been read into the tables of `s`, whose connection is now `connection`.
  abbrev pub LoadedFrom : Loader → List Row → Option Bool → Loader → Type 0
  LoadedFrom s rs connection s' =
      IsValid s'.memory.bank_db
      × (s'.connection ≡ connection)
      × ((q : ℤ)
          → present (view s'.memory.bank_db q) ≡ (present (view s.memory.bank_db q) || loads q rs))

  unread :
      (s : Loader) (connection : Option Bool)
      → IsValid s.memory.bank_db
      → LoadedFrom s [] connection (record s { connection = connection })
  unread s connection valid = (valid, refl, λ q. or-false (present (view s.memory.bank_db q)))

  load_db-cases :
      (url_set : Bool) (is_open : Reply Bool) (rows : Reply (List Row)) (s : Loader)
      → All IsWhole (rows_read url_set is_open rows)
      → IsValid s.memory.bank_db
      → (s' : Loader) × (load_db (record { url_set = url_set; is_open = is_open }) rows s
          ≡ done tt s')
        × LoadedFrom s (rows_read url_set is_open rows) (opened url_set is_open s.connection) s'
  unfolding load_db connect on_tables
  load_db-cases false is_open rows s whole valid = (s, refl, unread s s.connection valid)
  load_db-cases true (fails e) rows s whole valid = (s, refl, unread s s.connection valid)
  load_db-cases true (result false) rows s whole valid =
      (record s { connection = some false }, refl, unread s (some false) valid)
  load_db-cases true (result true) (fails e) s whole valid =
      (record s { connection = some true }, refl, unread s (some true) valid)
  load_db-cases true (result true) (result rs) s whole valid =
      let (m', run, valid', users) = store_users_lem rs s.memory whole valid in
      (record { memory = m'; connection = some true }, rw run refl, (valid', refl, users))

  -- The constructor of `Load_DB`, on rows in which no field that is read is null and a valid table
  -- of users: it always returns, whatever fails, and leaves a valid table that has a user exactly
  -- where it had one before or, if the variable is set, the connection opens and the query
  -- succeeds, one of the rows is of that user; and `connect_database` is set unless the connection
  -- throws or the variable is missing.
  pub load_db_lem :
      (c : Connecting) (rows : Reply (List Row)) (s : Loader)
      → All IsWhole (rows_read c.url_set c.is_open rows)
      → IsValid s.memory.bank_db
      → (s' : Loader) × (load_db c rows s ≡ done tt s')
        × LoadedFrom s
            (rows_read c.url_set c.is_open rows)
            (opened c.url_set c.is_open s.connection)
            s'
  load_db_lem c rows s = load_db-cases c.url_set c.is_open rows s
