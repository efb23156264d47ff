-- ===== src/Startup/Tests.antt =====
-- A start on a server with two users.
use concurrent_banking_syste.Prelude.{◌≡◌, true, none, some, arith}
use concurrent_banking_syste.Exec.{done}
use concurrent_banking_syste.HashTable.IntKey.{cast_key}
use concurrent_banking_syste.HashTable.Empty.{new-IsValid}
use concurrent_banking_syste.Postgres.{result}
use concurrent_banking_syste.Login.{Connecting}
use concurrent_banking_syste.StoreUsers.Example.{rows, memory, rows-IsWhole}
use concurrent_banking_syste.Startup.{Loader, load_db}
use concurrent_banking_syste.Startup.Loaded.{LoadedFrom, load_db_lem}

abbrev connecting : Connecting
connecting = record { url_set = true; is_open = result true }

abbrev fresh : Loader
fresh = record { memory = memory; connection = none }

load_db_lem_example :
    (s' : Loader) × (load_db ⦃key = cast_key⦄ connecting (result rows) fresh ≡ done tt s')
    × LoadedFrom ⦃key = cast_key⦄ fresh rows (some true) s'
load_db_lem_example =
    load_db_lem ⦃key = cast_key⦄ connecting (result rows) fresh rows-IsWhole
      (new-IsValid ⦃key = cast_key⦄ 16 (omega arith))
