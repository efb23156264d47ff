-- ===== src/StoreUsers/Tests.antt =====
-- `store_users` on the rows of two users.
use concurrent_banking_syste.Prelude.{◌≡◌, ◌||◌, arith}
use concurrent_banking_syste.Prelude.Int.{ℤ}
use concurrent_banking_syste.Exec.{done}
use concurrent_banking_syste.HashTable.IntKey.{cast_key}
use concurrent_banking_syste.HashTable.Placed.{view, IsValid}
use concurrent_banking_syste.HashTable.Empty.{new-IsValid}
use concurrent_banking_syste.Memory.{Memory}
use concurrent_banking_syste.StoreUsers.Example.{rows, memory, rows-IsWhole}
use concurrent_banking_syste.StoreUsers.{store_users}
use concurrent_banking_syste.StoreUsers.Loaded.{present, loads, store_users_lem}

store_users_lem_example :
    (m' : Memory) × (store_users ⦃key = cast_key⦄ rows memory ≡ done tt m')
    × IsValid ⦃key = cast_key⦄ m'.bank_db
    × ((q : ℤ)
        → present (view ⦃key = cast_key⦄ m'.bank_db q)
          ≡ (present (view ⦃key = cast_key⦄ memory.bank_db q) || loads q rows))
store_users_lem_example =
    store_users_lem ⦃key = cast_key⦄ rows memory rows-IsWhole
      (new-IsValid ⦃key = cast_key⦄ 16 (omega arith))
