-- ===== src/Bank/Schedules.antt =====
-- The constructor of `Bank` on one user with one account, and two threads that transfer between the
-- same accounts in opposite directions.
use mathlib.Core.Path.{subst}
use concurrent_banking_syste.Prelude.{
  ◌+◌, ◌≡◌, ◌⊎◌, refl, none, some, List, [], ◌∷◌, arith, map, sym,
}
use concurrent_banking_syste.Prelude.Int.{ℤ, pos}
use concurrent_banking_syste.Run.{ok, Returns}
use concurrent_banking_syste.HashTable.{get_all}
use concurrent_banking_syste.HashTable.IntKey.{cast_key}
use concurrent_banking_syste.HashTable.Placed.{IsValid}
use concurrent_banking_syste.User.{AccountPtr}
use concurrent_banking_syste.Bank.Example.{
  user, memory, bank-IsValid, accounts-IsValid, get_all-table,
}
use concurrent_banking_syste.Memory.{construct, find_account}
use concurrent_banking_syste.Bank.Index.{Owns, Nobody, Readable, construct_lem}
use concurrent_banking_syste.Bank.Locks.{
  Task, transfer_of, Thread, begun, acquire, release, calls_of, advance, Step, moves, Steps, here,
  next, left,
}
use concurrent_banking_syste.Bank.Deadlock.{no_deadlock}

user-Readable : Readable ⦃key = cast_key⦄ memory (get_all memory.bank_db)
user-Readable =
    subst (Readable ⦃key = cast_key⦄ memory) (sym (get_all-table (pos 7)))
      ((user, refl, accounts-IsValid), tt)

construct_example : Returns (construct ⦃key = cast_key⦄ memory) λ m'.
    (m' ≡ record memory { account_to_user = m'.account_to_user })
    × IsValid ⦃key = cast_key⦄ m'.account_to_user
    × ((a : ℤ)
        → ((find_account ⦃key = cast_key⦄ a m' ≡ ok none)
            × Nobody ⦃key = cast_key⦄ memory (get_all memory.bank_db) a)
          ⊎ ((user_id : ℤ) × (q : AccountPtr) × Owns ⦃key = cast_key⦄ memory
                (get_all memory.bank_db)
                user_id
                a
                q
              × (find_account ⦃key = cast_key⦄ a m' ≡ ok (some q))))
construct_example = construct_lem ⦃key = cast_key⦄ memory bank-IsValid user-Readable

abbrev tasks : List Task
tasks = transfer_of (pos 1) (pos 2) ∷ transfer_of (pos 2) (pos 1) ∷ []

abbrev after_one : List Thread
after_one =
    record { calls = acquire (pos 2) ∷ release (pos 2) ∷ release (pos 1) ∷ []; held = pos 1 ∷ [] }
    ∷ begun (transfer_of (pos 2) (pos 1))
    ∷ []

one_step : Steps (map begun tasks) 1 after_one
unfolding calls_of advance
one_step = next here (moves 0 (begun (transfer_of (pos 1) (pos 2))) _ refl refl)

no_deadlock_example :
    (1 + left after_one ≡ left (map begun tasks))
    × ((left after_one ≡ 0) ⊎ ((us : List Thread) × Step after_one us))
no_deadlock_example = no_deadlock tasks 1 after_one (ground arith, (ground arith, tt)) one_step
