-- ===== src/Admin/Tests.antt =====
-- Snapshots of a bank with one user and one account, before and after its mutex is left held.
use mathlib.Core.List.{Memᴰ}
use mathlib.Core.Path.{subst}
use concurrent_banking_syste.Prelude.{
  ◌≡◌, refl, sym, Bool, true, false, some, List, [], ◌∷◌, get_elem?, length, All, get_or,
}
use concurrent_banking_syste.Prelude.Int.{ℤ, pos}
use concurrent_banking_syste.Run.{fault, blocked, Returns}
use concurrent_banking_syste.HashTable.{get_all, find_in}
use concurrent_banking_syste.HashTable.IntKey.{cast_key}
use concurrent_banking_syste.HashTable.Placed.{view, home}
use concurrent_banking_syste.Account.{Account}
use concurrent_banking_syste.Memory.{Memory}
use concurrent_banking_syste.User.{User, UserPtr}
use concurrent_banking_syste.LoadDb.Example.{account}
use concurrent_banking_syste.Bank.Example.{
  user, memory, bank-IsValid, accounts-IsValid, get_all-table,
}
use concurrent_banking_syste.Admin.{Node, snapshot_object, build_users_snapshot}
use concurrent_banking_syste.Admin.Snapshot.{
  Reads, Readable, UserShown, users_snapshot_lem, users_snapshot-blocked,
}

abbrev rich : Account
rich = account (pos 1) (pos 100)

abbrev stopped : Account
stopped = record rich { mutex = true }

abbrev bank : Account → Memory
bank a = record memory { accounts = a ∷ [] }

readable :
    (free : Bool) (a : Account)
    → (free ≡ true → a.mutex ≡ false)
    → All (Readable ⦃key = cast_key⦄ free (bank a)) (get_all memory.bank_db)
readable free a h =
    subst (All (Readable ⦃key = cast_key⦄ free (bank a))) (sym (get_all-table (pos 7))) (
      (
        user,
        refl,
        accounts-IsValid,
        subst (All (Reads free (bank a))) (sym (get_all-table (pos 1))) ((a, refl, h), tt),
      ),
      tt,
    )

users_snapshot_example : Returns (build_users_snapshot (some (bank rich))) λ root.
    (users : List Node) × (root ≡ snapshot_object "USERS_SNAPSHOT" "users" users)
    × (length users ≡ length (get_all memory.bank_db))
    × ((user_id : ℤ) (p : UserPtr) (u : User)
        → view ⦃key = cast_key⦄ memory.bank_db user_id ≡ some p
        → get_elem? (user ∷ []) p ≡ some u
        → (n : Node) × Memᴰ n users × UserShown ⦃key = cast_key⦄ (bank rich) user_id u n)
users_snapshot_example =
    users_snapshot_lem ⦃key = cast_key⦄ (bank rich) bank-IsValid (readable true rich (λ _. refl))

users_snapshot-blocked_example : build_users_snapshot (some (bank stopped)) ≡ fault blocked
unfolding view home find_in get_or
users_snapshot-blocked_example =
    users_snapshot-blocked ⦃key = cast_key⦄ (bank stopped) bank-IsValid
      (readable false stopped (λ h. cc)) (pos 7) 0 user (pos 1) 0 stopped refl refl refl refl refl
