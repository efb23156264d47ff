-- ===== src/Login/Members.antt =====
-- What `Load_DB::login` of backend/include/database_loader.hpp reads of a user for its reply.
use concurrent_banking_syste.Prelude.{Option, none, some, [], ◌∷◌, set}
use concurrent_banking_syste.Run.{Run, ok, ◌>>=◌}
use concurrent_banking_syste.HashTable
use concurrent_banking_syste.Account
use concurrent_banking_syste.Account.{Account}
use concurrent_banking_syste.User
use concurrent_banking_syste.User.{User, UserPtr}
use concurrent_banking_syste.Memory.{Memory, user_at, account_at}
use concurrent_banking_syste.Json.{Fields, number, text}

-- `u->set_login(onlineStatus)`.
unfoldable pub set_online : UserPtr → Memory → Run Memory
set_online p m =
    user_at p m >>= λ u. ok (record m { users = set m.users p (User.set_login "ONLINE" u) })

unfoldable pub account_members : Account → Run Fields
account_members a = Account.get_actual_balance a >>= λ balance.
    ok (("account_id", number a.account_id) ∷ ("balance_cents", number balance) ∷ [])

-- The name, and the id and the balance of the first account that `getAll` lists.
unfoldable pub user_members : User → Memory → Run Fields
unfolding account_members
user_members u m = elim (HashTable.get_all u.accounts) [
  | [] ↦ ok (("full_name", text u.full_name) ∷ [])
  | e ∷ _ ↦ account_at e.1 m >>= λ a.
      account_members a >>= λ members. ok (("full_name", text u.full_name) ∷ members)
]

unfoldable pub reply_members : Option UserPtr → Memory → Run Fields
unfolding user_members
reply_members none m = ok (("status", text "success") ∷ [])
reply_members (some p) m =
    user_at p m >>= λ u. user_members u m >>= λ members. ok (("status", text "success") ∷ members)
