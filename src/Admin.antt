-- ===== src/Admin.antt =====
-- `Admin_Controller` of backend/include/web_socket_controllers.hpp.
pub mod Loops
pub mod Snapshot
mod Tests
use concurrent_banking_syste.Prelude.{
  ℕ, Bool, Option, none, some, String, str_eq, List, [], ◌∷◌, ◌++◌, if◌then◌else◌,
}
use concurrent_banking_syste.Prelude.Int.{ℤ}
use concurrent_banking_syste.Run.{Run, ok, ◌>>=◌}
use concurrent_banking_syste.HashTable
use concurrent_banking_syste.HashTable.{Key}
use concurrent_banking_syste.Account
use concurrent_banking_syste.Account.{Account}
use concurrent_banking_syste.Transaction.{Transaction}
use concurrent_banking_syste.TransactionLog.{get_all_transactions}
use concurrent_banking_syste.User.{User, AccountPtr, UserPtr}
use concurrent_banking_syste.Memory.{Memory, user_at, account_at}

-- A `Json::Value` that the controller builds, its members in the order of insertion.
mutual
  pub data Node : Type 0 where
    number : ℤ → Node
    text : String → Node
    array : Nodes → Node
    object : Members → Node

  pub data Nodes : Type 0 where
    no_nodes : Nodes
    add_node : Node → Nodes → Nodes

  pub data Members : Type 0 where
    no_members : Members
    add_member : String → Node → Members → Members

abbrev pub nodes : List Node → Nodes
nodes [] = no_nodes
nodes (n ∷ ns) = add_node n (nodes ns)

abbrev pub members : List (String × Node) → Members
members [] = no_members
members (m ∷ ms) = add_member m.0 m.1 (members ms)

-- `for (auto &e : es) { ...; result.append(node); }`
unfoldable pub append_each : {A : Type 0} → (A → Run Node) → List Node → List A → Run (List Node)
append_each body result [] = ok result
append_each body result (e ∷ es) = body e >>= λ n. append_each body (result ++ n ∷ []) es

-- The object of an account, with the balances that its getters gave.
abbrev pub account_object : ℤ → Account → ℤ → ℤ → Node
account_object acc_id acc actual available = object (
    members (
      ("account_id", number acc_id)
      ∷ ("account_type", text acc.account_type)
      ∷ ("account_status", text acc.account_status)
      ∷ ("actual_balance_cents", number actual)
      ∷ ("available_balance_cents", number available)
      ∷ []))

unfoldable pub account_node : Memory → ℤ × AccountPtr → Run Node
account_node m e = account_at e.1 m >>= λ acc. Account.get_actual_balance acc >>= λ actual.
    Account.get_available_balance acc >>= λ available. ok (account_object e.0 acc actual available)

-- The object of a user, with the objects of the accounts.
abbrev pub user_object : ℤ → User → List Node → Node
user_object user_id user accounts = object (
    members (
      ("user_id", number user_id)
      ∷ ("full_name", text user.full_name)
      ∷ ("mobile", text user.mobile)
      ∷ ("email", text user.email)
      ∷ ("address", text user.address)
      ∷ ("gender", text user.gender)
      ∷ ("nid", text user.nid)
      ∷ ("login_status", text user.login_status)
      ∷ ("accounts", array (nodes accounts))
      ∷ []))

unfoldable pub user_node : Memory → ℤ × UserPtr → Run Node
unfolding append_each account_node
user_node m e = user_at e.1 m >>= λ user.
    append_each (account_node m) [] (HashTable.get_all user.accounts) >>= λ accounts.
    ok (user_object e.0 user accounts)

abbrev pub snapshot_object : String → String → List Node → Node
snapshot_object type name list =
    object
      (members (("type", text type) ∷ ("status", text "success") ∷ (name, array (nodes list)) ∷ []))

abbrev pub not_initialized : String → Node
not_initialized type = object (
    members (
      ("type", text type)
      ∷ ("status", text "error")
      ∷ ("message", text "Bank not initialized")
      ∷ []))

-- `none` where `globalBank` is null.
unfoldable pub build_users_snapshot : Option Memory → Run Node
unfolding append_each user_node
build_users_snapshot none = ok (not_initialized "USERS_SNAPSHOT")
build_users_snapshot (some m) =
    append_each (user_node m) [] (HashTable.get_all m.bank_db) >>= λ users.
    ok (snapshot_object "USERS_SNAPSHOT" "users" users)

abbrev pub optional_member : String → Option ℤ → List (String × Node)
optional_member name none = []
optional_member name (some i) = (name, number i) ∷ []

abbrev pub transaction_object : Transaction → Node
transaction_object t = object (
    members (
      (("transaction_id", number t.transaction_id)
        ∷ ("transaction_type", text t.transaction_type)
        ∷ ("amount_cents", number t.transaction_amount)
        ∷ ("status", text t.transaction_status)
        ∷ [])
      ++ optional_member "from_account" t.from_account
      ++ optional_member "to_account" t.to_account))

unfoldable pub build_transactions_snapshot : Option Memory → Run Node
unfolding append_each
build_transactions_snapshot none = ok (not_initialized "TRANSACTIONS_SNAPSHOT")
build_transactions_snapshot (some m) =
    append_each (λ t. ok (transaction_object t)) [] (get_all_transactions m.log) >>= λ txns.
    ok (snapshot_object "TRANSACTIONS_SNAPSHOT" "transactions" txns)

-- The messages sent so far, and `writeCompact`, which is `jsoncpp`'s.
module _ (write_compact : Node → String) where
  unfoldable pub send_snapshot : ℕ → Run Node → List (ℕ × String) → Run (List (ℕ × String))
  send_snapshot socket snapshot sent =
      snapshot >>= λ root. ok (sent ++ (socket, write_compact root) ∷ [])

  -- `handleNewConnection`, for a socket that asks for a path.
  unfoldable pub handle_new_connection :
      Option Memory → String → ℕ → List (ℕ × String) → Run (List (ℕ × String))
  unfolding send_snapshot
  handle_new_connection bank path socket sent =
      if str_eq path "/admin/users"
      then send_snapshot socket (build_users_snapshot bank) sent
      else if str_eq path "/admin/transactions"
      then send_snapshot socket (build_transactions_snapshot bank) sent
      else ok sent

  -- `handleNewMessage`; the text is not looked at, only whether it is one.
  unfoldable pub handle_new_message :
      Option Memory → Bool → ℕ → List (ℕ × String) → Run (List (ℕ × String))
  unfolding send_snapshot
  handle_new_message bank is_text socket sent =
      if is_text
      then (send_snapshot socket (build_users_snapshot bank) sent
          >>= send_snapshot socket (build_transactions_snapshot bank))
      else ok sent
