-- ===== src/Controllers.antt =====
-- The parsers of backend/include/web_socket_controllers.hpp. A parser's `none` is
-- `std::nullopt`, which it returns for a missing field and for an exception alike.
pub mod Fields
pub mod Parsed
pub mod Handlers
pub mod Enqueue
mod Tests
use concurrent_banking_syste.Prelude.{
  ℕ, Option, none, some, Bool, true, false, ◌||◌, String, str_eq, List, [], ◌∷◌, ◌++◌,
  if◌then◌else◌,
}
use concurrent_banking_syste.Prelude.Int.{ℤ}
use concurrent_banking_syste.Json.{Json, ◌>>=◌}
use concurrent_banking_syste.Requests.{
  Connection, LoginRequest, AccountCreationRequest, TransactionRequest,
}

-- `std::variant<LoginRequest, AccountCreationRequest>`.
pub data Authentication : Type 0 where
  login : LoginRequest → Authentication
  account_creation : AccountCreationRequest → Authentication

is_some : {A : Type 0} → Option A → Bool
is_some none = false
is_some (some _) = true

module _ (json : Json) where
  open json use {Value, parse, member, is_null, as_int, as_int64, as_string}

  -- A field that has to be there, of one kind.
  unfoldable pub required : {A : Type 0} → (Value → Option A) → Value → String → Option A
  required kind v name = member v name >>= λ found. found >>= kind

  -- A field that may be missing or null, and otherwise is an `int`.
  unfoldable pub optional_int : Value → String → Option (Option ℤ)
  optional_int v name = member v name >>= λ found. elim found [
    | none ↦ some none
    | some x ↦ if is_null x then some none else (as_int x >>= λ i. some (some i))
  ]

  -- A field that counts if it is a string, and is "" if not.
  unfoldable pub text_or_empty : Value → String → Option String
  text_or_empty v name =
      member v name >>= λ found. elim (found >>= as_string) [ none ↦ some "" | some s ↦ some s ]

  unfoldable pub as_amount : Value → Option ℤ
  unfolding is_some
  as_amount x = if is_some (as_int x) || is_some (as_int64 x) then as_int64 x else none

  unfoldable pub transaction_parser : String → Connection → Option TransactionRequest
  transaction_parser message conn = do
    v ← parse message
    account_id ← required as_int v "account_id"
    transaction_type ← required as_string v "transaction_type"
    transaction_amount ← required as_amount v "transaction_amount"
    remarks ← text_or_empty v "remarks"
    to_account ← optional_int v "to_account"
    from_account ← optional_int v "from_account"
    some (record {
      account_id = account_id;
      transaction_type = transaction_type;
      to_account = to_account;
      from_account = from_account;
      transaction_amount = transaction_amount;
      remarks = remarks;
      connection = conn;
    })

  -- `isRefresh`.
  unfoldable pub is_refresh_request : Value → Option Bool
  is_refresh_request v = member v "type" >>= λ found. elim (found >>= as_string) [
    | none ↦ some false
    | some s ↦ some (str_eq s "refresh")
  ]

  unfoldable pub login_parser : String → Connection → Option LoginRequest
  login_parser message conn = do
    v ← parse message
    user_id ← required as_int v "user_id"
    is_refresh ← is_refresh_request v
    password ← if is_refresh then some "" else required as_string v "password"
    some (record {
      user_id = user_id;
      password = password;
      connection = conn;
      is_refresh = is_refresh;
    })

  unfoldable pub account_creation_parser : String → Connection → Option AccountCreationRequest
  account_creation_parser message conn = do
    v ← parse message
    full_name ← required as_string v "full_name"
    address ← required as_string v "address"
    mobile ← required as_string v "mobile"
    email ← required as_string v "email"
    gender ← required as_string v "gender"
    nid ← required as_string v "nid"
    account_type ← required as_string v "account_type"
    password ← required as_string v "password"
    user_id ← optional_int v "user_id"
    some (record {
      user_id = user_id;
      full_name = full_name;
      address = address;
      mobile = mobile;
      email = email;
      gender = gender;
      nid = nid;
      account_type = account_type;
      password = password;
      connection = conn;
    })

  unfoldable pub authentication_parser : String → Connection → String → Option Authentication
  authentication_parser message conn path =
      if str_eq path "/login"
      then (login_parser message conn >>= λ l. some (login l))
      else if str_eq path "/create_account"
      then (account_creation_parser message conn >>= λ a. some (account_creation a))
      else none
