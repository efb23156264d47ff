-- ===== src/BackendClient.antt =====
-- `BackendClient` of frontend/Premiumbank/BackendClient.cpp: the requests that the buttons send, and
-- what becomes of the server's replies.
pub mod Reads
pub mod RoundTrip
pub mod Replies
mod Tests
use concurrent_banking_syste.Prelude.{
  Bool, true, false, Option, none, some, String, str_eq, List, [], ◌∷◌, ◌++◌, if◌then◌else◌,
}
use concurrent_banking_syste.Prelude.Int.{ℤ, pos, eqb_ℤ}
use concurrent_banking_syste.Json.{Field, Fields, number, text}

pub data Socket : Type 0 where
  login_socket account_socket transaction_socket : Socket

pub data Signal : Type 0 where
  login_result : Bool → String → Signal
  create_account_result : Bool → String → Signal
  transaction_result : Bool → String → Signal
  account_info_changed connected disconnected : Signal

-- What the client uses of Qt.
pub record Qt : Type 1 where
  -- `QJsonDocument(json).toJson(QJsonDocument::Compact)`.
  pub print : Fields → String
  -- `QJsonDocument::fromJson`, for a text that is an object.
  pub Object : Type 0
  pub from_json : String → Option Object
  -- The member of a name, if it `isString`, and if it `isDouble`.
  pub string_at : Object → String → Option String
  pub double_at : Object → String → Option ℤ
  -- `toInt` of such a double, and `static_cast<qint64>(toDouble())`.
  pub to_int : ℤ → ℤ
  pub to_cents : ℤ → ℤ
  -- `compare(..., Qt::CaseInsensitive) == 0`, `trimmed().toUpper()` and `QString::toInt`.
  pub same_letters : String → String → Bool
  pub trimmed_upper : String → String
  pub parse_int : String → Option ℤ

pub record BackendClient : Type 0 where
  -- Whether each socket's `state()` is connected, which Qt keeps.
  pub login_connected : Bool
  pub account_connected : Bool
  pub transaction_connected : Bool
  pub account_name : String
  pub account_id : ℤ
  pub account_balance_cents : ℤ
  pub account_info_available : Bool
  pub last_transaction_target_account_id : ℤ
  -- The messages sent and the signals emitted so far.
  pub sent : List (Socket × String)
  pub signals : List Signal

abbrev pub emit : Signal → BackendClient → BackendClient
emit s c = record c { signals = c.signals ++ s ∷ [] }

abbrev pub send : Socket → String → BackendClient → BackendClient
send socket message c = record c { sent = c.sent ++ (socket, message) ∷ [] }

abbrev pub not_connected : String
not_connected = "Not connected to server"

-- What the client fills in for a login and a refresh, and for a transaction.
abbrev pub login_fields : ℤ → String → Fields
login_fields user_id password = ("user_id", number user_id) ∷ ("password", text password) ∷ []

abbrev pub refresh_fields : ℤ → Fields
refresh_fields user_id = ("type", text "refresh") ∷ ("user_id", number user_id) ∷ []

abbrev pub transfer_fields : ℤ → ℤ → ℤ → String → Fields
transfer_fields account_id to_account amount remarks =
    ("account_id", number account_id)
    ∷ ("transaction_type", text "TRANSFER")
    ∷ ("to_account", number to_account)
    ∷ ("transaction_amount", number amount)
    ∷ ("remarks", text remarks)
    ∷ []

abbrev pub single_fields : String → ℤ → ℤ → String → Fields
single_fields type account_id amount remarks =
    ("account_id", number account_id)
    ∷ ("transaction_type", text type)
    ∷ ("transaction_amount", number amount)
    ∷ ("remarks", text remarks)
    ∷ []

-- The fields of a new account: a user id counts if it is a number.
abbrev pub account_fields :
    Option ℤ → String → String → String → String → String → String → String → String → Fields
account_fields user_id full_name address mobile email gender nid account_type password =
    let required : Fields =
      ("full_name", text full_name)
      ∷ ("address", text address)
      ∷ ("mobile", text mobile)
      ∷ ("email", text email)
      ∷ ("gender", text gender)
      ∷ ("nid", text nid)
      ∷ ("account_type", text account_type)
      ∷ ("password", text password)
      ∷ [] in
    elim user_id [ none ↦ required | some i ↦ ("user_id", number i) ∷ required ]

module _ (qt : Qt) where
  open qt use {
    print, Object, from_json, string_at, double_at, to_int, to_cents, same_letters, trimmed_upper,
    parse_int,
  }

  unfoldable pub login : ℤ → String → BackendClient → BackendClient
  login user_id password c =
      if c.login_connected
      then send login_socket (print (login_fields user_id password)) c
      else emit (login_result false not_connected) c

  unfoldable pub refresh : ℤ → BackendClient → BackendClient
  refresh user_id c =
      if c.login_connected
      then send login_socket (print (refresh_fields user_id)) c
      else emit (login_result false not_connected) c

  unfoldable pub create_account :
      String
      → String
      → String
      → String
      → String
      → String
      → String
      → String
      → String
      → BackendClient
      → BackendClient
  create_account user_id full_name address mobile email gender nid account_type password c =
      if c.account_connected
      then send account_socket
          (print (
            account_fields (parse_int user_id) full_name address mobile email gender nid
              account_type password))
          c
      else emit (create_account_result false not_connected) c

  -- The common part of the three kinds of transaction.
  unfoldable pub submit : ℤ → Fields → BackendClient → BackendClient
  submit account_id fields c =
      if c.transaction_connected
      then send transaction_socket (print fields)
          (record c { last_transaction_target_account_id = account_id })
      else emit (transaction_result false not_connected) c

  unfoldable pub send_money : ℤ → ℤ → ℤ → String → BackendClient → BackendClient
  unfolding submit
  send_money account_id to_account amount remarks =
      submit account_id (transfer_fields account_id to_account amount remarks)

  unfoldable pub deposit : ℤ → ℤ → String → BackendClient → BackendClient
  unfolding submit
  deposit account_id amount remarks =
      submit account_id (single_fields "DEPOSIT" account_id amount remarks)

  unfoldable pub withdraw : ℤ → ℤ → String → BackendClient → BackendClient
  unfolding submit
  withdraw account_id amount remarks =
      submit account_id (single_fields "WITHDRAW" account_id amount remarks)

  -- Plain text is a success if it reads SUCCESS.
  unfoldable pub plain_success : String → Bool
  plain_success message = str_eq (trimmed_upper message) "SUCCESS"

  unfoldable pub interpret_success : String → Bool
  unfolding plain_success
  interpret_success message = elim (from_json message) [
    | none ↦ plain_success message
    | some o ↦ elim (string_at o "status") [
      | none ↦ plain_success message
      | some status ↦ same_letters status "success"
    ]
  ]

  -- The member "balance_cents", or else "balance".
  unfoldable pub balance_at : Object → Option ℤ
  balance_at o = elim (double_at o "balance_cents") [
    | some x ↦ some x
    | none ↦ double_at o "balance"
  ]

  -- The fields after a login's reply, each with whether it changed.
  abbrev pub take_name : Option String → BackendClient → BackendClient
  take_name none c = c
  take_name (some name) c = record c { account_name = name }

  abbrev pub take_id : Option ℤ → BackendClient → BackendClient
  take_id none c = c
  take_id (some x) c = record c { account_id = to_int x }

  abbrev pub take_balance : Option ℤ → BackendClient → BackendClient
  take_balance none c = c
  take_balance (some x) c = record c { account_balance_cents = to_cents x }

  abbrev pub announce : Option String → Option ℤ → Option ℤ → BackendClient → BackendClient
  announce none none none c = c
  announce none none (some z) c =
      emit account_info_changed (record c { account_info_available = true })
  announce none (some y) z c =
      emit account_info_changed (record c { account_info_available = true })
  announce (some x) y z c = emit account_info_changed (record c { account_info_available = true })

  unfoldable pub update_account_info : String → BackendClient → BackendClient
  unfolding balance_at
  update_account_info message c = elim (from_json message) [
    | none ↦ c
    | some o ↦
        let name = string_at o "full_name" in
        let id = double_at o "account_id" in
        let balance = balance_at o in
        announce name id balance (take_balance balance (take_id id (take_name name c)))
  ]

  -- A status that is the string "success", in any case.
  unfoldable pub tells_success : Object → Bool
  tells_success o = elim (string_at o "status") [
    | none ↦ false
    | some status ↦ same_letters status "success"
  ]

  unfoldable pub update_balance : String → BackendClient → BackendClient
  unfolding tells_success
  update_balance message c =
      if eqb_ℤ c.last_transaction_target_account_id c.account_id
      then elim (from_json message) [
        | none ↦ c
        | some o ↦
            if tells_success o
            then elim (double_at o "balance_cents") [
              | none ↦ c
              | some x ↦
                  emit account_info_changed
                    (record c { account_balance_cents = to_cents x; account_info_available = true })
            ]
            else c
      ]
      else c

  unfoldable pub on_login_message : String → BackendClient → BackendClient
  unfolding interpret_success update_account_info
  on_login_message message c =
      let success = interpret_success message in
      emit (login_result success message) (if success then update_account_info message c else c)

  unfoldable pub on_account_message : String → BackendClient → BackendClient
  unfolding interpret_success
  on_account_message message = emit (create_account_result (interpret_success message) message)

  unfoldable pub on_transaction_message : String → BackendClient → BackendClient
  unfolding interpret_success update_balance
  on_transaction_message message c =
      emit (transaction_result (interpret_success message) message) (update_balance message c)

unfoldable pub logout : BackendClient → BackendClient
logout c = emit account_info_changed (record c {
  account_name = "";
  account_id = pos 0;
  account_balance_cents = pos 0;
  account_info_available = false;
  last_transaction_target_account_id = pos 0;
})

unfoldable pub on_login_connected : BackendClient → BackendClient
on_login_connected c = emit connected c

unfoldable pub on_login_disconnected : BackendClient → BackendClient
on_login_disconnected c = emit disconnected c
