-- ===== src/BackendClient/RoundTrip.antt =====
-- The requests of frontend/Premiumbank/BackendClient.cpp, as the parsers of
-- backend/include/web_socket_controllers.hpp read them.
use concurrent_banking_syste.Prelude.{
  ◌≡◌, refl, true, false, Option, none, some, String, [], ◌∷◌, ◌++◌,
}
use concurrent_banking_syste.Prelude.Int.{ℤ}
use concurrent_banking_syste.Json.{Fields, Json}
use concurrent_banking_syste.Requests.{Connection, AccountCreationRequest, TransactionRequest}
use concurrent_banking_syste.Controllers.{login_parser, account_creation_parser, transaction_parser}
use concurrent_banking_syste.Controllers.Fields.{
  required-Field, amount-Field, optional_int-IntField, text_or_empty-TextField,
}
use concurrent_banking_syste.Controllers.Parsed.{Carries, transaction_parser_iff}
use concurrent_banking_syste.BackendClient
use concurrent_banking_syste.BackendClient.{
  Qt, BackendClient, Socket, login_socket, account_socket, transaction_socket, account_fields,
  login_fields, refresh_fields, transfer_fields, single_fields,
}
use concurrent_banking_syste.BackendClient.Reads.{
  IsInt, IsInt64, IsRead, required-int, required-amount, required-text, optional-int,
  optional-missing, text-or-empty, refresh-text, refresh-missing,
}

-- The three buttons for a transaction.
pub data Order : Type 0 where
  transfer_order : ℤ → ℤ → ℤ → String → Order
  deposit_order : ℤ → ℤ → String → Order
  withdraw_order : ℤ → ℤ → String → Order

abbrev pub order : Qt → Order → BackendClient → BackendClient
order qt (transfer_order a to m s) = BackendClient.send_money qt a to m s
order qt (deposit_order a m s) = BackendClient.deposit qt a m s
order qt (withdraw_order a m s) = BackendClient.withdraw qt a m s

abbrev pub fields_of : Order → Fields
fields_of (transfer_order a to m s) = transfer_fields a to m s
fields_of (deposit_order a m s) = single_fields "DEPOSIT" a m s
fields_of (withdraw_order a m s) = single_fields "WITHDRAW" a m s

abbrev pub InRange : Order → Type 0
InRange (transfer_order a to m s) = IsInt a × IsInt to × IsInt64 m
InRange (deposit_order a m s) = IsInt a × IsInt64 m
InRange (withdraw_order a m s) = IsInt a × IsInt64 m

abbrev pub single_request : String → ℤ → ℤ → String → Connection → TransactionRequest
single_request type account_id amount remarks conn = record {
  account_id = account_id;
  transaction_type = type;
  to_account = none;
  from_account = none;
  transaction_amount = amount;
  remarks = remarks;
  connection = conn;
}

-- The request that the user means.
abbrev pub request_of : Order → Connection → TransactionRequest
request_of (transfer_order a to m s) conn = record (single_request "TRANSFER" a m s conn) {
  to_account = some to;
}
request_of (deposit_order a m s) conn = single_request "DEPOSIT" a m s conn
request_of (withdraw_order a m s) conn = single_request "WITHDRAW" a m s conn

request_of-conn : (o : Order) (conn : Connection) → (request_of o conn).connection ≡ conn
request_of-conn (transfer_order a to m s) conn = refl
request_of-conn (deposit_order a m s) conn = refl
request_of-conn (withdraw_order a m s) conn = refl

module _ (json : Json) where
  open json use {as_int, as_string}

  Carries-transfer :
      (account_id to_account amount : ℤ) (remarks message : String) (conn : Connection)
      → IsInt account_id
      → IsInt to_account
      → IsInt64 amount
      → IsRead json message (transfer_fields account_id to_account amount remarks)
      → Carries json message (request_of (transfer_order account_id to_account amount remarks) conn)
  Carries-transfer account_id to_account amount remarks message conn ra rt rm r = record {
    value = r.value;
    parsed = r.parsed;
    account_id =
        required-Field json as_int r.value "account_id"
          (required-int json r "account_id" account_id refl ra);
    type =
        required-Field json as_string r.value "transaction_type"
          (required-text json r "transaction_type" "TRANSFER" refl);
    amount =
        amount-Field json r.value "transaction_amount"
          (required-amount json r "transaction_amount" amount refl rm);
    remarks =
        text_or_empty-TextField json r.value "remarks"
          (text-or-empty json r "remarks" remarks refl);
    to_account =
        optional_int-IntField json r.value "to_account"
          (optional-int json r "to_account" to_account refl rt);
    from_account =
        optional_int-IntField json r.value "from_account"
          (optional-missing json r "from_account" refl);
  }

  Carries-single :
      (type : String) (account_id amount : ℤ) (remarks message : String) (conn : Connection)
      → IsInt account_id
      → IsInt64 amount
      → IsRead json message (single_fields type account_id amount remarks)
      → Carries json message (single_request type account_id amount remarks conn)
  Carries-single type account_id amount remarks message conn ra rm r = record {
    value = r.value;
    parsed = r.parsed;
    account_id =
        required-Field json as_int r.value "account_id"
          (required-int json r "account_id" account_id refl ra);
    type =
        required-Field json as_string r.value "transaction_type"
          (required-text json r "transaction_type" type refl);
    amount =
        amount-Field json r.value "transaction_amount"
          (required-amount json r "transaction_amount" amount refl rm);
    remarks =
        text_or_empty-TextField json r.value "remarks"
          (text-or-empty json r "remarks" remarks refl);
    to_account =
        optional_int-IntField json r.value "to_account" (optional-missing json r "to_account" refl);
    from_account =
        optional_int-IntField json r.value "from_account"
          (optional-missing json r "from_account" refl);
  }

  Carries-order :
      (o : Order) (message : String) (conn : Connection)
      → InRange o
      → IsRead json message (fields_of o)
      → Carries json message (request_of o conn)
  Carries-order (transfer_order a to m s) message conn range r =
      Carries-transfer a to m s message conn range.0 range.1 range.2 r
  Carries-order (deposit_order a m s) message conn range r =
      Carries-single "DEPOSIT" a m s message conn range.0 range.1 r
  Carries-order (withdraw_order a m s) message conn range r =
      Carries-single "WITHDRAW" a m s message conn range.0 range.1 r

  module _ (qt : Qt) (c : BackendClient) where
    submitted :
        (o : Order)
        → c.transaction_connected ≡ true
        → (order qt o c).sent ≡ c.sent ++ (transaction_socket, qt.print (fields_of o)) ∷ []
    unfolding BackendClient.send_money BackendClient.deposit BackendClient.withdraw
    submitted (transfer_order a to m s) up = rw up
    submitted (deposit_order a m s) up = rw up
    submitted (withdraw_order a m s) up = rw up

    -- Each of the three buttons for a transaction, on a connected socket and with numbers in range,
    -- sends one message, and the parser of the server reads it as exactly the request that was
    -- meant, where jsoncpp reads the document that Qt printed.
    pub order_round_trip :
        (o : Order) (conn : Connection)
        → c.transaction_connected ≡ true
        → InRange o
        → IsRead json (qt.print (fields_of o)) (fields_of o)
        → (message : String) × ((order qt o c).sent ≡ c.sent ++ (transaction_socket, message) ∷ [])
          × (transaction_parser json message conn ≡ some (request_of o conn))
    order_round_trip o conn up range r = (
      qt.print (fields_of o),
      submitted o up,
      (transaction_parser_iff json _ conn _).1
          (Carries-order o _ conn range r, request_of-conn o conn),
    )

    -- The buttons for a login and for a refresh, on a connected socket and with a user id in range,
    -- each send one message; the parser of the server reads the first as a login with the password,
    -- and the second as a refresh without one, where jsoncpp reads the documents that Qt printed.
    pub login_round_trip :
        (user_id : ℤ) (password : String) (conn : Connection)
        → c.login_connected ≡ true
        → IsInt user_id
        → IsRead json (qt.print (login_fields user_id password)) (login_fields user_id password)
        → IsRead json (qt.print (refresh_fields user_id)) (refresh_fields user_id)
        → ((BackendClient.login qt user_id password c).sent
            ≡ c.sent ++ (login_socket, qt.print (login_fields user_id password)) ∷ [])
          × (login_parser json (qt.print (login_fields user_id password)) conn
              ≡ some (record {
                user_id = user_id;
                password = password;
                connection = conn;
                is_refresh = false;
              }))
          × ((BackendClient.refresh qt user_id c).sent
              ≡ c.sent ++ (login_socket, qt.print (refresh_fields user_id)) ∷ [])
          × (login_parser json (qt.print (refresh_fields user_id)) conn
              ≡ some (record {
                user_id = user_id;
                password = "";
                connection = conn;
                is_refresh = true;
              }))
    unfolding BackendClient.login BackendClient.refresh login_parser
    login_round_trip user_id password conn up range r f = (
      rw up,
      rw (
        r.parsed,
        required-int json r "user_id" user_id refl range,
        refresh-missing json r refl,
        required-text json r "password" password refl,
      ),
      rw up,
      rw (f.parsed, required-int json f "user_id" user_id refl range, refresh-text json f refl),
    )

  module _ (full_name address mobile email gender nid account_type password : String)
      (conn : Connection) where
    abbrev creation_fields : Option ℤ → Fields
    creation_fields id =
        account_fields id full_name address mobile email gender nid account_type password

    abbrev creation_request : Option ℤ → AccountCreationRequest
    creation_request id = record {
      user_id = id;
      full_name = full_name;
      address = address;
      mobile = mobile;
      email = email;
      gender = gender;
      nid = nid;
      account_type = account_type;
      password = password;
      connection = conn;
    }

    creation_parsed :
        (id : Option ℤ) (message : String)
        → ((i : ℤ) → id ≡ some i → IsInt i)
        → IsRead json message (creation_fields id)
        → account_creation_parser json message conn ≡ some (creation_request id)
    unfolding account_creation_parser
    creation_parsed none message range r = rw (
      r.parsed,
      required-text json r "full_name" full_name refl,
      required-text json r "address" address refl,
      required-text json r "mobile" mobile refl,
      required-text json r "email" email refl,
      required-text json r "gender" gender refl,
      required-text json r "nid" nid refl,
      required-text json r "account_type" account_type refl,
      required-text json r "password" password refl,
      optional-missing json r "user_id" refl,
    )
    creation_parsed (some i) message range r = rw (
      r.parsed,
      required-text json r "full_name" full_name refl,
      required-text json r "address" address refl,
      required-text json r "mobile" mobile refl,
      required-text json r "email" email refl,
      required-text json r "gender" gender refl,
      required-text json r "nid" nid refl,
      required-text json r "account_type" account_type refl,
      required-text json r "password" password refl,
      optional-int json r "user_id" i refl (range i refl),
    )

    pub creation_round_trip :
        (qt : Qt) (c : BackendClient) (user_id : String)
        → c.account_connected ≡ true
        → ((i : ℤ) → qt.parse_int user_id ≡ some i → IsInt i)
        → let fields = creation_fields (qt.parse_int user_id) in
          IsRead json (qt.print fields) fields
          → ((BackendClient.create_account qt user_id full_name address mobile email gender nid
                account_type password c).sent
              ≡ c.sent ++ (account_socket, qt.print fields) ∷ [])
            × (account_creation_parser json (qt.print fields) conn
                ≡ some (creation_request (qt.parse_int user_id)))
    unfolding BackendClient.create_account
    creation_round_trip qt c user_id up range r =
        (rw up, creation_parsed (qt.parse_int user_id) _ range r)
