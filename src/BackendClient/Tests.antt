-- ===== src/BackendClient/Tests.antt =====
-- A client whose documents are named by their kind, and a reader that knows one of each kind.
use concurrent_banking_syste.Prelude.{
  ◌≡◌, ◌-◌, ◌^◌, refl, ap, Option, none, some, true, false, String, str_eq, [], ◌∷◌, arith,
  if◌then◌else◌,
}
use concurrent_banking_syste.Prelude.Int.{ℤ, pos, negsuc, ◌≤ℤ◌, leb_ℤ}
use concurrent_banking_syste.Json.{Field, Fields, number, text, Json}
use concurrent_banking_syste.Controllers.{transaction_parser, login_parser, account_creation_parser}
use concurrent_banking_syste.BackendClient
use concurrent_banking_syste.BackendClient.{
  Qt, BackendClient, login_socket, account_socket, transaction_socket, login_fields, refresh_fields,
  account_fields, emit, transaction_result,
}
use concurrent_banking_syste.BackendClient.Reads.{IsRead, IsField, field_at}
use concurrent_banking_syste.BackendClient.RoundTrip.{
  Order, transfer_order, order, fields_of, request_of, order_round_trip, login_round_trip,
  creation_round_trip,
}
use concurrent_banking_syste.BackendClient.Replies.{plain_success_stale}

data Toy : Type 0 where
  object : Fields → Toy
  leaf : Field → Toy

leafed : Option Field → Option Toy
leafed none = none
leafed (some f) = some (leaf f)

abbrev some_order : Order
some_order = transfer_order (pos 1) (pos 2) (pos 30) "rent"

abbrev new_account : Fields
new_account = account_fields none "Ann" "" "" "" "" "" "SAVINGS" "secret"

abbrev read : String → Fields
read s =
    if str_eq s "refresh"
    then refresh_fields (pos 7)
    else if str_eq s "login"
    then login_fields (pos 7) "secret"
    else if str_eq s "order"
    then fields_of some_order
    else new_account

toy_member : Toy → String → Option (Option Toy)
toy_member (object fs) name = some (leafed (field_at name fs))
toy_member (leaf f) name = none

within : ℤ → ℤ → ℤ → Option ℤ
within low high i = if leb_ℤ low i then (if leb_ℤ i high then some i else none) else none

number_in : ℤ → ℤ → Toy → Option ℤ
number_in low high (object fs) = none
number_in low high (leaf (number i)) = within low high i
number_in low high (leaf (text s)) = none

text_of : Toy → Option String
text_of (object fs) = none
text_of (leaf (number i)) = none
text_of (leaf (text s)) = some s

number_in-bounds :
    (low high : ℤ) (v : Toy) {i : ℤ} → number_in low high v ≡ some i → (low ≤ℤ i) × (i ≤ℤ high)
unfolding number_in within
number_in-bounds low high (object fs) h = absurd (cc)
number_in-bounds low high (leaf (number i)) h = ground arith
number_in-bounds low high (leaf (text s)) h = absurd (cc)

within-in : (low high i : ℤ) → low ≤ℤ i → i ≤ℤ high → within low high i ≡ some i
unfolding within
within-in low high i h k = ground arith

abbrev toy : Json
toy = record {
  Value = Toy;
  parse = λ s. some (object (read s));
  member = toy_member;
  is_null = λ v. false;
  as_int = number_in (negsuc (2 ^ 31 - 1)) (pos (2 ^ 31 - 1));
  as_int64 = number_in (negsuc (2 ^ 63 - 1)) (pos (2 ^ 63 - 1));
  as_string = text_of;
  int_law = λ v h. number_in-bounds (negsuc (2 ^ 31 - 1)) (pos (2 ^ 31 - 1)) v h;
  int64_law = λ v h. number_in-bounds (negsuc (2 ^ 63 - 1)) (pos (2 ^ 63 - 1)) v h;
}

leafed-IsField : (o : Option Field) → IsField toy o (leafed o)
unfolding leafed number_in text_of
leafed-IsField none = refl
leafed-IsField (some (number i)) =
    (leaf (number i), refl, refl, λ r. within-in _ _ i r.0 r.1, λ r. within-in _ _ i r.0 r.1, refl)
leafed-IsField (some (text s)) = (leaf (text s), refl, refl, refl)

toy-IsRead :
    (message : String) (fields : Fields) → read message ≡ fields → IsRead toy message fields
unfolding toy_member
toy-IsRead message fields e = record {
  value = object fields;
  parsed = ap (λ fs. some (object fs)) e;
  members = λ name. (leafed (field_at name fields), refl, leafed-IsField (field_at name fields));
}

abbrev qt : Qt
qt = record {
  print = λ fs. elim (field_at "transaction_type" fs) [
    | some _ ↦ "order"
    | none ↦ elim (field_at "type" fs) [
      | some _ ↦ "refresh"
      | none ↦ elim (field_at "full_name" fs) [ some _ ↦ "create" | none ↦ "login" ]
    ]
  ];
  Object = Fields;
  from_json = λ s. none;
  string_at = λ o name. none;
  double_at = λ o name. none;
  to_int = λ i. i;
  to_cents = λ i. i;
  same_letters = str_eq;
  trimmed_upper = λ s. s;
  parse_int = λ s. none;
}

abbrev client : BackendClient
client = record {
  login_connected = true;
  account_connected = true;
  transaction_connected = true;
  account_name = "Ann";
  account_id = pos 1;
  account_balance_cents = pos 100;
  account_info_available = true;
  last_transaction_target_account_id = pos 1;
  sent = [];
  signals = [];
}

order_round_trip_example :
    (message : String) × ((order qt some_order client).sent ≡ (transaction_socket, message) ∷ [])
    × (transaction_parser toy message (some 5) ≡ some (request_of some_order (some 5)))
order_round_trip_example =
    order_round_trip toy qt client some_order (some 5) refl
      ((omega arith, omega arith), (omega arith, omega arith), (omega arith, omega arith))
      (toy-IsRead "order" (fields_of some_order) refl)

login_round_trip_example :
    ((BackendClient.login qt (pos 7) "secret" client).sent ≡ (login_socket, "login") ∷ [])
    × (login_parser toy "login" (some 5)
        ≡ some (record {
          user_id = pos 7;
          password = "secret";
          connection = some 5;
          is_refresh = false;
        }))
    × ((BackendClient.refresh qt (pos 7) client).sent ≡ (login_socket, "refresh") ∷ [])
    × (login_parser toy "refresh" (some 5)
        ≡ some (record { user_id = pos 7; password = ""; connection = some 5; is_refresh = true }))
login_round_trip_example =
    login_round_trip toy qt client (pos 7) "secret" (some 5) refl (omega arith, omega arith)
      (toy-IsRead "login" (login_fields (pos 7) "secret") refl)
      (toy-IsRead "refresh" (refresh_fields (pos 7)) refl)

creation_round_trip_example :
    ((BackendClient.create_account qt "" "Ann" "" "" "" "" "" "SAVINGS" "secret" client).sent
      ≡ (account_socket, "create") ∷ [])
    × (account_creation_parser toy "create" (some 5)
        ≡ some (record {
          user_id = none;
          full_name = "Ann";
          address = "";
          mobile = "";
          email = "";
          gender = "";
          nid = "";
          account_type = "SAVINGS";
          password = "secret";
          connection = some 5;
        }))
creation_round_trip_example =
    creation_round_trip toy "Ann" "" "" "" "" "" "SAVINGS" "secret" (some 5) qt client "" refl
      (λ i h. absurd (cc)) (toy-IsRead "create" new_account refl)

plain_success_stale_example :
    BackendClient.on_transaction_message qt "SUCCESS" client
    ≡ emit (transaction_result true "SUCCESS") client
plain_success_stale_example = plain_success_stale qt "SUCCESS" client refl refl
