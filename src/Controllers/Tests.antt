-- ===== src/Controllers/Tests.antt =====
-- A toy notation for messages: the text "transfer" stands for one transfer, and every other text is
-- no JSON.
use concurrent_banking_syste.Prelude.{
  ◌≡◌, ◌↔◌, ◌-◌, ◌^◌, refl, Option, none, some, false, String, str_eq, [], ◌++◌, arith,
  if◌then◌else◌,
}
use concurrent_banking_syste.Prelude.Int.{ℤ, pos, negsuc, ◌≤ℤ◌, leb_ℤ}
use concurrent_banking_syste.Run.{Returns}
use concurrent_banking_syste.Json.{Json}
use concurrent_banking_syste.Requests.{TransactionRequest}
use concurrent_banking_syste.RequestQueue
use concurrent_banking_syste.RequestQueue.Promise.{new-Shows}
use concurrent_banking_syste.Controllers.{
  transaction_parser, required, optional_int, text_or_empty, as_amount,
}
use concurrent_banking_syste.Controllers.Handlers.{Front, handle_transaction}
use concurrent_banking_syste.Controllers.Parsed.{Carries, transaction_parser_iff}
use concurrent_banking_syste.Controllers.Enqueue.{Queues, after, told_bad, handle_transaction_lem}

data Toy : Type 0 where
  object : Toy
  number : ℤ → Toy
  text : String → Toy

field : Toy → String → Option (Option Toy)
field object name =
    if str_eq name "account_id"
    then some (some (number (pos 1)))
    else if str_eq name "transaction_type"
    then some (some (text "TRANSFER"))
    else if str_eq name "transaction_amount"
    then some (some (number (pos 30)))
    else if str_eq name "to_account"
    then some (some (number (pos 2)))
    else some none
field (number i) name = none
field (text s) name = none

int_of : Toy → Option ℤ
int_of object = none
int_of (number i) =
    if leb_ℤ (negsuc (2 ^ 31 - 1)) i
    then (if leb_ℤ i (pos (2 ^ 31 - 1)) then some i else none)
    else none
int_of (text s) = none

string_of : Toy → Option String
string_of object = none
string_of (number i) = none
string_of (text s) = some s

int_of-bounds :
    (v : Toy) {i : ℤ} → int_of v ≡ some i → (negsuc (2 ^ 31 - 1) ≤ℤ i) × (i ≤ℤ pos (2 ^ 31 - 1))
unfolding int_of
int_of-bounds object h = absurd (cc)
int_of-bounds (number i) h = ground arith
int_of-bounds (text s) h = absurd (cc)

int_of-bounds64 :
    (v : Toy) {i : ℤ} → int_of v ≡ some i → (negsuc (2 ^ 63 - 1) ≤ℤ i) × (i ≤ℤ pos (2 ^ 63 - 1))
int_of-bounds64 v h = let b = int_of-bounds v h in (omega arith, omega arith)

abbrev toy : Json
toy = record {
  Value = Toy;
  parse = λ s. if str_eq s "transfer" then some object else none;
  member = field;
  is_null = λ _. false;
  as_int = int_of;
  as_int64 = int_of;
  as_string = string_of;
  int_law = λ v h. int_of-bounds v h;
  int64_law = λ v h. int_of-bounds64 v h;
}

abbrev transfer : TransactionRequest
transfer = record {
  account_id = pos 1;
  transaction_type = "TRANSFER";
  to_account = some (pos 2);
  from_account = none;
  transaction_amount = pos 30;
  remarks = "";
  connection = some 9;
}

abbrev front : Front TransactionRequest
front = record { queue = some (RequestQueue.new transfer 2); sent = [] }

front-Queues : Queues front [] false 2
front-Queues = record {
  queue = RequestQueue.new transfer 2;
  queue_at = refl;
  shows = new-Shows transfer 2 (omega arith);
}

accepted : transaction_parser toy "transfer" (some 9) ≡ some transfer
unfolding transaction_parser required optional_int text_or_empty as_amount field int_of string_of
accepted = refl

transaction_parser_iff_example :
    (transaction_parser toy "transfer" (some 9) ≡ some transfer)
    ↔ (Carries toy "transfer" transfer × (transfer.connection ≡ some 9))
transaction_parser_iff_example = transaction_parser_iff toy "transfer" (some 9) transfer

handle_transaction_lem_example : Returns (handle_transaction toy "transfer" 9 front) λ f'.
    Queues f' (after (transaction_parser toy "transfer" (some 9)) [] false 2) false 2
    × (f'.sent ≡ front.sent ++ told_bad 9 (transaction_parser toy "transfer" (some 9)))
handle_transaction_lem_example =
    handle_transaction_lem toy "transfer" 9 front [] false 2 front-Queues
