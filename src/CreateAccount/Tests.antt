-- ===== src/CreateAccount/Tests.antt =====
-- A server that keeps the number of its accounts, and knows one number that is taken.
use concurrent_banking_syste.Prelude.{
  ℕ, ◌+◌, ◌≡◌, refl, Option, none, some, Bool, true, false, String, str_eq, [], ◌∷◌, arith,
  if◌then◌else◌, replicate, get_or,
}
use concurrent_banking_syste.Prelude.Int.{ℤ, pos}
use concurrent_banking_syste.Run.{returned, sql_error}
use concurrent_banking_syste.Exec.{done}
use concurrent_banking_syste.HashTable
use concurrent_banking_syste.HashTable.{HashTable, insert, overwrite, bucket_index, find_in}
use concurrent_banking_syste.HashTable.IntKey.{cast_key}
use concurrent_banking_syste.HashTable.Placed.{IsValid, view, home}
use concurrent_banking_syste.HashTable.Empty.{new-IsValid}
use concurrent_banking_syste.HashTable.Methods.{insert-Writes}
use concurrent_banking_syste.User.{UserPtr}
use concurrent_banking_syste.Requests.{AccountCreationRequest}
use concurrent_banking_syste.Postgres.{Reply, result, fails, committed}
use concurrent_banking_syste.Login.{Connecting}
use concurrent_banking_syste.LoadDb.{World, told}
use concurrent_banking_syste.LoadDb.Example.{memory}
use concurrent_banking_syste.CreateAccount.{Registry, reopen, create_account, insert_number}
use concurrent_banking_syste.CreateAccount.Outcomes.{
  Ends, create_account_lem, create_account-loaded, insert_number-collision,
}

record ToyWork : Type 0 where
  failed : Bool
  accounts : ℕ

insert_toy : String → ToyWork → Reply ℕ × ToyWork
insert_toy number work =
    if work.failed
    then (fails (sql_error "aborted"), work)
    else if str_eq number "taken"
    then (fails (sql_error "duplicate"), record work { failed = true })
    else (result 1, record work { accounts = work.accounts + 1 })

toy_abort :
    (number text : String) (work work' : ToyWork)
    → insert_toy number work ≡ (fails (sql_error text), work')
    → work'.failed ≡ true
unfolding insert_toy
toy_abort number text work work' h = ground arith

toy_aborted :
    (number : String) (work : ToyWork)
    → work.failed ≡ true
    → (text : String) × (insert_toy number work ≡ (fails (sql_error text), work))
unfolding insert_toy
toy_aborted number work h = ("aborted", rw h)

abbrev toy : Registry
toy = record {
  Database = ℕ;
  Work = ToyWork;
  begin = λ n. record { failed = false; accounts = n };
  password_hash = λ id work. result none;
  insert_user = λ a work. result (some (pos 8), work);
  insert_account = λ id a number work. insert_toy number work;
  commit = λ work. committed work.accounts;
  hash_password = λ s. result (some s);
  verify_password = str_eq;
  Aborted = λ work. work.failed ≡ true;
  abort_law = λ id a number text work work' h. toy_abort number text work work' h;
  aborted_law = λ id a number work h. toy_aborted number work h;
}

abbrev world : World ℕ
world = record { db = 4; memory = memory; sent = [] }

abbrev empty : HashTable ℤ UserPtr
empty = record { buckets = [] ∷ []; entry_count = 0 }

empty-IsValid : IsValid ⦃key = cast_key⦄ empty
unfolding HashTable.new replicate
empty-IsValid = new-IsValid ⦃key = cast_key⦄ 1 (omega arith)

users-IsValid : IsValid ⦃key = cast_key⦄ world.memory.bank_db
unfolding insert overwrite bucket_index get_or
users-IsValid = (returned (insert-Writes ⦃key = cast_key⦄ empty empty-IsValid (pos 7) 0) refl).valid

abbrev request : Option ℤ → AccountCreationRequest
request user_id = record {
  user_id = user_id;
  full_name = "";
  address = "";
  mobile = "";
  email = "";
  gender = "";
  nid = "";
  account_type = "";
  password = "";
  connection = some 9;
}

abbrev connecting : Connecting
connecting = record { url_set = true; is_open = result true }

abbrev candidate : ℕ → String
candidate attempt = "free"

abbrev taken : ℕ → String
taken attempt = "taken"

create_account_lem_example :
    Ends toy ⦃key = cast_key⦄
      (some true)
      connecting
      candidate
      (request none)
      world
      (create_account toy ⦃key = cast_key⦄ (some true) connecting candidate (request none) world)
create_account_lem_example =
    create_account_lem toy ⦃key = cast_key⦄ (some true) connecting candidate (request none) world
      users-IsValid

found-user : view ⦃key = cast_key⦄ world.memory.bank_db (pos 7) ≡ some 0
unfolding view find_in get_or home
found-user = refl

create_account-loaded_example :
    create_account toy ⦃key = cast_key⦄
      (some true)
      connecting
      candidate
      (request (some (pos 7)))
      world
    ≡ done tt (told (some 9) "Invalid username or password" world)
unfolding reopen
create_account-loaded_example =
    create_account-loaded toy ⦃key = cast_key⦄ (some true) connecting candidate
      (request (some (pos 7))) world (pos 7) 0 users-IsValid refl refl found-user

insert_number-collision_example :
    insert_number toy ⦃key = cast_key⦄ taken (pos 8) (request none) 5 0 (toy.begin 4) ≡ result none
unfolding insert_toy
insert_number-collision_example =
    insert_number-collision toy ⦃key = cast_key⦄ taken (pos 8) (request none) 4 0 "duplicate"
      (toy.begin 4) (record { failed = true; accounts = 4 }) refl
