-- ===== src/CreateAccount.antt =====
-- `Load_DB::create_account` of backend/include/database_loader.hpp.
pub mod Granted
pub mod Checks
pub mod Outcomes
mod Tests
use concurrent_banking_syste.Prelude.{
  ℕ, zero, suc, ◌≡◌, Bool, true, false, not, Option, none, some, String, ◌==◌, if◌then◌else◌,
}
use concurrent_banking_syste.Prelude.Int.{ℤ}
use concurrent_banking_syste.Run.{ok, Exception, sql_error, null_pointer}
use concurrent_banking_syste.Exec.{
  Outcome, done, thrown, stuck, Action, ◌>>=◌, ◌>>◌, continue, give, lift, reading, modify,
  try_catch,
}
use concurrent_banking_syste.HashTable
use concurrent_banking_syste.HashTable.{Key}
use concurrent_banking_syste.Requests.{AccountCreationRequest}
use concurrent_banking_syste.Postgres.{
  Reply, result, fails, Commit, committed, rolled_back, in_doubt,
}
use concurrent_banking_syste.LoadDb.{World, send, ask, ask_commit}
use concurrent_banking_syste.Login.{Connecting}

-- What the method uses of `pqxx`, of the server and of the functions on passwords: a transaction is a
-- `Work`, and one in which a statement failed executes no other.
pub record Registry : Type 1 where
  pub Database : Type 0
  pub Work : Type 0
  pub begin : Database → Work
  -- The `password_hash` of a user, if there is one.
  pub password_hash : ℤ → Work → Reply (Option String)
  -- The new id, if a row comes back; and the transaction after it.
  pub insert_user : AccountCreationRequest → Work → Reply (Option ℤ × Work)
  -- The affected rows for a user, a request and an account number; and the transaction after it.
  pub insert_account : ℤ → AccountCreationRequest → String → Work → Reply ℕ × Work
  pub commit : Work → Commit Database
  -- `none` where it returns false; `BCrypt::generateHash` may throw.
  pub hash_password : String → Reply (Option String)
  pub verify_password : String → String → Bool
  pub Aborted : Work → Type 0
  pub abort_law :
      (id : ℤ) (a : AccountCreationRequest) (number text : String) (work work' : Work)
      → insert_account id a number work ≡ (fails (sql_error text), work')
      → Aborted work'
  pub aborted_law :
      (id : ℤ) (a : AccountCreationRequest) (number : String) (work : Work)
      → Aborted work
      → (text : String) × (insert_account id a number work ≡ (fails (sql_error text), work))

abbrev pub max_retries : ℕ
max_retries = 5

-- Where the checks lead: to a message, or on with a user and a transaction.
pub data Checked (Work : Type 0) : Type 0 where
  refusal : String → Checked Work
  go_on : ℤ → Work → Checked Work

module _ (registry : Registry) ⦃key : Key ℤ⦄ where
  open registry use {
    Database, Work, begin, password_hash, insert_user, insert_account, commit, hash_password,
    verify_password,
  }

  -- How an attempt ends: a `sql_error` is caught, and the loop goes on; so it does if no row was
  -- affected.
  next_attempt : (Work → Reply (Option Work)) → Reply ℕ × Work → Reply (Option Work)
  next_attempt again (result rows, work) = if rows == 0 then again work else result (some work)
  next_attempt again (fails (sql_error text), work) = again work
  next_attempt again (fails e, work) = fails e

  -- The loop over the candidates, with the attempts that are left: the transaction in which an account
  -- was inserted, if one was.
  unfoldable pub insert_number :
      (ℕ → String) → ℤ → AccountCreationRequest → ℕ → ℕ → Work → Reply (Option Work)
  unfolding next_attempt
  insert_number candidate id a zero attempt work = result none
  insert_number candidate id a (suc left) attempt work =
      next_attempt (insert_number candidate id a left (suc attempt))
        (insert_account id a (candidate attempt) work)

  -- The two flags `user_exist` and `verified` for the user of the request.
  unfoldable pub known : ℤ → AccountCreationRequest → Work → Action (World Database) (Bool × Bool)
  known id a work = do
    loaded ← reading (λ w. HashTable.find id w.memory.bank_db)
    elim loaded [
      | some _ ↦ give (true, false)
      | none ↦ do
        hash ← ask (password_hash id work)
        elim hash [
          | none ↦ give (false, false)
          | some h ↦ give (true, verify_password a.password h)
        ]
    ]

  unfoldable pub check_existing :
      ℤ → AccountCreationRequest → Work → Action (World Database) (Checked Work)
  check_existing id a work = do
    (user_exist, verified) ← known id a work
    if not user_exist
        then give (refusal "Invalid username or password")
        else if not verified
        then give (refusal "Invalid username or password")
        else give (go_on id work)

  unfoldable pub register : AccountCreationRequest → Work → Action (World Database) (Checked Work)
  register a work = ask (hash_password a.password) >>= λ success. elim success [
    | none ↦ give (refusal "Error")
    | some hashed ↦ do
      (id, work') ← ask (insert_user (record a { password = hashed }) work)
      elim id [ none ↦ give (refusal "Error creating user") | some i ↦ give (go_on i work') ]
  ]

  unfoldable pub check : AccountCreationRequest → Work → Action (World Database) (Checked Work)
  check a work = elim a.user_id [ some id ↦ check_existing id a work | none ↦ register a work ]

  unfoldable pub open_account :
      (ℕ → String) → AccountCreationRequest → Checked Work → Action (World Database) (Unit {0})
  open_account candidate a (refusal text) = send a.connection text
  open_account candidate a (go_on id work) = do
    inserted ← ask (insert_number candidate id a max_retries 0 work)
    elim inserted [
      | none ↦ send a.connection "Account creation failed"
      | some work' ↦ do ask_commit (commit work'); send a.connection "Success"
    ]

  -- `connect_database->is_open()`, and once more after `establish_connection` where it is not: for
  -- a pointer that is null (`none`) or leads to a connection that is open or not. Without the variable
  -- the closed connection stays; what the pointer is afterwards is in Startup.establish_connection.
  unfoldable pub reopen : Option Bool → Connecting → Action (World Database) Bool
  reopen none connecting w = stuck null_pointer
  reopen (some true) connecting w = done true w
  reopen (some false) connecting w =
      (if not connecting.url_set then give false else ask connecting.is_open) w

  -- `candidate` is the numbers that `AccountNumberGenerator` draws.
  unfoldable pub create_account :
      Option Bool
      → Connecting
      → (ℕ → String)
      → AccountCreationRequest
      → Action (World Database) (Unit {0})
  create_account connection connecting candidate a =
      try_catch
        (do
          is_open ← reopen connection connecting
          if not is_open then send a.connection "Couldn't connect to database" else (do
            work ← reading (λ w. ok (begin w.db))
            checked ← check a work
            open_account candidate a checked))
        (λ _. send a.connection "ERROR")
