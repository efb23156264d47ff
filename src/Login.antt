-- ===== src/Login.antt =====
-- `Load_DB::login` of backend/include/database_loader.hpp. A login holds `connectionMutex_` from its
-- first line to its last, so that it is one step for another login.
pub mod Members
pub mod Outcomes
pub mod Welcome
pub mod Shown
pub mod Example
mod Tests
use concurrent_banking_syste.Prelude.{
  ℕ, Bool, true, false, not, ◌||◌, Option, none, some, String, List, [], ◌∷◌, ◌++◌, set,
  if◌then◌else◌,
}
use concurrent_banking_syste.Prelude.Int.{ℤ}
use concurrent_banking_syste.Run.{Run, ok, throws, fault, null_pointer}
use concurrent_banking_syste.Exec.{
  Outcome, done, thrown, stuck, Action, ◌>>=◌, ◌>>◌, continue, give, lift, reading, modify,
  try_catch,
}
use concurrent_banking_syste.HashTable
use concurrent_banking_syste.HashTable.{Key}
use concurrent_banking_syste.User.{UserPtr}
use concurrent_banking_syste.Memory.{Memory, user_at}
use concurrent_banking_syste.Requests.{Connection, LoginRequest}
use concurrent_banking_syste.Json.{Fields}
use concurrent_banking_syste.Postgres.{
  Reply, result, fails, Commit, committed, rolled_back, in_doubt,
}
use concurrent_banking_syste.LoadDb.{World, send, ask, ask_commit, on_memory}
use concurrent_banking_syste.StoreUsers.{Row, store_users}
use concurrent_banking_syste.Login.Members.{set_online, reply_members}

-- What the method uses of `pqxx`, of the server, of the functions on passwords and of `jsoncpp`.
pub record Sessions : Type 1 where
  pub Database : Type 0
  pub Work : Type 0
  pub begin : Database → Work
  -- Whether a user has a row.
  pub user_exists : ℤ → Database → Reply Bool
  -- The `password_hash` of a user, if there is one.
  pub password_hash : ℤ → Work → Reply (Option String)
  -- `UPDATE User_Table SET Login_Status = $1`, and the transaction after it.
  pub set_status : String → ℤ → Work → Reply Work
  pub commit : Work → Commit Database
  -- The rows of the query that joins the user with the accounts and the transactions.
  pub user_rows : ℤ → Database → Reply (List Row)
  pub verify_password : String → String → Bool
  -- `Json::writeString` of an object, with no indentation.
  pub write : Fields → String

-- What the environment and the attempt to connect come to.
pub record Connecting : Type 0 where
  pub url_set : Bool
  pub is_open : Reply Bool

module _ {Database : Type 0} where
  -- `l.connection->send(text)`, with no test for a null pointer.
  unfoldable pub send_to : Connection → String → Action (World Database) (Unit {0})
  send_to none message w = stuck null_pointer
  send_to (some socket) message w = send (some socket) message w

  -- The end of a branch that returns: false for what follows.
  unfoldable pub refuse : LoginRequest → String → Action (World Database) Bool
  unfolding send_to
  refuse l message = send_to l.connection message >> give false

module _ (sessions : Sessions) ⦃key : Key ℤ⦄ where
  open sessions use {
    Database, Work, begin, user_exists, password_hash, set_status, commit, user_rows,
    verify_password, write,
  }

  -- The branch of a refresh, and that of a login: whether the method goes on.
  unfoldable pub confirm : LoginRequest → Option UserPtr → Action (World Database) Bool
  confirm l (some p) = give true
  confirm l none = do
    exists ← reading (λ w. ok w.db) >>= λ db. ask (user_exists l.user_id db)
    if exists then give true else refuse l "Invalid user_id"

  -- The hash that the password is compared with.
  unfoldable pub stored_hash :
      LoginRequest → Option UserPtr → Work → Action (World Database) (Option String)
  stored_hash l none work = ask (password_hash l.user_id work)
  stored_hash l (some p) work =
      reading (λ w. user_at p w.memory) >>= λ u. give (some u.password_hash)

  unfoldable pub authenticate : LoginRequest → Option UserPtr → Action (World Database) Bool
  authenticate l loaded = do
    work ← reading (λ w. ok (begin w.db))
    hash ← stored_hash l loaded work
    elim hash [
      | none ↦ refuse l "Invalid username or password"
      | some h ↦
          if verify_password l.password h
          then (do
            online ← ask (set_status "ONLINE" l.user_id work)
            ask_commit (commit online)
            give true)
          else refuse l "Invalid username of password"
    ]

  -- The query that brings the user's rows into memory, at the first login and at a refresh.
  unfoldable pub reload : LoginRequest → Option UserPtr → Action (World Database) (Unit {0})
  reload l loaded =
      if l.is_refresh || elim loaded [ none ↦ true | some _ ↦ false ]
      then (do
        db ← reading (λ w. ok w.db)
        rows ← ask (user_rows l.user_id db)
        on_memory (store_users rows))
      else give tt

  unfoldable pub mark_online : LoginRequest → Option UserPtr → Action (World Database) (Unit {0})
  mark_online l found = if l.is_refresh then give tt else elim found [
    | none ↦ give tt
    | some p ↦ do
      memory ← reading (λ w. set_online p w.memory)
      modify (λ w. record w { memory = memory })
  ]

  -- Nothing is sent without a connection.
  unfoldable pub respond : LoginRequest → Option UserPtr → Action (World Database) (Unit {0})
  respond l found = elim l.connection [
    | none ↦ give tt
    | some socket ↦ do
      members ← reading (λ w. reply_members found w.memory)
      send (some socket) (write members)
  ]

  unfoldable pub find_user : ℤ → Action (World Database) (Option UserPtr)
  find_user id = reading (λ w. HashTable.find id w.memory.bank_db)

  unfoldable pub login : Connecting → LoginRequest → Action (World Database) (Unit {0})
  unfolding send_to
  login connecting l =
      try_catch
        (if not connecting.url_set then send_to l.connection "Connection Error DB" else (do
          is_open ← ask connecting.is_open
          if not is_open then send_to l.connection "Connection Error DB" else (do
            loaded ← find_user l.user_id
            goes_on ← (if l.is_refresh then confirm l loaded else authenticate l loaded)
            if not goes_on then give tt else (do
              reload l loaded
              found ← find_user l.user_id
              mark_online l found
              respond l found))))
        (λ _. send_to l.connection "ERROR")
