-- ===== src/Login/Outcomes.antt =====
-- How `Load_DB::login` of backend/include/database_loader.hpp ends.
use concurrent_banking_syste.Prelude.{
  ℕ, ◌≡◌, refl, Bool, true, false, Option, none, some, String, List, [], ◌∷◌, get_elem?, set,
  get_elem?-set_self, get_elem?-some-lt, if◌then◌else◌,
}
use concurrent_banking_syste.Prelude.Int.{ℤ}
use concurrent_banking_syste.Run.{ok}
use concurrent_banking_syste.Exec.{done}
use concurrent_banking_syste.HashTable.{Key, get_all}
use concurrent_banking_syste.HashTable.Placed.{view, IsValid}
use concurrent_banking_syste.HashTable.Methods.{find-view}
use concurrent_banking_syste.Account
use concurrent_banking_syste.Account.{Account}
use concurrent_banking_syste.User
use concurrent_banking_syste.User.{User, UserPtr, AccountPtr}
use concurrent_banking_syste.Memory.Reads.{user_at-ok, account_at-ok}
use concurrent_banking_syste.Memory.{Memory}
use concurrent_banking_syste.Requests.{LoginRequest}
use concurrent_banking_syste.Json.{Fields, number, text}
use concurrent_banking_syste.Postgres.{result}
use concurrent_banking_syste.LoadDb.{World, told, send}
use concurrent_banking_syste.Login.{
  Sessions, Connecting, send_to, refuse, stored_hash, authenticate, find_user, login,
}
use concurrent_banking_syste.Login.Members.{
  set_online, account_members, user_members, reply_members,
}

-- The members of the reply to a user whose first account is `a`.
abbrev pub members_of : User → Account → Fields
members_of u a =
    ("status", text "success")
    ∷ ("full_name", text u.full_name)
    ∷ ("account_id", number a.account_id)
    ∷ ("balance_cents", number a.actual_balance)
    ∷ []

-- The user at `p`, and the first of the user's accounts, whose mutex is free.
pub record Shows (p : UserPtr) (u : User) (a : Account) (m : Memory) : Type 0 where
  pub at_user : get_elem? m.users p ≡ some u
  pub first : ℤ × AccountPtr
  pub others : List (ℤ × AccountPtr)
  pub listed : get_all u.accounts ≡ first ∷ others
  pub at_account : get_elem? m.accounts first.1 ≡ some a
  pub free : a.mutex ≡ false

pub if-true {ℓ} : {A : Type ℓ} (b : Bool) (x y : A) → b ≡ true → (if b then x else y) ≡ x
if-true true x y h = refl
if-true false x y h = absurd (cc)

pub if-false {ℓ} : {A : Type ℓ} (b : Bool) (x y : A) → b ≡ false → (if b then x else y) ≡ y
if-false true x y h = absurd (cc)
if-false false x y h = refl

pub Shows-members :
    (p : UserPtr) (u : User) (a : Account) (m : Memory)
    → Shows p u a m
    → reply_members (some p) m ≡ ok (members_of u a)
unfolding reply_members Account.get_actual_balance Account.lock
Shows-members p u a m s = rw (
  user_at-ok p m s.at_user,
  user_members,
  s.listed,
  account_at-ok s.first.1 m s.at_account,
  account_members,
  s.free,
)

pub set_online_lem :
    (p : UserPtr) (u : User) (m : Memory)
    → get_elem? m.users p ≡ some u
    → set_online p m ≡ ok (record m { users = set m.users p (User.set_login "ONLINE" u) })
unfolding set_online
set_online_lem p u m at = rw (user_at-ok p m at)

pub Shows-online :
    (p : UserPtr) (u : User) (a : Account) (m : Memory)
    → Shows p u a m
    → Shows p
        (User.set_login "ONLINE" u)
        a
        (record m { users = set m.users p (User.set_login "ONLINE" u) })
unfolding User.set_login
Shows-online p u a m s = record {
  at_user = get_elem?-set_self m.users p _ (get_elem?-some-lt m.users p s.at_user);
  first = s.first;
  others = s.others;
  listed = s.listed;
  at_account = s.at_account;
  free = s.free;
}

module _ (sessions : Sessions) ⦃key : Key ℤ⦄ (w : World sessions.Database) where
  open sessions use {
    Database, begin, password_hash, set_status, commit, user_rows, verify_password, write,
  }

  -- The hash that counts for a user: memory's, or that of the database if memory lacks the user.
  abbrev pub IsHash : ℤ → Option UserPtr → Option String → Type 0
  IsHash id none hash = password_hash id (begin w.db) ≡ result hash
  IsHash id (some p) hash =
      (u : User) × (get_elem? w.memory.users p ≡ some u) × (hash ≡ some u.password_hash)

  pub stored_hash_lem :
      (l : LoginRequest) (loaded : Option UserPtr) (hash : Option String)
      → IsHash l.user_id loaded hash
      → stored_hash sessions l loaded (begin w.db) w ≡ done hash w
  unfolding stored_hash
  stored_hash_lem l none hash h = rw h
  stored_hash_lem l (some p) hash (u, at, e) = rw (user_at-ok p w.memory at, e)

  -- A login, up to what `authenticate` comes to.
  module _ (connecting : Connecting) (l : LoginRequest) (socket : ℕ)
      (url : connecting.url_set ≡ true) (is_open : connecting.is_open ≡ result true)
      (conn : l.connection ≡ some socket) (valid : IsValid w.memory.bank_db) where
    pub find_user_lem : find_user sessions l.user_id w ≡ done (view w.memory.bank_db l.user_id) w
    unfolding find_user
    find_user_lem = rw (find-view, valid)

    abbrev pub refusal : Option String → String
    refusal none = "Invalid username or password"
    refusal (some h) = "Invalid username of password"

    abbrev pub IsWrong : Option String → Type 0
    IsWrong none = Unit {0}
    IsWrong (some h) = verify_password l.password h ≡ false

    refused :
        (hash : Option String)
        → IsHash l.user_id (view w.memory.bank_db l.user_id) hash
        → IsWrong hash
        → authenticate sessions l (view w.memory.bank_db l.user_id) w
          ≡ done false (told (some socket) (refusal hash) w)
    unfolding authenticate refuse send_to send
    refused none h wrong = rw (stored_hash_lem l (view w.memory.bank_db l.user_id) none h, conn)
    refused (some x) h wrong =
        rw (stored_hash_lem l (view w.memory.bank_db l.user_id) (some x) h, wrong, conn)

    -- A login that is no refresh, over an open connection, of a user whom nobody knows or with a
    -- password that does not match the hash in memory (or, for a user who is not there, in the
    -- database): it returns, its sender is told that the user name or the password is wrong, and
    -- neither the database nor memory changes.
    pub login_refused :
        (hash : Option String)
        → l.is_refresh ≡ false
        → IsHash l.user_id (view w.memory.bank_db l.user_id) hash
        → IsWrong hash
        → login sessions connecting l w ≡ done tt (told (some socket) (refusal hash) w)
    unfolding login
    login_refused hash real h wrong =
        rw (url, is_open, find_user_lem, if-false l.is_refresh _ _ real, refused hash h wrong)
