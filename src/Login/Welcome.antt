-- ===== src/Login/Welcome.antt =====
-- A login and a refresh that succeed, in `Load_DB::login` of backend/include/database_loader.hpp.
use concurrent_banking_syste.Prelude.{
  ℕ, ◌≡◌, refl, ◌∙◌, true, false, Option, none, some, List, get_elem?, set,
}
use concurrent_banking_syste.Prelude.Int.{ℤ}
use concurrent_banking_syste.Exec.{done}
use concurrent_banking_syste.HashTable.{Key}
use concurrent_banking_syste.HashTable.Placed.{view, IsValid}
use concurrent_banking_syste.Account.{Account}
use concurrent_banking_syste.User
use concurrent_banking_syste.User.{User, UserPtr, AccountPtr}
use concurrent_banking_syste.Memory.{Memory}
use concurrent_banking_syste.Requests.{LoginRequest}
use concurrent_banking_syste.Postgres.{committed, result}
use concurrent_banking_syste.LoadDb.{World, told, send, on_memory}
use concurrent_banking_syste.StoreUsers.{Row, store_users}
use concurrent_banking_syste.Login.{
  Sessions, Connecting, confirm, authenticate, reload, mark_online, respond, find_user, login,
}
use concurrent_banking_syste.Login.Outcomes.{
  members_of, Shows, Shows-members, Shows-online, set_online_lem, if-true, if-false,
  stored_hash_lem, find_user_lem,
}

module _ (sessions : Sessions) ⦃key : Key ℤ⦄ (w : World sessions.Database) where
  open sessions use {
    Database, begin, user_exists, password_hash, set_status, commit, user_rows, verify_password,
    write,
  }

  -- The world after a login: the committed database, and the user marked in memory.
  abbrev pub online : UserPtr → User → Database → World Database
  online p u db = record w {
    db = db;
    memory = record w.memory { users = set w.memory.users p (User.set_login "ONLINE" u) };
  }

  module _ (connecting : Connecting) (l : LoginRequest) (socket : ℕ)
      (url : connecting.url_set ≡ true) (is_open : connecting.is_open ≡ result true)
      (conn : l.connection ≡ some socket) (valid : IsValid w.memory.bank_db) where
    respond_lem :
        (p : UserPtr) (u : User) (a : Account) (v : World Database)
        → Shows p u a v.memory
        → respond sessions l (some p) v ≡ done tt (told (some socket) (write (members_of u a)) v)
    unfolding respond send
    respond_lem p u a v s = rw (respond, conn, Shows-members p u a v.memory s)

    module _ (p : UserPtr) (u : User) (there : get_elem? w.memory.users p ≡ some u) where
      verified :
          (work : sessions.Work) (db : Database)
          → verify_password l.password u.password_hash ≡ true
          → set_status "ONLINE" l.user_id (begin w.db) ≡ result work
          → commit work ≡ committed db
          → authenticate sessions l (some p) w ≡ done true (record w { db = db })
      unfolding authenticate
      verified work db right status saved = rw (
        stored_hash_lem sessions w l (some p) (some u.password_hash) (u, there, refl),
        right,
        status,
        saved,
      )

      marked :
          (db : Database)
          → l.is_refresh ≡ false
          → mark_online sessions l (some p) (record w { db = db }) ≡ done tt (online p u db)
      unfolding mark_online
      marked db real = rw (if-false l.is_refresh _ _ real, set_online_lem p u w.memory there)

      reload_nothing :
          (v : World Database) → l.is_refresh ≡ false → reload sessions l (some p) v ≡ done tt v
      unfolding reload
      reload_nothing v real = rw (real)

      -- A login with the right password of a user who is in memory with an account, where the
      -- update of the status and the commit succeed: it returns, the database is the committed one,
      -- the user is marked ONLINE in memory, and the sender is told the name, the id and the
      -- balance of the first account.
      pub login_welcomes :
          (a : Account) (work : sessions.Work) (db : Database)
          → view w.memory.bank_db l.user_id ≡ some p
          → Shows p u a w.memory
          → l.is_refresh ≡ false
          → verify_password l.password u.password_hash ≡ true
          → set_status "ONLINE" l.user_id (begin w.db) ≡ result work
          → commit work ≡ committed db
          → login sessions connecting l w
            ≡ done tt (told (some socket) (write (members_of u a)) (online p u db))
      unfolding login User.set_login
      login_welcomes a work db loaded shows real right status saved =
          let found = find_user_lem sessions w connecting l socket url is_open conn valid in
          let saved_world : World Database = record w { db = db } in
          let again : find_user sessions l.user_id saved_world ≡ done (some p) saved_world =
            find_user_lem sessions saved_world connecting l socket url is_open conn valid
            ∙ rw loaded refl in
          rw (
            url,
            is_open,
            found,
            loaded,
            if-false l.is_refresh _ _ real,
            verified work db right status saved,
            reload_nothing saved_world real,
            again,
            marked db real,
            respond_lem p (User.set_login "ONLINE" u) a (online p u db)
                (Shows-online p u a w.memory shows),
          )

    -- What has to hold for a refresh to go on: the user is in memory, or has a row.
    abbrev pub IsKnown : Option UserPtr → Type 0
    IsKnown none = user_exists l.user_id w.db ≡ result true
    IsKnown (some p) = Unit {0}

    confirmed :
        (loaded : Option UserPtr) → IsKnown loaded → confirm sessions l loaded w ≡ done true w
    unfolding confirm
    confirmed none known = rw known
    confirmed (some p) known = refl

    reloaded :
        (loaded : Option UserPtr) (rows : List Row) (m : Memory)
        → l.is_refresh ≡ true
        → user_rows l.user_id w.db ≡ result rows
        → store_users rows w.memory ≡ done tt m
        → reload sessions l loaded w ≡ done tt (record w { memory = m })
    unfolding reload on_memory
    reloaded loaded rows m refresh rows_are stored = rw (refresh, rows_are, stored)

    unmarked :
        (p : UserPtr) (v : World Database)
        → l.is_refresh ≡ true
        → mark_online sessions l (some p) v ≡ done tt v
    unfolding mark_online
    unmarked p v refresh = rw (if-true l.is_refresh _ _ refresh)

    -- A request marked as a refresh, from any socket and with any password, of a user who is in
    -- memory or has a row, where the query and the loading of its rows succeed: its sender is told
    -- the name, the id and the balance of the first account.
    pub refresh_discloses :
        (rows : List Row) (m : Memory) (p : UserPtr) (u : User) (a : Account)
        → l.is_refresh ≡ true
        → IsKnown (view w.memory.bank_db l.user_id)
        → user_rows l.user_id w.db ≡ result rows
        → store_users rows w.memory ≡ done tt m
        → IsValid m.bank_db
        → view m.bank_db l.user_id ≡ some p
        → Shows p u a m
        → login sessions connecting l w
          ≡ done tt (told (some socket) (write (members_of u a)) (record w { memory = m }))
    unfolding login
    refresh_discloses rows m p u a refresh known rows_are stored valid' there shows =
        let found = find_user_lem sessions w connecting l socket url is_open conn valid in
        let w' : World Database = record w { memory = m } in
        let again : find_user sessions l.user_id w' ≡ done (some p) w' =
          find_user_lem sessions w' connecting l socket url is_open conn valid' ∙ rw there refl in
        rw (
          url,
          is_open,
          found,
          if-true l.is_refresh _ _ refresh,
          confirmed (view w.memory.bank_db l.user_id) known,
          reloaded (view w.memory.bank_db l.user_id) rows m refresh rows_are stored,
          again,
          unmarked p w' refresh,
          respond_lem p u a w' shows,
        )
