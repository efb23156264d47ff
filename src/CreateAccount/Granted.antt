-- ===== src/CreateAccount/Granted.antt =====
-- Which requests `create_account` of backend/include/database_loader.hpp is to grant, said apart from
-- the code.
use mathlib.Core.Path.{subst}
use concurrent_banking_syste.Prelude.{
  ℕ, zero, suc, ◌≡◌, refl, arith, true, Option, none, some, String, Bool,
}
use concurrent_banking_syste.Prelude.Int.{ℤ}
use concurrent_banking_syste.Run.{
  Exception, sql_error, invalid_argument, runtime_error, bad_optional_access, bad_field,
}
use concurrent_banking_syste.Exec.{done}
use concurrent_banking_syste.HashTable.{Key}
use concurrent_banking_syste.HashTable.Placed.{view, IsValid}
use concurrent_banking_syste.HashTable.Methods.{find-view}
use concurrent_banking_syste.Requests.{AccountCreationRequest}
use concurrent_banking_syste.Postgres.{Reply, result, fails, committed}
use concurrent_banking_syste.LoadDb.{World}
use concurrent_banking_syste.Login.{Connecting}
use concurrent_banking_syste.CreateAccount.{
  Registry, go_on, next_attempt, insert_number, known, check_existing, register, check, reopen,
  max_retries,
}

module _ (registry : Registry) ⦃key : Key ℤ⦄ (candidate : ℕ → String)
    (a : AccountCreationRequest) where
  open registry use {
    Database, Work, begin, password_hash, insert_user, insert_account, commit, hash_password,
    verify_password, Aborted, abort_law, aborted_law,
  }

  -- Whom an account may be opened for, and in which transaction: a user whom memory does not have,
  -- whose row has a hash that the password matches; or a new user, whose row was inserted with the
  -- hash of the password.
  pub data Entitled (w : World Database) : ℤ → Work → Type 0 where
    known_user :
        {id : ℤ} {h : String}
        → a.user_id ≡ some id
        → view w.memory.bank_db id ≡ none
        → password_hash id (begin w.db) ≡ result (some h)
        → verify_password a.password h ≡ true
        → Entitled w id (begin w.db)
    new_user :
        {id : ℤ} {hashed : String} {work : Work}
        → a.user_id ≡ none
        → hash_password a.password ≡ result (some hashed)
        → insert_user (record a { password = hashed }) (begin w.db) ≡ result (some id, work)
        → Entitled w id work

  -- One of the candidates from `attempt` on, of which `left` may be tried, was inserted with an
  -- affected row, and the ones before it affected none; none of them threw.
  pub data Numbered (id : ℤ) : ℕ → ℕ → Work → Work → Type 0 where
    inserts :
        {left attempt n : ℕ} {work work' : Work}
        → insert_account id a (candidate attempt) work ≡ (result (suc n), work')
        → Numbered id (suc left) attempt work work'
    misses :
        {left attempt : ℕ} {work work' work'' : Work}
        → insert_account id a (candidate attempt) work ≡ (result 0, work')
        → Numbered id left (suc attempt) work' work''
        → Numbered id (suc left) attempt work work''

  pub record Granted (w : World Database) : Type 0 where
    pub user_id : ℤ
    pub checked : Work
    pub work : Work
    pub entitled : Entitled w user_id checked
    pub numbered : Numbered user_id max_retries 0 checked work

  -- What a request needs to succeed: a connection, to be granted, and that the commit takes effect
  -- and says so.
  pub record Deserves (connection : Option Bool) (connecting : Connecting) (w : World Database)
      : Type 0 where
    pub opens : reopen registry connection connecting w ≡ done true w
    pub granted : Granted w
    pub database : Database
    pub commits : commit granted.work ≡ committed database

  register-new :
      (w : World Database) {id : ℤ} {hashed : String} {work : Work}
      → hash_password a.password ≡ result (some hashed)
      → insert_user (record a { password = hashed }) (begin w.db) ≡ result (some id, work)
      → register registry a (begin w.db) w ≡ done (go_on id work) w
  unfolding register
  register-new w hash row = rw (register, hash, row) refl

  existing-known :
      (w : World Database) (id : ℤ) {h : String}
      → IsValid w.memory.bank_db
      → view w.memory.bank_db id ≡ none
      → password_hash id (begin w.db) ≡ result (some h)
      → verify_password a.password h ≡ true
      → check_existing registry id a (begin w.db) w ≡ done (go_on id (begin w.db)) w
  unfolding check_existing known
  existing-known w id valid missing hash right =
      rw (check_existing, find-view w.memory.bank_db id valid, missing, hash, right) refl

  pub Entitled-check :
      (w : World Database) {id : ℤ} {work : Work}
      → IsValid w.memory.bank_db
      → Entitled w id work
      → check registry a (begin w.db) w ≡ done (go_on id work) w
  unfolding check
  Entitled-check w valid (known_user {id} who missing hash right) =
      rw (check, who) (existing-known w id valid missing hash right)
  Entitled-check w valid (new_user nobody hash row) = rw (check, nobody) (register-new w hash row)

  next-took :
      (again : Work → Reply (Option Work)) (n : ℕ) (work : Work)
      → next_attempt registry again (result (suc n), work) ≡ result (some work)
  unfolding next_attempt
  next-took again n work = ground arith

  pub Numbered-insert_number :
      {id : ℤ} {left attempt : ℕ} {work work' : Work}
      → Numbered id left attempt work work'
      → insert_number registry candidate id a left attempt work ≡ result (some work')
  unfolding insert_number
  Numbered-insert_number {id = id}
        (inserts {left = left} {attempt = attempt} {n = n} {work' = work'} h) =
      rw h (next-took (insert_number registry candidate id a left (suc attempt)) n work')
  Numbered-insert_number (misses h rest) = rw h (unfold next_attempt in Numbered-insert_number rest)

  aborted :
      (id : ℤ) (left attempt : ℕ) (work : Work)
      → Aborted work
      → insert_number registry candidate id a left attempt work ≡ result none
  unfolding insert_number next_attempt
  aborted id zero attempt work dead = refl
  aborted id (suc left) attempt work dead =
      let (text, e) = aborted_law id a (candidate attempt) work dead in
      rw (e, aborted id left (suc attempt) work dead)

  pub insert_number-aborts :
      (id : ℤ) (left attempt : ℕ) (text : String) (work work' : Work)
      → insert_account id a (candidate attempt) work ≡ (fails (sql_error text), work')
      → insert_number registry candidate id a (suc left) attempt work ≡ result none
  unfolding insert_number next_attempt
  insert_number-aborts id left attempt text work work' e = rw (
    e,
    aborted id left (suc attempt) work' (abort_law id a (candidate attempt) text work work' e),
  )

  -- How the insertion of a candidate can go.
  data Tried (r : Reply ℕ × Work) : Type 0 where
    took : (n : ℕ) (work : Work) → r ≡ (result (suc n), work) → Tried r
    missed : (work : Work) → r ≡ (result 0, work) → Tried r
    collided : (text : String) (work : Work) → r ≡ (fails (sql_error text), work) → Tried r
    threw :
        (e : Exception)
        → ((again : Work → Reply (Option Work)) → next_attempt registry again r ≡ fails e)
        → Tried r

  Tried-cases : (r : Reply ℕ × Work) → Tried r
  unfolding next_attempt
  Tried-cases (result zero, work) = missed work refl
  Tried-cases (result (suc n), work) = took n work refl
  Tried-cases (fails (sql_error text), work) = collided text work refl
  Tried-cases (fails (invalid_argument text), work) = threw (invalid_argument text) (λ _. refl)
  Tried-cases (fails (runtime_error text), work) = threw (runtime_error text) (λ _. refl)
  Tried-cases (fails bad_optional_access, work) = threw bad_optional_access (λ _. refl)
  Tried-cases (fails bad_field, work) = threw bad_field (λ _. refl)

  pub insert_number-Numbered :
      (id : ℤ) (left attempt : ℕ) (work : Work) {work' : Work}
      → insert_number registry candidate id a left attempt work ≡ result (some work')
      → Numbered id left attempt work work'
  unfolding insert_number
  insert_number-Numbered id zero attempt work h = absurd (cc)
  insert_number-Numbered id (suc left) attempt work {work'} h =
      elim (Tried-cases (insert_account id a (candidate attempt) work)) [
        | took n work1 e ↦
            let took_it =
              next-took (insert_number registry candidate id a left (suc attempt)) n work1 in
            let same : work1 ≡ work' = cc (took_it, rw e at h) in
            subst (Numbered id (suc left) attempt work) same (inserts e)
        | missed work1 e ↦
            misses e (
              insert_number-Numbered id left (suc attempt) work1 (unfold next_attempt in rw e at h))
        | collided text work1 e ↦
            let none_left = insert_number-aborts id left attempt text work work1 e in
            absurd (unfold insert_number in cc (h, none_left))
        | threw e fails_so ↦
            absurd (cc (h, fails_so (insert_number registry candidate id a left (suc attempt))))
      ]
