-- ===== src/CreateAccount/Outcomes.antt =====
-- How `create_account` can end.
use mathlib.Core.Path.{subst}
use concurrent_banking_syste.Prelude.{
  ℕ, suc, ◌≡◌, ◌≢◌, ◌⊎◌, inl, inr, refl, sym, ap, ◌∙◌, Bool, true, false, Option, none, some,
  String, Bool-cases, Option-cases,
}
use concurrent_banking_syste.Prelude.Int.{ℤ}
use concurrent_banking_syste.Run.{Exception, sql_error, null_pointer}
use concurrent_banking_syste.Exec.{Outcome, done, thrown, stuck}
use concurrent_banking_syste.HashTable.{Key}
use concurrent_banking_syste.HashTable.Placed.{view, IsValid}
use concurrent_banking_syste.HashTable.Methods.{find-view}
use concurrent_banking_syste.Requests.{AccountCreationRequest, Connection}
use concurrent_banking_syste.User.{UserPtr}
use concurrent_banking_syste.Postgres.{result, fails, committed, in_doubt}
use concurrent_banking_syste.LoadDb.{World, send, told}
use concurrent_banking_syste.LoadDb.Promise.{
  Reply-cases, told-keeps, Commit-cases, safe, lost, doubtful,
}
use concurrent_banking_syste.Login.{Connecting}
use concurrent_banking_syste.CreateAccount.{
  Registry, Checked, refusal, go_on, insert_number, known, check_existing, check, open_account,
  reopen, create_account, max_retries,
}
use concurrent_banking_syste.CreateAccount.Checks.{Throws, Proper, check-out, check-known}
use concurrent_banking_syste.CreateAccount.Granted.{
  Granted, Deserves, Entitled-check, Numbered-insert_number, insert_number-Numbered,
  insert_number-aborts,
}

told-sent :
    {Database : Type 0} (c : Connection) (text : String) (w : World Database) (d : Database)
    → (told c text (record w { db = d })).sent ≡ (told c text w).sent
unfolding told
told-sent none text w d = refl
told-sent (some socket) text w d = refl

module _ (registry : Registry) ⦃key : Key ℤ⦄ (connection : Option Bool) (connecting : Connecting)
    (candidate : ℕ → String) (a : AccountCreationRequest) (w : World registry.Database) where
  open registry use {
    Database, Work, begin, password_hash, insert_user, insert_account, commit, hash_password,
    verify_password,
  }

  abbrev Grant : Type 0
  Grant = Granted registry candidate a w

  abbrev Deserving : Type 0
  Deserving = Deserves registry candidate a connection connecting w

  -- What a message says of the database, which is `d` after it.
  pub data Verdict (text : String) (d : Database) : Type 0 where
    kept : text ≢ "Success" → d ≡ w.db → ¬ Deserving → Verdict text d
    granted : (g : Grant) → text ≡ "Success" → commit g.work ≡ committed d → Verdict text d
    doubted :
        (g : Grant) (e : Exception) → text ≡ "ERROR" → commit g.work ≡ in_doubt e d → Verdict text d

  -- A call that began in `w` has sent one message, and has left memory as it was.
  pub record Settled (w' : World Database) : Type 0 where
    pub text : String
    pub sent : w'.sent ≡ (told a.connection text w).sent
    pub memory : w'.memory ≡ w.memory
    pub verdict : Verdict text w'.db

  abbrev Settles : Outcome (World Database) (Unit {0}) → Type 0
  Settles o = (w' : World Database) × (o ≡ done tt w') × Settled w'

  -- A null pointer is dereferenced; and otherwise the call returns.
  abbrev pub Ends : Outcome (World Database) (Unit {0}) → Type 0
  Ends o = ((connection ≡ none) × (o ≡ stuck null_pointer)) ⊎ ((connection ≢ none) × Settles o)

  -- Where the commit throws in doubt.
  abbrev Doubts : Outcome (World Database) (Unit {0}) → Type 0
  Doubts o =
      (e : Exception) × (d : Database) × (o ≡ thrown e (record w { db = d }))
      × (g : Grant) × (commit g.work ≡ in_doubt e d)

  said : (text : String) → text ≢ "Success" → ¬ Deserving → Settled (told a.connection text w)
  said text ne denied =
      let same = told-keeps a.connection text w in
      record { text = text; sent = refl; memory = same.1; verdict = kept ne same.0 denied }

  sends : (text : String) → text ≢ "Success" → ¬ Deserving → Settles (send a.connection text w)
  unfolding send
  sends text ne denied = (told a.connection text w, refl, said text ne denied)

  error : ¬ Deserving → Settles (send a.connection "ERROR" w)
  error denied = sends "ERROR" (λ s. absurd (cc)) denied

  module _ (valid : IsValid w.memory.bank_db) where
    checked-as :
        (d : Deserving)
        → check registry a (begin w.db) w ≡ done (go_on d.granted.user_id d.granted.checked) w
    checked-as d = Entitled-check registry candidate a w valid d.granted.entitled

    numbered-as :
        (d : Deserving)
        → insert_number registry candidate d.granted.user_id a max_retries 0 d.granted.checked
          ≡ result (some d.granted.work)
    numbered-as d = Numbered-insert_number registry candidate a d.granted.numbered

    open-out :
        (x : Checked Work)
        → check registry a (begin w.db) w ≡ done x w
        → Proper registry candidate a w (done x w) x
        → (Throws registry candidate a w (open_account registry candidate a x w) × (¬ Deserving))
          ⊎ Doubts (open_account registry candidate a x w)
          ⊎ Settles (open_account registry candidate a x w)
    unfolding open_account send
    open-out (refusal text) run ne = inr (inr (sends text ne (λ d. cc (run, checked-as d))))
    open-out (go_on id work) run entitled =
        elim (Reply-cases (insert_number registry candidate id a max_retries 0 work)) [
          | inr (e, f) ↦ inl ((e, rw f), λ d. cc (run, checked-as d, f, numbered-as d))
          | inl (none, f) ↦
              let denied : ¬ Deserving = λ d. cc (run, checked-as d, f, numbered-as d) in
              let (w', sent, s) = sends "Account creation failed" (λ s. absurd (cc)) denied in
              inr (inr (w', rw f sent, s))
          | inl (some work', f) ↦
              let g : Grant = record {
                user_id = id;
                checked = work;
                work = work';
                entitled = entitled;
                numbered = insert_number-Numbered registry candidate a id max_retries 0 work f;
              } in
              elim (Commit-cases (commit work')) [
                | lost e h ↦
                    inl
                      ((e, rw (f, h)), λ d. cc (run, checked-as d, f, numbered-as d, h, d.commits))
                | doubtful e d h ↦ inr (inl (e, d, rw (f, h), g, h))
                | safe d h ↦
                    let after : World Database = record w { db = d } in
                    let same = told-keeps a.connection "Success" after in
                    inr (
                      inr (
                        told a.connection "Success" after,
                        rw (open_account, f, h, send),
                        record {
                          text = "Success";
                          sent = told-sent a.connection "Success" w d;
                          memory = same.1;
                          verdict = granted g refl (h ∙ ap (λ x. committed x) (sym same.0));
                        },
                      ))
              ]
        ]

  opened :
      IsValid w.memory.bank_db
      → reopen registry connection connecting w ≡ done true w
      → Settles (create_account registry connection connecting candidate a w)
  unfolding create_account send
  opened valid opens = elim (check-out registry candidate a w valid) [
    | inl (e, f) ↦
        let (e', run, s) = error (λ d. cc (f, checked-as valid d)) in
        (e', rw (create_account, opens, f) run, s)
    | inr (x, f, proper) ↦ elim (open-out valid x f proper) [
      | inl ((e, g), denied) ↦
          let (e', run, s) = error denied in (e', rw (create_account, opens, f, g) run, s)
      | inr (inl (e, d, g, grant, h)) ↦
          let after : World Database = record w { db = d } in
          let same = told-keeps a.connection "ERROR" after in
          (
            told a.connection "ERROR" after,
            rw (create_account, opens, f, g) refl,
            record {
              text = "ERROR";
              sent = told-sent a.connection "ERROR" w d;
              memory = same.1;
              verdict = doubted grant e refl (h ∙ ap (λ x. in_doubt e x) (sym same.0));
            },
          )
      | inr (inr (w', g, s)) ↦ (w', rw (create_account, opens, f, g), s)
    ]
  ]

  closed :
      reopen registry connection connecting w ≡ done false w
      → Settles (create_account registry connection connecting candidate a w)
  unfolding create_account send
  closed shut =
      let (w', run, s) =
        sends "Couldn't connect to database" (λ s. absurd (cc)) (λ d. cc (shut, d.opens)) in
      (w', rw (create_account, shut) run, s)

  unreached :
      (e : Exception)
      → reopen registry connection connecting w ≡ thrown e w
      → Settles (create_account registry connection connecting candidate a w)
  unfolding create_account
  unreached e failed =
      let (w', run, s) = error (λ d. cc (failed, d.opens)) in
      (w', rw (create_account, failed) run, s)

  -- How an attempt to open the connection goes.
  data Reopened (o : Outcome (World Database) Bool) : Type 0 where
    open_now : o ≡ done true w → Reopened o
    shut_still : o ≡ done false w → Reopened o
    thrown_out : (e : Exception) → o ≡ thrown e w → Reopened o

  reopen-out : (b : Bool) → Reopened (reopen registry (some b) connecting w)
  unfolding reopen
  reopen-out true = open_now refl
  reopen-out false = elim (Bool-cases connecting.url_set) [
    | inr unset ↦ shut_still (rw (reopen, unset) refl)
    | inl set ↦ elim (Reply-cases connecting.is_open) [
      | inr (e, f) ↦ thrown_out e (rw (reopen, set, f) refl)
      | inl (true, f) ↦ open_now (rw (reopen, set, f) refl)
      | inl (false, f) ↦ shut_still (rw (reopen, set, f) refl)
    ]
  ]

  null-stuck :
      connection ≡ none
      → create_account registry connection connecting candidate a w ≡ stuck null_pointer
  unfolding create_account reopen
  null-stuck e = rw (create_account, e) refl

  settled :
      IsValid w.memory.bank_db
      → Reopened (reopen registry connection connecting w)
      → Settles (create_account registry connection connecting candidate a w)
  settled valid (open_now h) = opened valid h
  settled valid (shut_still h) = closed h
  settled valid (thrown_out e h) = unreached e h

  -- `create_account` on a valid table of users, with any server, any functions on passwords and any
  -- candidates for the account number: where `connect_database` is null it is dereferenced, and
  -- otherwise the call returns, sends one message (if there is a connection) and leaves memory as
  -- it was. Either the message is "Success", and the database is what the commit made of a
  -- transaction in which one of the candidates was inserted, none before it having affected a row
  -- or thrown, for a user whom memory does not have and whose hash the password matches, or for a
  -- new user with the hash of the password; or the same but for the message, which is "ERROR", and
  -- the commit, which threw in doubt; or the message is not "Success", the database is what it was,
  -- and the request did not deserve better: the connection does not open, there is no such user and
  -- candidate, or the commit does not take effect.
  pub create_account_lem :
      IsValid w.memory.bank_db → Ends (create_account registry connection connecting candidate a w)
  create_account_lem valid = elim (Option-cases connection) [
    | inl e ↦ inl (e, null-stuck e)
    | inr (b, e) ↦
        let out : Reopened (reopen registry connection connecting w) =
          subst (λ c. Reopened (reopen registry c connecting w)) (sym e) (reopen-out b) in
        inr ((λ n. cc (e, n)), settled valid out)
  ]

  -- With a connection to the database, a request of a user whom the valid table of users in memory
  -- has ends in "Invalid username or password", whatever the password, and changes nothing.
  pub create_account-loaded :
      (id : ℤ) (p : UserPtr)
      → IsValid w.memory.bank_db
      → reopen registry connection connecting w ≡ done true w
      → a.user_id ≡ some id
      → view w.memory.bank_db id ≡ some p
      → create_account registry connection connecting candidate a w
        ≡ done tt (told a.connection "Invalid username or password" w)
  unfolding create_account check_existing known open_account send
  create_account-loaded id p valid opens who loaded = rw (
    opens,
    check-known registry candidate a w id who,
    find-view w.memory.bank_db id valid,
    loaded,
  )

module _ (registry : Registry) ⦃key : Key ℤ⦄ where
  open registry use {Work, insert_account}

  -- After a `sql_error` on a candidate for the account number, the loop inserts no account,
  -- whatever the attempts that are left and the candidates that follow.
  pub insert_number-collision :
      (candidate : ℕ → String) (id : ℤ) (a : AccountCreationRequest) (left attempt : ℕ)
      (text : String) (work work' : Work)
      → insert_account id a (candidate attempt) work ≡ (fails (sql_error text), work')
      → insert_number registry candidate id a (suc left) attempt work ≡ result none
  insert_number-collision candidate id a left attempt text work work' e =
      insert_number-aborts registry candidate a id left attempt text work work' e
