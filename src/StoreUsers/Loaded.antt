-- ===== src/StoreUsers/Loaded.antt =====
-- Which users `store_users` loads.
use concurrent_banking_syste.Prelude.{
  ◌≡◌, refl, ap, ◌∙◌, ◌⊎◌, inl, inr, Bool, true, false, ◌||◌, Option, none, some, List, [], ◌∷◌,
  ◌++◌, arith, All, length, if◌then◌else◌, Bool-cases,
}
use concurrent_banking_syste.Prelude.Int.{ℤ, eqb_ℤ, eqb_ℤ_iff}
use concurrent_banking_syste.Run.{Run, ok, Returns, ◌>>=◌}
use concurrent_banking_syste.Exec.{done, Action, ◌>>◌, give}
use concurrent_banking_syste.HashTable.{HashTable, Key}
use concurrent_banking_syste.HashTable.Placed.{view, IsValid}
use concurrent_banking_syste.HashTable.Empty.{new-IsValid}
use concurrent_banking_syste.HashTable.Methods.{insert-Writes}
use concurrent_banking_syste.HashTable.IntKey.{equal-eqb}
use concurrent_banking_syste.Account.{Account}
use concurrent_banking_syste.Transaction.{Transaction}
use concurrent_banking_syste.User.{User, AccountPtr}
use concurrent_banking_syste.Memory.{Memory}
use concurrent_banking_syste.StoreUsers.{
  Row, Loading, start, no_transactions, no_accounts, or_minus_one, or_empty, read_transaction,
  read_account, read_user, add_transaction, add_account, add_user, close_account,
  close_last_account, stage, store_user_row, store_last_row, store_row, store_last, store_rows,
  store_users, forget,
}

-- A field that is not null.
abbrev pub Given : {A : Type 0} → Option A → Type 0
Given {A} o = (a : A) × (o ≡ some a)

-- The fields that are read from a row: all of its user's, and those of its account and its transaction
-- if it has one.
pub record HasUser (r : Row) : Type 0 where
  pub user_id : Given r.user_id
  pub full_name : Given r.full_name
  pub address : Given r.address
  pub mobile : Given r.mobile
  pub email : Given r.email
  pub gender : Given r.gender
  pub nid : Given r.nid
  pub password_hash : Given r.password_hash
  pub user_created_at : Given r.user_created_at
  pub user_updated_at : Given r.user_updated_at
  pub login_status : Given r.login_status

pub record HasAccount (r : Row) : Type 0 where
  pub account_id : Given r.account_id
  pub account_number : Given r.account_number
  pub account_holder : Given r.account_holder
  pub actual_balance : Given r.actual_balance
  pub available_balance : Given r.available_balance
  pub hold_amount : Given r.hold_amount
  pub account_status : Given r.account_status
  pub account_type : Given r.account_type
  pub account_created_at : Given r.account_created_at
  pub account_updated_at : Given r.account_updated_at

pub record HasTransaction (r : Row) : Type 0 where
  pub transaction_id : Given r.transaction_id
  pub transaction_amount : Given r.transaction_amount
  pub transaction_type : Given r.transaction_type
  pub remarks : Given r.remarks
  pub transaction_status : Given r.transaction_status
  pub transaction_at : Given r.transaction_at

pub record IsWhole (r : Row) : Type 0 where
  pub user : HasUser r
  pub account : (r.account_id ≡ none) ⊎ HasAccount r
  pub transaction : (r.transaction_id ≡ none) ⊎ HasTransaction r

read_transaction-whole :
    (id : ℤ) (r : Row) → HasTransaction r → (t : Transaction) × (read_transaction id r ≡ ok t)
unfolding read_transaction
read_transaction-whole id r h = (
  record {
    transaction_id = id;
    from_account = r.from_account;
    to_account = r.to_account;
    transaction_amount = h.transaction_amount.0;
    receiver_name = or_empty r.receiver_name;
    receiver_mobile = or_empty r.receiver_mobile;
    remarks = h.remarks.0;
    transaction_status = h.transaction_status.0;
    transaction_at = h.transaction_at.0;
    transaction_type = h.transaction_type.0;
  },
  rw (
    h.transaction_amount.1, h.transaction_type.1, h.remarks.1, h.transaction_status.1,
    h.transaction_at.1,
  ),
)

read_account-whole :
    (id : ℤ) (r : Row) (ts : HashTable ℤ Transaction)
    → HasAccount r
    → (a : Account) × (read_account id r ts ≡ ok a)
unfolding read_account
read_account-whole id r ts h = (
  record {
    account_id = id;
    account_number = h.account_number.0;
    account_holder = h.account_holder.0;
    actual_balance = h.actual_balance.0;
    available_balance = h.available_balance.0;
    hold_amount = h.hold_amount.0;
    account_status = h.account_status.0;
    account_type = h.account_type.0;
    account_created_at = h.account_created_at.0;
    account_updated_at = h.account_updated_at.0;
    transactions = ts;
    mutex = false;
  },
  rw (
    h.account_number.1, h.account_holder.1, h.actual_balance.1, h.available_balance.1,
    h.hold_amount.1, h.account_status.1, h.account_type.1, h.account_created_at.1,
    h.account_updated_at.1,
  ),
)

read_user-whole :
    (id : ℤ) (r : Row) (accounts : HashTable ℤ AccountPtr)
    → HasUser r
    → (u : User) × (read_user id r accounts ≡ ok u)
unfolding read_user
read_user-whole id r accounts h = (
  record {
    user_id = id;
    full_name = h.full_name.0;
    address = h.address.0;
    mobile = h.mobile.0;
    email = h.email.0;
    gender = h.gender.0;
    nid = h.nid.0;
    password_hash = h.password_hash.0;
    user_created_at = h.user_created_at.0;
    user_updated_at = h.user_updated_at.0;
    login_status = h.login_status.0;
    accounts = accounts;
  },
  rw (
    h.full_name.1, h.address.1, h.mobile.1, h.email.1, h.gender.1, h.nid.1, h.password_hash.1,
    h.user_created_at.1, h.user_updated_at.1, h.login_status.1,
  ),
)

abbrev pub present : {V : Type 0} → Option V → Bool
present none = false
present (some _) = true

-- Whether a row, or one of the rows, is of the user `q`.
abbrev pub of_user : ℤ → Option ℤ → Bool
of_user q none = false
of_user q (some id) = eqb_ℤ id q

abbrev pub loads : ℤ → List Row → Bool
loads q [] = false
loads q (r ∷ rs) = of_user q r.user_id || loads q rs

staged : (f : Loading → Run Loading) {l l' : Loading} → f l ≡ ok l' → stage f l ≡ done tt l'
unfolding stage
staged f e = rw (stage, e)

next_step :
    (m k : Action Loading (Unit {0})) {l l' : Loading} → m l ≡ done tt l' → (m >> k) l ≡ k l'
next_step m k e = rw e

twice : (a b : Bool) → (a || b) ≡ (a || (b || b))
twice a b = ground arith

regroup : (a b c : Bool) → ((a || b) || c) ≡ (a || (b || c))
regroup a b c = ground arith

add_none : (a b : Bool) → (a || b) ≡ (a || (b || false))
add_none a b = ground arith

no_more : (a : Bool) → a ≡ (a || false)
no_more a = ground arith

carry :
    (b a r n more : Bool)
    → (b || n) ≡ (a || (r || n))
    → (b || (n || more)) ≡ (a || (r || (n || more)))
carry b a r n more h = ground arith

module _ ⦃key : Key ℤ⦄ where
  record Good (l : Loading) : Type 0 where
    transactions : IsValid l.transactions
    accounts : IsValid l.accounts
    users : IsValid l.memory.bank_db

  transaction-Good :
      (r : Row) (l : Loading)
      → IsWhole r
      → Good l
      → Returns (add_transaction r l) λ l'. Good l' × (l'.memory ≡ l.memory)
  unfolding add_transaction
  transaction-Good r l whole g = elim whole.transaction [
    | inl e ↦ (l, rw e, (g, refl))
    | inr h ↦
        let (id, e) = h.transaction_id in
        let (t, reads) = read_transaction-whole id r h in
        let (ts, run, w) = insert-Writes l.transactions g.transactions id t in
        (
          record l { transactions = ts },
          rw (e, reads, ◌>>=◌, run),
          (record { transactions = w.valid; accounts = g.accounts; users = g.users }, refl),
        )
  ]

  empty-Good : IsValid no_transactions × IsValid no_accounts
  empty-Good = (new-IsValid 16 (omega arith), new-IsValid 16 (omega arith))

  account-Good :
      (id : ℤ) (r : Row) (l : Loading)
      → HasAccount r
      → Good l
      → Returns (add_account id r l) λ l'. Good l' × (l'.memory.bank_db ≡ l.memory.bank_db)
  unfolding add_account
  account-Good id r l h g =
      let (a, reads) = read_account-whole id r l.transactions h in
      let (as_, run, w) = insert-Writes l.accounts g.accounts id (length l.memory.accounts) in
      (
        record {
          transactions = no_transactions;
          accounts = as_;
          memory = record l.memory { accounts = l.memory.accounts ++ a ∷ [] };
        },
        rw (reads, ◌>>=◌, run),
        (record { transactions = empty-Good.0; accounts = w.valid; users = g.users }, refl),
      )

  user-Good :
      (id : ℤ) (r : Row) (l : Loading)
      → HasUser r
      → Good l
      → Returns (add_user id r l) λ l'.
        Good l'
        × ((q : ℤ)
            → present (view l'.memory.bank_db q)
              ≡ (present (view l.memory.bank_db q) || eqb_ℤ id q))
  unfolding add_user
  user-Good id r l h g =
      let (u, reads) = read_user-whole id r l.accounts h in
      let (db, run, w) = insert-Writes l.memory.bank_db g.users id (length l.memory.users) in
      (
        record {
          transactions = no_transactions;
          accounts = no_accounts;
          memory = record l.memory { users = l.memory.users ++ u ∷ []; bank_db = db };
        },
        rw (reads, ◌>>=◌, run),
        (
          record { transactions = empty-Good.0; accounts = empty-Good.1; users = w.valid },
          λ q. ground (arith, w.reads q, equal-eqb id q),
        ),
      )

  close-Good :
      (r : Row) (other : ℤ) (l : Loading)
      → IsWhole r
      → Good l
      → Returns (close_account r other l) λ l'. Good l' × (l'.memory.bank_db ≡ l.memory.bank_db)
  unfolding close_account
  close-Good r other l whole g = elim whole.account [
    | inl e ↦ (l, rw e, (g, refl))
    | inr h ↦
        let (id, e) = h.account_id in
        elim (Bool-cases (eqb_ℤ id other)) [
          | inl same ↦ (l, rw (e, same), (g, refl))
          | inr differs ↦
              let (l', run, kept) = account-Good id r l h g in
              (
                l',
                ap
                      (λ o. elim o [
                        | none ↦ ok l
                        | some i ↦ if eqb_ℤ i other then ok l else add_account i r l
                      ])
                      e
                    ∙ rw (differs, run),
                kept,
              )
        ]
  ]

  close_last-Good :
      (r : Row) (l : Loading)
      → IsWhole r
      → Good l
      → Returns (close_last_account r l) λ l'. Good l' × (l'.memory.bank_db ≡ l.memory.bank_db)
  unfolding close_last_account
  close_last-Good r l whole g = elim whole.account [
    | inl e ↦ (l, rw e, (g, refl))
    | inr h ↦
        let (id, e) = h.account_id in
        let (l', run, kept) = account-Good id r l h g in
        (l', ap (λ o. elim o [ none ↦ ok l | some i ↦ add_account i r l ]) e ∙ run, kept)
  ]

  -- The users of `l'` are those of `l` and those that `more` says.
  record Loads (l l' : Loading) (more : ℤ → Bool) : Type 0 where
    good : Good l'
    users :
        (q : ℤ) → present (view l'.memory.bank_db q) ≡ (present (view l.memory.bank_db q) || more q)

  store_last-user : (r : Row) (id : ℤ) → r.user_id ≡ some id → store_last r ≡ store_last_row id r
  unfolding store_last
  store_last-user r id e = ap (λ o. elim o [ none ↦ give tt | some i ↦ store_last_row i r ]) e

  store_row-user :
      (r next : Row) (id : ℤ) → r.user_id ≡ some id → store_row r next ≡ store_user_row id r next
  unfolding store_row
  store_row-user r next id e =
      ap (λ o. elim o [ none ↦ give tt | some i ↦ store_user_row i r next ]) e

  last-Loads :
      (r : Row) (l : Loading)
      → IsWhole r
      → Good l
      → (l' : Loading) × (store_last r l ≡ done tt l') × Loads l l' (λ q. of_user q r.user_id)
  unfolding store_last_row stage
  last-Loads r l whole g =
      let (id, e) = whole.user.user_id in
      let (l1, run1, (g1, same1)) = transaction-Good r l whole g in
      let (l2, run2, (g2, same2)) = close_last-Good r l1 whole g1 in
      let (l3, run3, (g3, reads)) = user-Good id r l2 whole.user g2 in
      let same : l2.memory.bank_db ≡ l.memory.bank_db = same2 ∙ ap (λ m. m.bank_db) same1 in
      (
        l3,
        ap (λ f. f l) (store_last-user r id e)
            ∙ next_step (stage (add_transaction r) >> stage (close_last_account r))
                (stage (add_user id r))
                (next_step (stage (add_transaction r)) (stage (close_last_account r))
                    (staged (add_transaction r) run1)
                  ∙ staged (close_last_account r) run2)
            ∙ staged (add_user id r) run3,
        record {
          good = g3;
          users = λ q. rw e (reads q ∙ ap (λ t. present (view t q) || eqb_ℤ id q) same);
        },
      )

  -- A row whose user goes on in the next row leaves the user to that row.
  row-Loads :
      (r next : Row) (l : Loading)
      → IsWhole r
      → IsWhole next
      → Good l
      → (l' : Loading) × (store_row r next l ≡ done tt l')
        × Good l'
        × ((q : ℤ)
            → (present (view l'.memory.bank_db q) || of_user q next.user_id) ≡ (
                present (view l.memory.bank_db q)
                || (of_user q r.user_id || of_user q next.user_id)))
  unfolding store_user_row stage
  row-Loads r next l whole whole' g =
      let (id, e) = whole.user.user_id in
      let (id', e') = whole'.user.user_id in
      let (l1, run1, (g1, same1)) = transaction-Good r l whole g in
      let (l2, run2, (g2, same2)) = close-Good r (or_minus_one next.account_id) l1 whole g1 in
      let same : l2.memory.bank_db ≡ l.memory.bank_db = same2 ∙ ap (λ m. m.bank_db) same1 in
      elim (Bool-cases (eqb_ℤ id id')) [
        | inl goes_on ↦ (
          l2,
          ap (λ f. f l) (store_row-user r next id e)
              ∙ next_step
                  (stage (add_transaction r)
                    >> stage (close_account r (or_minus_one next.account_id)))
                  (if eqb_ℤ id (or_minus_one next.user_id) then give tt else stage (add_user id r))
                  (next_step (stage (add_transaction r))
                      (stage (close_account r (or_minus_one next.account_id)))
                      (staged (add_transaction r) run1)
                    ∙ staged (close_account r (or_minus_one next.account_id)) run2)
              ∙ ap (λ o. (if eqb_ℤ id (or_minus_one o) then give tt else stage (add_user id r)) l2)
                  e'
              ∙ rw goes_on,
          g2,
          λ q.
              rw (e, e', ← (eqb_ℤ_iff id id').0 goes_on, same)
                (twice (present (view l.memory.bank_db q)) (eqb_ℤ id q)),
        )
        | inr ends ↦
            let (l3, run3, (g3, reads)) = user-Good id r l2 whole.user g2 in
            (
              l3,
              ap (λ f. f l) (store_row-user r next id e)
                  ∙ next_step
                      (stage (add_transaction r)
                        >> stage (close_account r (or_minus_one next.account_id)))
                      (if eqb_ℤ id (or_minus_one next.user_id)
                        then give tt
                        else stage (add_user id r))
                      (next_step (stage (add_transaction r))
                          (stage (close_account r (or_minus_one next.account_id)))
                          (staged (add_transaction r) run1)
                        ∙ staged (close_account r (or_minus_one next.account_id)) run2)
                  ∙ ap
                      (λ o.
                        (if eqb_ℤ id (or_minus_one o) then give tt else stage (add_user id r)) l2)
                      e'
                  ∙ rw ends (staged (add_user id r) run3),
              g3,
              λ q.
                  rw (e, e', reads q, same)
                    (regroup (present (view l.memory.bank_db q)) (eqb_ℤ id q) (eqb_ℤ id' q)),
            )
      ]

  rows-Loads :
      (r : Row) (rs : List Row) (l : Loading)
      → IsWhole r
      → All IsWhole rs
      → Good l
      → (l' : Loading) × (store_rows r rs l ≡ done tt l') × Loads l l' (λ q. loads q (r ∷ rs))
  unfolding store_rows
  rows-Loads r [] l whole all g =
      let (l', run, x) = last-Loads r l whole g in
      (
        l',
        run,
        record {
          good = x.good;
          users =
              λ q. x.users q ∙ add_none (present (view l.memory.bank_db q)) (of_user q r.user_id);
        },
      )
  rows-Loads r (next ∷ rs) l whole all g =
      let (l1, run1, g1, reads) = row-Loads r next l whole all.0 g in
      let (l2, run2, x) = rows-Loads next rs l1 all.0 all.1 g1 in
      (
        l2,
        rw (run1, run2),
        record {
          good = x.good;
          users = λ q.
              x.users q
              ∙ carry (present (view l1.memory.bank_db q)) (present (view l.memory.bank_db q))
                  (of_user q r.user_id) (of_user q next.user_id) (loads q rs) (reads q);
        },
      )

  -- `store_users`, on rows in which no field that is read is null and on a valid table of users,
  -- always returns and leaves a valid table. It has a user exactly where it had one before or one
  -- of the rows is of that user.
  pub store_users_lem :
      (rows : List Row) (m : Memory)
      → All IsWhole rows
      → IsValid m.bank_db
      → (m' : Memory) × (store_users rows m ≡ done tt m')
        × IsValid m'.bank_db
        × ((q : ℤ) → present (view m'.bank_db q) ≡ (present (view m.bank_db q) || loads q rows))
  unfolding store_users forget
  store_users_lem [] m all valid = (m, refl, valid, λ q. no_more (present (view m.bank_db q)))
  store_users_lem (r ∷ rs) m all valid =
      let (l', run, x) =
        rows-Loads r rs (start m) all.0 all.1
          (record { transactions = empty-Good.0; accounts = empty-Good.1; users = valid }) in
      (l'.memory, rw run, x.good.users, x.users)
