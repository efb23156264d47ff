-- ===== src/Bank/Index.antt =====
-- The index from accounts to users that the constructor of `Bank` builds in backend/include/bank.hpp.
use mathlib.Core.List.{Memᴰ}
use mathlib.Core.List.Memᴰ
use mathlib.Core.Path.{subst}
use concurrent_banking_syste.Prelude.{
  ◌≡◌, ◌≤◌, ◌⊎◌, inl, inr, refl, sym, ap, ◌∙◌, Option, none, some, List, [], ◌∷◌, get_elem?, All,
  arith, Bool-cases, Option-cases,
}
use concurrent_banking_syste.Prelude.Int.{ℤ}
use concurrent_banking_syste.Bank.Progress.{some-inj}
use concurrent_banking_syste.Run.{ok, Returns}
use concurrent_banking_syste.HashTable
use concurrent_banking_syste.HashTable.{HashTable, Key, get_all, find_in, default_buckets}
use concurrent_banking_syste.HashTable.Placed.{view, IsValid}
use concurrent_banking_syste.HashTable.Bucket.{count}
use concurrent_banking_syste.HashTable.Empty.{new-IsValid, view-new}
use concurrent_banking_syste.HashTable.Methods.{find-view, insert-Writes}
use concurrent_banking_syste.HashTable.Snapshot.{get_all-view}
use concurrent_banking_syste.User.{User, AccountPtr, UserPtr}
use concurrent_banking_syste.Memory.Reads.{user_at-ok, All-listed}
use concurrent_banking_syste.Memory.{Memory, find_account, index_accounts, index_users, construct}

module _ ⦃key : Key ℤ⦄ where
  abbrev owned_by : ℤ → Option AccountPtr → Option ℤ → Option ℤ
  owned_by user_id none old = old
  owned_by user_id (some _) old = some user_id

  index_accounts_lem :
      (user_id : ℤ) (es : List (ℤ × AccountPtr)) (index : HashTable ℤ ℤ)
      → IsValid index
      → Returns (index_accounts user_id es index) λ index'.
        IsValid index' × ((a : ℤ) → view index' a ≡ owned_by user_id (find_in a es) (view index a))
  unfolding index_accounts find_in
  index_accounts_lem user_id [] index v = (index, refl, (v, λ a. refl))
  index_accounts_lem user_id (e ∷ es) index v =
      let (i, run, w) = insert-Writes index v e.0 user_id in
      let (j, runs, (v', reads)) = index_accounts_lem user_id es i w.valid in
      (j, rw (run, runs), (v', λ a. ground (arith, reads a, w.reads a)))

  -- The user `user_id`, listed in `es`, has the account `a` at `q`.
  pub record Owns (m : Memory) (es : List (ℤ × UserPtr)) (user_id a : ℤ) (q : AccountPtr)
      : Type 0 where
    pub ptr : UserPtr
    pub user : User
    pub listed : Memᴰ (user_id, ptr) es
    pub at_user : get_elem? m.users ptr ≡ some user
    pub has : view user.accounts a ≡ some q

  abbrev pub Nobody : Memory → List (ℤ × UserPtr) → ℤ → Type 0
  Nobody m es a = (user_id : ℤ) (q : AccountPtr) → ¬ Owns m es user_id a q

  -- Every user of the list can be read, and has a valid table.
  abbrev pub Readable : Memory → List (ℤ × UserPtr) → Type 0
  Readable m =
      All (λ (e : ℤ × UserPtr). (u : User) × (get_elem? m.users e.1 ≡ some u) × IsValid u.accounts)

  abbrev Indexed : Memory → List (ℤ × UserPtr) → HashTable ℤ ℤ → HashTable ℤ ℤ → Type 0
  Indexed m es index index' =
      (a : ℤ)
      → ((view index' a ≡ view index a) × Nobody m es a)
        ⊎ ((user_id : ℤ) × (q : AccountPtr) × Owns m es user_id a q
            × (view index' a ≡ some user_id))

  Owns-tail :
      {m : Memory} {e : ℤ × UserPtr} {es : List (ℤ × UserPtr)} {user_id a : ℤ} {q : AccountPtr}
      → Owns m es user_id a q
      → Owns m (e ∷ es) user_id a q
  Owns-tail o = record {
    ptr = o.ptr;
    user = o.user;
    listed = Memᴰ.tail o.listed;
    at_user = o.at_user;
    has = o.has;
  }

  module _ (m : Memory) (e : ℤ × UserPtr) (es : List (ℤ × UserPtr)) (u : User)
      (at : get_elem? m.users e.1 ≡ some u) (a : ℤ) where
    Nobody-cons : view u.accounts a ≡ none → Nobody m es a → Nobody m (e ∷ es) a
    Nobody-cons missing nobody user_id q o = elim (Memᴰ.cases_cons o.listed) [
      | inl here ↦
          let same_ptr : o.ptr ≡ e.1 = ap (λ (x : ℤ × UserPtr). x.1) here in
          let same_user : get_elem? m.users e.1 ≡ some o.user = rw same_ptr at o.at_user in
          let one : some u ≡ some o.user = sym at ∙ same_user in cc (missing, o.has, one)
      | inr there ↦
          nobody user_id q (record {
            ptr = o.ptr;
            user = o.user;
            listed = there;
            at_user = o.at_user;
            has = o.has;
          })
    ]

    Owns-head : {q : AccountPtr} → view u.accounts a ≡ some q → Owns m (e ∷ es) e.0 a q
    Owns-head has = record { ptr = e.1; user = u; listed = Memᴰ.head refl; at_user = at; has = has }

  index_users_lem :
      (m : Memory) (es : List (ℤ × UserPtr)) (index : HashTable ℤ ℤ)
      → IsValid index
      → Readable m es
      → Returns (index_users m es index) λ index'. IsValid index' × Indexed m es index index'
  unfolding index_users
  index_users_lem m [] index v readable =
      (index, refl, (v, λ a. inl (refl, λ user_id q o. Memᴰ.not-nil o.listed)))
  index_users_lem m (e ∷ es) index v ((u, at, uv), readable) =
      let (i, run, (iv, reads)) = index_accounts_lem e.0 (get_all u.accounts) index v in
      let (j, runs, (jv, indexed)) = index_users_lem m es i iv readable in
      let here : (a : ℤ) → view i a ≡ owned_by e.0 (view u.accounts a) (view index a) =
        λ a. reads a ∙ ap (λ o. owned_by e.0 o (view index a)) (get_all-view a u.accounts uv).0 in
      (
        j,
        rw (user_at-ok e.1 m at, run, runs),
        (
          jv,
          λ a. elim (indexed a) [
            | inr (user_id, q, o, there) ↦ inr (user_id, q, Owns-tail o, there)
            | inl (same, nobody) ↦ elim (Option-cases (view u.accounts a)) [
              | inl missing ↦
                  inl (same ∙ here a ∙ rw missing refl, Nobody-cons m e es u at a missing nobody)
              | inr (q, has) ↦
                  inr (e.0, q, Owns-head m e es u at a has, same ∙ here a ∙ rw has refl)
            ]
          ],
        ),
      )

  count-listed : (k : ℤ) (p : UserPtr) (es : List (ℤ × UserPtr)) → Memᴰ (k, p) es → 1 ≤ count k es
  unfolding count
  count-listed k p [] l = absurd (Memᴰ.not-nil l)
  count-listed k p (e ∷ es) l = elim (Memᴰ.cases_cons l) [
    | inl here ↦
        let same : k ≡ e.0 = ap (λ (x : ℤ × UserPtr). x.0) here in
        rw ((key.equal_iff e.0 k).1 (sym same)) (omega arith)
    | inr there ↦ ground (arith, count-listed k p es there)
  ]

  -- A key that is listed once leads to the value that it is listed with.
  find_in-listed :
      (k : ℤ) (p : UserPtr) (es : List (ℤ × UserPtr))
      → Memᴰ (k, p) es
      → count k es ≤ 1
      → find_in k es ≡ some p
  unfolding find_in count
  find_in-listed k p [] l once = absurd (Memᴰ.not-nil l)
  find_in-listed k p (e ∷ es) l once = elim (Memᴰ.cases_cons l) [
    | inl here ↦
        let same : k ≡ e.0 = ap (λ (x : ℤ × UserPtr). x.0) here in
        rw ((key.equal_iff e.0 k).1 (sym same)) (ap some (sym (ap (λ (x : ℤ × UserPtr). x.1) here)))
    | inr there ↦ elim (Bool-cases (key.equal e.0 k)) [
      | inl same ↦ absurd (omega (arith, count-listed k p es there, rw same at once))
      | inr other ↦
          let less : count k es ≤ 1 = omega (arith, rw other at once) in
          rw other (find_in-listed k p es there less)
    ]
  ]

  module _ (m : Memory) (index : HashTable ℤ ℤ) (iv : IsValid index) (a : ℤ) where
    abbrev indexed_memory : Memory
    indexed_memory = record m { account_to_user = index }

    find_account-missing : view index a ≡ none → find_account a indexed_memory ≡ ok none
    unfolding find_account
    find_account-missing missing = rw (find-view index a iv, missing) refl

    find_account-Owns :
        (user_id : ℤ) (q : AccountPtr)
        → IsValid m.bank_db
        → Readable m (get_all m.bank_db)
        → Owns m (get_all m.bank_db) user_id a q
        → view index a ≡ some user_id
        → find_account a indexed_memory ≡ ok (some q)
    unfolding find_account
    find_account-Owns user_id q v readable o there =
        let (listing, once) = get_all-view user_id m.bank_db v in
        let found : view m.bank_db user_id ≡ some o.ptr =
          sym listing ∙ find_in-listed user_id o.ptr (get_all m.bank_db) o.listed once in
        let (u, at, uv) = All-listed _ (get_all m.bank_db) readable (user_id, o.ptr) o.listed in
        let one : some u ≡ some o.user = sym at ∙ o.at_user in
        let table : IsValid o.user.accounts =
          subst (λ (x : User). IsValid x.accounts) (some-inj one) uv in
        rw
          (
            find-view index a iv,
            there,
            find-view m.bank_db user_id v,
            found,
            user_at-ok o.ptr indexed_memory o.at_user,
            find-view o.user.accounts a table,
            o.has,
          )
          refl

  -- The constructor of `Bank`, on a valid table of users, each of whom can be read and has a valid
  -- table of accounts: it always returns, changes the index alone and leaves it valid, and with it
  -- `findAccount` gives some user's account for each id that a user has an account with, and none
  -- for every other id.
  pub construct_lem :
      (m : Memory)
      → IsValid m.bank_db
      → Readable m (get_all m.bank_db)
      → Returns (construct m) λ m'.
        (m' ≡ record m { account_to_user = m'.account_to_user })
        × IsValid m'.account_to_user
        × ((a : ℤ)
            → ((find_account a m' ≡ ok none) × Nobody m (get_all m.bank_db) a)
              ⊎ ((user_id : ℤ) × (q : AccountPtr) × Owns m (get_all m.bank_db) user_id a q
                  × (find_account a m' ≡ ok (some q))))
  unfolding construct
  construct_lem m v readable =
      let nv = new-IsValid {K = ℤ} {V = ℤ} default_buckets (omega arith) in
      let (i, run, (iv, indexed)) =
        index_users_lem m (get_all m.bank_db) (HashTable.new ℤ ℤ default_buckets) nv readable in
      (
        record m { account_to_user = i },
        rw run,
        (
          refl,
          iv,
          λ a. elim (indexed a) [
            | inl (same, nobody) ↦
                let missing = same ∙ view-new {K = ℤ} {V = ℤ} default_buckets a in
                inl (find_account-missing m i iv a missing, nobody)
            | inr (user_id, q, o, there) ↦
                inr (user_id, q, o, find_account-Owns m i iv a user_id q v readable o there)
          ],
        ),
      )
