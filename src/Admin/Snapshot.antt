-- ===== src/Admin/Snapshot.antt =====
-- What the snapshot of the users in backend/include/web_socket_controllers.hpp shows, and when it is
-- never sent.
use mathlib.Core.List.{Memᴰ}
use mathlib.Core.Path.{subst}
use concurrent_banking_syste.Prelude.{
  ◌≡◌, ◌⊎◌, inl, inr, refl, sym, ap, ◌∙◌, Bool, true, false, Bool-cases, Option, some, List, [],
  get_elem?, length, All,
}
use concurrent_banking_syste.Prelude.Int.{ℤ}
use concurrent_banking_syste.Run.{ok, fault, blocked, Returns}
use concurrent_banking_syste.HashTable.{HashTable, Key, get_all}
use concurrent_banking_syste.HashTable.Placed.{view, IsValid}
use concurrent_banking_syste.HashTable.Snapshot.{get_all-view}
use concurrent_banking_syste.Account
use concurrent_banking_syste.Account.{Account}
use concurrent_banking_syste.User.{User, AccountPtr, UserPtr}
use concurrent_banking_syste.Memory.{Memory}
use concurrent_banking_syste.Memory.Reads.{user_at-ok, account_at-ok, All-listed}
use concurrent_banking_syste.Admin.{
  Node, account_object, account_node, user_object, user_node, snapshot_object, build_users_snapshot,
}
use concurrent_banking_syste.Admin.Loops.{
  length-Each, Each-listed, append_each-Each, append_each-blocked, append_each-either,
  find_in-listed,
}

account_node-free :
    (m : Memory) (id : ℤ) (q : AccountPtr) (a : Account)
    → get_elem? m.accounts q ≡ some a
    → a.mutex ≡ false
    → account_node m (id, q) ≡ ok (account_object id a a.actual_balance a.available_balance)
unfolding account_node Account.get_actual_balance Account.get_available_balance Account.lock
account_node-free m id q a at free = rw (account_at-ok q m at, free) refl

account_node-blocked :
    (m : Memory) (id : ℤ) (q : AccountPtr) (a : Account)
    → get_elem? m.accounts q ≡ some a
    → a.mutex ≡ true
    → account_node m (id, q) ≡ fault blocked
unfolding account_node Account.get_actual_balance Account.lock
account_node-blocked m id q a at held = rw (account_at-ok q m at, held) refl

-- Every account of the user can be read, and has a mutex that is free where `free` asks for it.
abbrev pub Reads : Bool → Memory → ℤ × AccountPtr → Type 0
Reads free m e =
    (a : Account) × (get_elem? m.accounts e.1 ≡ some a) × (free ≡ true → a.mutex ≡ false)

-- The object of a user shows each of the accounts once, with its balances.
abbrev pub AccountShown : Memory → ℤ × AccountPtr → Node → Type 0
AccountShown m e n =
    (a : Account)
    → get_elem? m.accounts e.1 ≡ some a
    → n ≡ account_object e.0 a a.actual_balance a.available_balance

module _ ⦃key : Key ℤ⦄ where
  abbrev pub Readable : Bool → Memory → ℤ × UserPtr → Type 0
  Readable free m e =
      (u : User) × (get_elem? m.users e.1 ≡ some u)
      × IsValid u.accounts
      × All (Reads free m) (get_all u.accounts)

  -- The object of the user `user_id` has an object for each account of the map of the user.
  abbrev pub UserShown : Memory → ℤ → User → Node → Type 0
  UserShown m user_id u n =
      (accounts : List Node) × (n ≡ user_object user_id u accounts)
      × (length accounts ≡ length (get_all u.accounts))
      × ((id : ℤ) (q : AccountPtr) (a : Account)
          → view u.accounts id ≡ some q
          → get_elem? m.accounts q ≡ some a
          → Memᴰ (account_object id a a.actual_balance a.available_balance) accounts)

  abbrev Shown : Memory → ℤ × UserPtr → Node → Type 0
  Shown m e n = (u : User) → get_elem? m.users e.1 ≡ some u → UserShown m e.0 u n

  some-same : {A : Type 0} {o : Option A} {x y : A} → o ≡ some x → o ≡ some y → x ≡ y
  some-same h k = cc (h, k)

  account_node-Reads :
      (m : Memory) (e : ℤ × AccountPtr)
      → Reads true m e
      → Returns (account_node m e) (AccountShown m e)
  account_node-Reads m (id, q) (a, at, free) = (
    account_object id a a.actual_balance a.available_balance,
    account_node-free m id q a at (free refl),
    λ b at'.
        ap (λ (x : Account). account_object id x x.actual_balance x.available_balance)
          (some-same at at'),
  )

  listed-view :
      {V : Type 0} (t : HashTable ℤ V) (k : ℤ) (v : V)
      → IsValid t
      → view t k ≡ some v
      → Memᴰ (k, v) (get_all t)
  listed-view t k v valid h = find_in-listed k v (get_all t) ((get_all-view k t valid).0 ∙ h)

  user_node-Readable :
      (m : Memory) (e : ℤ × UserPtr) → Readable true m e → Returns (user_node m e) (Shown m e)
  unfolding user_node
  user_node-Readable m (user_id, p) (u, at, valid, reads) =
      let es = get_all u.accounts in
      let (ns, run, (added, eq, each)) =
        append_each-Each (account_node m) (AccountShown m) es []
          (λ f l. account_node-Reads m f (All-listed _ es reads f l)) in
      (
        user_object user_id u ns,
        rw (user_at-ok p m at, run) refl,
        λ w at'.
            subst (λ (x : User). UserShown m user_id x (user_object user_id u ns))
              (some-same at at')
              (
                ns,
                refl,
                ap length eq ∙ length-Each each,
                λ id q a has there.
                    let (n, listed, shown) =
                      Each-listed each (listed-view u.accounts id q valid has) in
                    subst
                      (λ (l : List Node).
                        Memᴰ (account_object id a a.actual_balance a.available_balance) l)
                      (sym eq) (subst (λ (x : Node). Memᴰ x added) (shown a there) listed),
              ),
      )

  -- `buildUsersSnapshot`, on a bank with a valid table of users, each of whom can be read and has a
  -- valid table of accounts, all with free mutexes: it always returns, with one object for each
  -- user, and the object of a user shows every account of that user's map, with both balances, and
  -- has no more objects than there are accounts.
  pub users_snapshot_lem :
      (m : Memory)
      → IsValid m.bank_db
      → All (Readable true m) (get_all m.bank_db)
      → Returns (build_users_snapshot (some m)) λ root.
        (users : List Node) × (root ≡ snapshot_object "USERS_SNAPSHOT" "users" users)
        × (length users ≡ length (get_all m.bank_db))
        × ((user_id : ℤ) (p : UserPtr) (u : User)
            → view m.bank_db user_id ≡ some p
            → get_elem? m.users p ≡ some u
            → (n : Node) × Memᴰ n users × UserShown m user_id u n)
  unfolding build_users_snapshot
  users_snapshot_lem m valid readable =
      let es = get_all m.bank_db in
      let (ns, run, (added, eq, each)) =
        append_each-Each (user_node m) (Shown m) es []
          (λ f l. user_node-Readable m f (All-listed _ es readable f l)) in
      (
        snapshot_object "USERS_SNAPSHOT" "users" ns,
        rw run refl,
        (
          ns,
          refl,
          ap length eq ∙ length-Each each,
          λ user_id p u there at.
              let (n, listed, shown) =
                Each-listed each (listed-view m.bank_db user_id p valid there) in
              (n, subst (λ (l : List Node). Memᴰ n l) (sym eq) listed, shown u at),
        ),
      )

  account_node-either :
      (m : Memory) (e : ℤ × AccountPtr)
      → Reads false m e
      → ((n : Node) × (account_node m e ≡ ok n)) ⊎ (account_node m e ≡ fault blocked)
  account_node-either m (id, q) (a, at, _) = elim (Bool-cases a.mutex) [
    | inl held ↦ inr (account_node-blocked m id q a at held)
    | inr free ↦ inl (_, account_node-free m id q a at free)
  ]

  user_node-either :
      (m : Memory) (e : ℤ × UserPtr)
      → Readable false m e
      → ((n : Node) × (user_node m e ≡ ok n)) ⊎ (user_node m e ≡ fault blocked)
  unfolding user_node
  user_node-either m (user_id, p) (u, at, valid, reads) =
      let es = get_all u.accounts in
      elim (append_each-either (account_node m) es []
        (λ f l. account_node-either m f (All-listed _ es reads f l))) [
          | inl (ns, run) ↦ inl (user_object user_id u ns, rw (user_at-ok p m at, run) refl)
          | inr stops ↦ inr (rw (user_at-ok p m at, stops) refl)
        ]

  -- `buildUsersSnapshot`, on a bank as above but for the mutexes: if that of one account of one
  -- user is held, it blocks, whatever the others are.
  pub users_snapshot-blocked :
      (m : Memory)
      → IsValid m.bank_db
      → All (Readable false m) (get_all m.bank_db)
      → (user_id : ℤ) (p : UserPtr) (u : User) (id : ℤ) (q : AccountPtr) (a : Account)
      → view m.bank_db user_id ≡ some p
      → get_elem? m.users p ≡ some u
      → view u.accounts id ≡ some q
      → get_elem? m.accounts q ≡ some a
      → a.mutex ≡ true
      → build_users_snapshot (some m) ≡ fault blocked
  unfolding build_users_snapshot user_node
  users_snapshot-blocked m valid readable user_id p u id q a there at has at_account held =
      let listed = listed-view m.bank_db user_id p valid there in
      let (w, at', table, reads) = All-listed _ (get_all m.bank_db) readable (user_id, p) listed in
      let same : w ≡ u = some-same at' at in
      let table' : IsValid u.accounts = subst (λ (x : User). IsValid x.accounts) same table in
      let reads' = subst (λ (x : User). All (Reads false m) (get_all x.accounts)) same reads in
      let stops =
        append_each-blocked (account_node m) (id, q) (get_all u.accounts) []
          (λ f l. account_node-either m f (All-listed _ (get_all u.accounts) reads' f l))
          (listed-view u.accounts id q table' has)
          (account_node-blocked m id q a at_account held) in
      let user_stops : user_node m (user_id, p) ≡ fault blocked =
        rw (user_at-ok p m at, stops) refl in
      let all_stop =
        append_each-blocked (user_node m) (user_id, p) (get_all m.bank_db) []
          (λ f l. user_node-either m f (All-listed _ (get_all m.bank_db) readable f l)) listed
          user_stops in
      rw all_stop refl
