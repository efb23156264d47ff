-- ===== src/Bank/Cells.antt =====
-- Methods called on one account of the heap, and on two accounts that stand apart.
use concurrent_banking_syste.Prelude.{
  ◌≡◌, ◌≢◌, sym, ap, ◌∙◌, Option, some, arith, get_elem?, set, length-set, get_elem?-set_self,
  get_elem?-set_ne, get_elem?-some-lt, set-set_self, set-set_ne, set-get_elem?, if◌then◌else◌, ◌==◌,
}
use concurrent_banking_syste.Run.{Run, ok, throws, fault, Exception, Fault}
use concurrent_banking_syste.Exec.{done, thrown, stuck}
use concurrent_banking_syste.Account.{Account}
use concurrent_banking_syste.Memory.{Memory, put}
use concurrent_banking_syste.User.{AccountPtr}
use concurrent_banking_syste.Bank.{with_account, stored}

-- The account that `p` points at.
abbrev pub cell : Memory → AccountPtr → Option Account
cell m p = get_elem? m.accounts p

pub cell-put :
    (m : Memory) (p r : AccountPtr) {a : Account} (a' : Account)
    → cell m p ≡ some a
    → cell (put m p a') r ≡ (if p == r then some a' else cell m r)
cell-put m p r a' h = ground (
  arith,
  get_elem?-some-lt m.accounts p h,
  get_elem?-set_self m.accounts p a',
  get_elem?-set_ne m.accounts p r a',
)

module _ {A : Type 0} (m : Memory) (p : AccountPtr) (method : Account → Run (A × Account)) where
  pub with_account-done :
      {a a' : Account} {x : A}
      → cell m p ≡ some a
      → method a ≡ ok (x, a')
      → with_account p method m ≡ done x (put m p a')
  unfolding with_account stored
  with_account-done h e = rw (h, with_account) (rw (e, stored))

  pub with_account-thrown :
      {a : Account} {e : Exception}
      → cell m p ≡ some a
      → method a ≡ throws e
      → with_account p method m ≡ thrown e m
  unfolding with_account stored
  with_account-thrown h e = rw (h, with_account) (rw (e, stored))

  pub with_account-stuck :
      {a : Account} {u : Fault}
      → cell m p ≡ some a
      → method a ≡ fault u
      → with_account p method m ≡ stuck u
  unfolding with_account stored
  with_account-stuck h e = rw (h, with_account) (rw (e, stored))

-- Two accounts that stand apart in the heap, with new contents.
abbrev pub two : Memory → AccountPtr → Account → AccountPtr → Account → Memory
two m p a q b = put (put m p a) q b

module _ (m : Memory) {p q : AccountPtr} (ne : p ≢ q) {a₀ b₀ : Account} (ha : cell m p ≡ some a₀)
    (hb : cell m q ≡ some b₀) where
  pub two_same : two m p a₀ q b₀ ≡ m
  two_same =
      ap (λ xs. record m { accounts = set xs q b₀ }) (set-get_elem? m.accounts p a₀ ha)
      ∙ ap (λ xs. record m { accounts = xs }) (set-get_elem? m.accounts q b₀ hb)

  pub cell-two :
      (a b : Account) → (cell (two m p a q b) p ≡ some a) × (cell (two m p a q b) q ≡ some b)
  cell-two a b = (
    get_elem?-set_ne (set m.accounts p a) q p b (λ e. ne (sym e))
        ∙ get_elem?-set_self m.accounts p a (get_elem?-some-lt m.accounts p ha),
    get_elem?-set_self (set m.accounts p a) q b (rw length-set (get_elem?-some-lt m.accounts q hb)),
  )

  module _ {A : Type 0} (method : Account → Run (A × Account)) (a b : Account) where
    pub on_left :
        {a' : Account} {x : A}
        → method a ≡ ok (x, a')
        → with_account p method (two m p a q b) ≡ done x (two m p a' q b)
    on_left {a'} {x} e =
        with_account-done (two m p a q b) p method (cell-two a b).0 e
        ∙ ap (λ xs. done x (record m { accounts = xs }))
            (set-set_ne (set m.accounts p a) q p b a' (λ e. ne (sym e))
              ∙ ap (λ xs. set xs q b) (set-set_self m.accounts p a a'))

    pub on_right :
        {b' : Account} {x : A}
        → method b ≡ ok (x, b')
        → with_account q method (two m p a q b) ≡ done x (two m p a q b')
    on_right {b'} {x} e =
        with_account-done (two m p a q b) q method (cell-two a b).1 e
        ∙ ap (λ xs. done x (record m { accounts = xs })) (set-set_self (set m.accounts p a) q b b')

    pub on_left_thrown :
        {e : Exception}
        → method a ≡ throws e
        → with_account p method (two m p a q b) ≡ thrown e (two m p a q b)
    on_left_thrown e = with_account-thrown (two m p a q b) p method (cell-two a b).0 e

-- The same for one account.
module _ (m : Memory) (p : AccountPtr) {a₀ : Account} (h : cell m p ≡ some a₀) where
  pub put_same : put m p a₀ ≡ m
  put_same = ap (λ xs. record m { accounts = xs }) (set-get_elem? m.accounts p a₀ h)

  pub cell-put_self : (a : Account) → cell (put m p a) p ≡ some a
  cell-put_self a = get_elem?-set_self m.accounts p a (get_elem?-some-lt m.accounts p h)

  module _ {A : Type 0} (method : Account → Run (A × Account)) (a : Account) where
    pub on_one :
        {a' : Account} {x : A}
        → method a ≡ ok (x, a')
        → with_account p method (put m p a) ≡ done x (put m p a')
    on_one {a'} {x} e =
        with_account-done (put m p a) p method (cell-put_self a) e
        ∙ ap (λ xs. done x (record m { accounts = xs })) (set-set_self m.accounts p a a')

    pub on_one_thrown :
        {e : Exception}
        → method a ≡ throws e
        → with_account p method (put m p a) ≡ thrown e (put m p a)
    on_one_thrown e = with_account-thrown (put m p a) p method (cell-put_self a) e
