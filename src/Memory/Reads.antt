-- ===== src/Memory/Reads.antt =====
-- Reads through the shared pointers, and what stands in a list of entries of a table.
use mathlib.Core.List.{Memᴰ}
use mathlib.Core.List.Memᴰ
use mathlib.Core.Path.{subst}
use concurrent_banking_syste.Prelude.{◌≡◌, sym, inl, inr, some, List, [], ◌∷◌, get_elem?, All}
use concurrent_banking_syste.Run.{ok}
use concurrent_banking_syste.Account.{Account}
use concurrent_banking_syste.User.{User, AccountPtr, UserPtr}
use concurrent_banking_syste.Memory.{Memory, user_at, account_at}

pub user_at-ok :
    (p : UserPtr) {u : User} (m : Memory) → get_elem? m.users p ≡ some u → user_at p m ≡ ok u
unfolding user_at
user_at-ok p m at = rw (user_at, at)

pub account_at-ok :
    (q : AccountPtr) {a : Account} (m : Memory)
    → get_elem? m.accounts q ≡ some a
    → account_at q m ≡ ok a
unfolding account_at
account_at-ok q m at = rw (account_at, at)

pub All-listed : {A : Type 0} (P : A → Type 0) (es : List A) → All P es → (e : A) → Memᴰ e es → P e
All-listed P [] h e l = absurd (Memᴰ.not-nil l)
All-listed P (d ∷ es) h e l = elim (Memᴰ.cases_cons l) [
  | inl here ↦ subst P (sym here) h.0
  | inr there ↦ All-listed P es h.1 e there
]
