-- ===== src/CreateAccount/Checks.antt =====
-- The checks that `create_account` of backend/include/database_loader.hpp begins with.
use mathlib.Core.Path.{subst}
use concurrent_banking_syste.Prelude.{
  ℕ, ◌≡◌, ◌≢◌, ◌⊎◌, inl, inr, refl, sym, none, some, String, Bool-cases, Option-cases,
}
use concurrent_banking_syste.Prelude.Int.{ℤ}
use concurrent_banking_syste.Run.{Exception}
use concurrent_banking_syste.Exec.{Outcome, done, thrown}
use concurrent_banking_syste.HashTable.{Key}
use concurrent_banking_syste.HashTable.Placed.{view, IsValid}
use concurrent_banking_syste.HashTable.Methods.{find-view}
use concurrent_banking_syste.Requests.{AccountCreationRequest}
use concurrent_banking_syste.LoadDb.{World}
use concurrent_banking_syste.LoadDb.Promise.{Reply-cases}
use concurrent_banking_syste.CreateAccount.{
  Registry, Checked, refusal, go_on, known, check_existing, register, check,
}
use concurrent_banking_syste.CreateAccount.Granted.{Entitled, known_user, new_user}

module _ (registry : Registry) ⦃key : Key ℤ⦄ (candidate : ℕ → String) (a : AccountCreationRequest)
    (w : World registry.Database) where
  open registry use {
    Database, Work, begin, password_hash, insert_user, hash_password, verify_password,
  }

  -- Where a step throws.
  abbrev pub Throws : {A : Type 0} → Outcome (World Database) A → Type 0
  Throws o = (e : Exception) × (o ≡ thrown e w)

  -- After a check the request is entitled, or has no claim.
  abbrev pub Proper : Outcome (World Database) (Checked Work) → Checked Work → Type 0
  Proper o (refusal text) = text ≢ "Success"
  Proper o (go_on id work) = Entitled registry candidate a w id work

  abbrev pub ChecksOut : Outcome (World Database) (Checked Work) → Type 0
  ChecksOut o = Throws o ⊎ ((x : Checked Work) × (o ≡ done x w) × Proper o x)

  register-out : a.user_id ≡ none → ChecksOut (register registry a (begin w.db) w)
  unfolding register
  register-out nobody = elim (Reply-cases (hash_password a.password)) [
    | inr (x, e) ↦ inl (x, rw (register, e))
    | inl (none, e) ↦ inr (refusal "Error", rw (register, e), λ s. absurd (cc))
    | inl (some h, e) ↦ elim (Reply-cases (insert_user (record a { password = h }) (begin w.db))) [
      | inr (x, f) ↦ inl (x, rw (register, e, f))
      | inl ((none, work'), f) ↦
          inr (refusal "Error creating user", rw (register, e, f), λ s. absurd (cc))
      | inl ((some i, work'), f) ↦ inr (go_on i work', rw (register, e, f), new_user nobody e f)
    ]
  ]

  invalid : ChecksOut (done (refusal "Invalid username or password") w)
  invalid = inr (refusal "Invalid username or password", refl, λ s. absurd (cc))

  existing-out :
      (id : ℤ)
      → IsValid w.memory.bank_db
      → a.user_id ≡ some id
      → ChecksOut (check_existing registry id a (begin w.db) w)
  unfolding check_existing known
  existing-out id valid who = elim (Option-cases (view w.memory.bank_db id)) [
    | inr (p, e) ↦ rw (check_existing, find-view w.memory.bank_db id valid, e) invalid
    | inl e ↦ elim (Reply-cases (password_hash id (begin w.db))) [
      | inr (x, f) ↦ inl (x, rw (check_existing, find-view w.memory.bank_db id valid, e, f))
      | inl (none, f) ↦ rw (check_existing, find-view w.memory.bank_db id valid, e, f) invalid
      | inl (some h, f) ↦ elim (Bool-cases (verify_password a.password h)) [
        | inl g ↦ inr (
          go_on id (begin w.db),
          rw (check_existing, find-view w.memory.bank_db id valid, e, f, g),
          known_user who e f g,
        )
        | inr g ↦ rw (check_existing, find-view w.memory.bank_db id valid, e, f, g) invalid
      ]
    ]
  ]

  check-new :
      a.user_id ≡ none → check registry a (begin w.db) w ≡ register registry a (begin w.db) w
  unfolding check register
  check-new e = rw (check, e) refl

  pub check-known :
      (id : ℤ)
      → a.user_id ≡ some id
      → check registry a (begin w.db) w ≡ check_existing registry id a (begin w.db) w
  unfolding check check_existing known
  check-known id e = rw (check, e) refl

  pub check-out : IsValid w.memory.bank_db → ChecksOut (check registry a (begin w.db) w)
  check-out valid = elim (Option-cases a.user_id) [
    | inl e ↦ subst ChecksOut (sym (check-new e)) (register-out e)
    | inr (id, e) ↦ subst ChecksOut (sym (check-known id e)) (existing-out id valid e)
  ]
