-- ===== src/Run.antt =====
-- How a piece of C++ ends: a value, a C++ exception, or a behaviour that the language leaves open.
use mathlib.Core.Path.{subst}
use concurrent_banking_syste.Prelude.{◌≡◌, refl, String, if◌then◌else◌}
use concurrent_banking_syste.Prelude.Int.{ℤ, ◌+ℤ◌, ◌-ℤ◌, fits64}

-- The `std::exception`s that the source throws or meets.
pub data Exception : Type 0 where
  invalid_argument : String → Exception
  runtime_error : String → Exception
  sql_error : String → Exception
  bad_optional_access : Exception
  bad_field : Exception

-- `blocked`: a `pthread_mutex_lock` that does not return, since the mutex is held.
-- `out_of_fuel` is no behaviour of the source: a recursion on fuel that was given too little.
pub data Fault : Type 0 where
  division_by_zero out_of_range overflow blocked null_pointer out_of_fuel : Fault

pub data Run {ℓ} (A : Type ℓ) : Type ℓ where
  ok : A → Run A
  throws : Exception → Run A
  fault : Fault → Run A

infixl 5 ◌>>=◌
abbrev pub ◌>>=◌ {ℓ κ} : {A : Type ℓ} → {B : Type κ} → Run A → (A → Run B) → Run B
ok x >>= next = next x
throws e >>= next = throws e
fault u >>= next = fault u

-- The run ends normally, in a value that satisfies `P`.
abbrev pub Returns {ℓ κ} : {A : Type ℓ} → Run A → (A → Type κ) → Type (ℓ ⊔ κ)
Returns {A} run Q = (value : A) × (run ≡ ok value) × Q value

-- `int64_t` addition and subtraction: an overflow is undefined behaviour.
unfoldable pub add64 : ℤ → ℤ → Run ℤ
add64 a b = if fits64 (a +ℤ b) then ok (a +ℤ b) else fault overflow

unfoldable pub sub64 : ℤ → ℤ → Run ℤ
sub64 a b = if fits64 (a -ℤ b) then ok (a -ℤ b) else fault overflow

-- What holds of the value of a run holds of any value that the run is seen to have.
pub returned {ℓ} : {A : Type 0} {P : A → Type ℓ} {r : Run A} {a : A} → Returns r P → r ≡ ok a → P a
returned {P} (b, run, p) e = subst P (cc) p

-- A composed run that ends in a value did so in both parts.
pub both_returned {ℓ κ} :
    {A : Type ℓ} {B : Type κ} (first : Run A) (next : A → Run B) {b : B}
    → (first >>= next) ≡ ok b
    → (a : A) × (first ≡ ok a) × (next a ≡ ok b)
both_returned (ok a) next h = (a, refl, h)
both_returned (throws e) next h = cc
both_returned (fault u) next h = cc

pub ok-inj : {A : Type 0} {a b : A} → ok a ≡ ok b → a ≡ b
ok-inj h = cc
