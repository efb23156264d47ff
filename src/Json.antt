-- ===== src/Json.antt =====
-- What the controllers use of `jsoncpp`, which the repository does not hold. `none` stands for a
-- value that is not there, or not of the kind asked for.
use concurrent_banking_syste.Prelude.{◌≡◌, ◌-◌, ◌^◌, Option, none, some, Bool, String, List}
use concurrent_banking_syste.Prelude.Int.{ℤ, pos, negsuc, ◌≤ℤ◌}

pub record Json : Type 1 where
  pub Value : Type 0
  -- `parseFromStream`.
  pub parse : String → Option Value
  -- `isMember` and `operator[]`: the outer `none` is the exception for a value that has no members.
  pub member : Value → String → Option (Option Value)
  pub is_null : Value → Bool
  -- `isInt` and `asInt`, and likewise for the others.
  pub as_int : Value → Option ℤ
  pub as_int64 : Value → Option ℤ
  pub as_string : Value → Option String
  pub int_law :
      (v : Value) {i : ℤ} → as_int v ≡ some i → (negsuc (2 ^ 31 - 1) ≤ℤ i) × (i ≤ℤ pos (2 ^ 31 - 1))
  pub int64_law :
      (v : Value) {i : ℤ}
      → as_int64 v ≡ some i
      → (negsuc (2 ^ 63 - 1) ≤ℤ i) × (i ≤ℤ pos (2 ^ 63 - 1))

-- A value of an object that the program builds to send it, and such an object, in the order of
-- insertion: for `jsoncpp` on the server and for Qt on the client.
pub data Field : Type 0 where
  number : ℤ → Field
  text : String → Field

abbrev pub Fields : Type 0
Fields = List (String × Field)

infixl 5 ◌>>=◌
abbrev pub ◌>>=◌ : {A B : Type 0} → Option A → (A → Option B) → Option B
none >>= next = none
some x >>= next = next x
