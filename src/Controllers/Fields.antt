-- ===== src/Controllers/Fields.antt =====
-- The members that the parsers of backend/include/web_socket_controllers.hpp look for, said in terms
-- of `jsoncpp`.
use concurrent_banking_syste.Prelude.{
  ◌≡◌, ◌⊎◌, refl, sym, ap, Option, none, some, true, false, Bool-cases, if◌then◌else◌, String,
  Option-cases, inl, inr, arith,
}
use concurrent_banking_syste.Prelude.Int.{ℤ}
use concurrent_banking_syste.Json.{Json, ◌>>=◌}
use concurrent_banking_syste.Controllers.{required, optional_int, text_or_empty, as_amount}

module _ (json : Json) where
  open json use {Value, parse, member, is_null, as_int, as_int64, as_string}

  -- The member `o` of an object is there and is of one kind, with the value `a`.
  pub record Field {A : Type 0} (kind : Value → Option A) (o : Option (Option Value)) (a : A)
      : Type 0 where
    pub value : Value
    pub there : o ≡ some (some value)
    pub is_kind : kind value ≡ some a

  -- A member that is an `int`, or is null or missing. Nothing else counts as missing.
  pub data IntField (o : Option (Option Value)) (r : Option ℤ) : Type 0 where
    int_there :
        (x : Value) (i : ℤ)
        → o ≡ some (some x)
        → is_null x ≡ false
        → as_int x ≡ some i
        → r ≡ some i
        → IntField o r
    int_null : (x : Value) → o ≡ some (some x) → is_null x ≡ true → r ≡ none → IntField o r
    int_missing : o ≡ some none → r ≡ none → IntField o r

  -- A member that is a string, or whatever else and then counts as empty.
  pub data TextField (o : Option (Option Value)) (s : String) : Type 0 where
    text_there : (x : Value) → o ≡ some (some x) → as_string x ≡ some s → TextField o s
    text_other : (x : Value) → o ≡ some (some x) → as_string x ≡ none → s ≡ "" → TextField o s
    text_missing : o ≡ some none → s ≡ "" → TextField o s

  at_field :
      {A : Type 0} (kind : Value → Option A) (o : Option (Option Value)) {a : A}
      → (o >>= λ found. found >>= kind) ≡ some a
      → Field kind o a
  at_field kind none h = absurd (cc)
  at_field kind (some none) h = absurd (cc)
  at_field kind (some (some x)) h = record { value = x; there = refl; is_kind = h }

  pub required-Field :
      {A : Type 0} (kind : Value → Option A) (v : Value) (name : String) {a : A}
      → required json kind v name ≡ some a
      → Field kind (member v name) a
  unfolding required
  required-Field kind v name h = at_field kind (member v name) h

  pub Field-required :
      {A : Type 0} (kind : Value → Option A) (v : Value) (name : String) {a : A}
      → Field kind (member v name) a
      → required json kind v name ≡ some a
  unfolding required
  Field-required kind v name f = rw (f.there, f.is_kind) refl

  -- An `int` is an `int64`: the test for either is the test for the second.
  amount-int64 : (x : Value) {a : ℤ} → as_amount json x ≡ some a → as_int64 x ≡ some a
  unfolding as_amount
  amount-int64 x h = ground arith

  int64-amount : (x : Value) {a : ℤ} → as_int64 x ≡ some a → as_amount json x ≡ some a
  unfolding as_amount
  int64-amount x h = ground arith

  pub amount-Field :
      (v : Value) (name : String) {a : ℤ}
      → required json (as_amount json) v name ≡ some a
      → Field as_int64 (member v name) a
  amount-Field v name h =
      let f = required-Field (as_amount json) v name h in
      record { value = f.value; there = f.there; is_kind = amount-int64 f.value f.is_kind }

  pub Field-amount :
      (v : Value) (name : String) {a : ℤ}
      → Field as_int64 (member v name) a
      → required json (as_amount json) v name ≡ some a
  Field-amount v name f =
      Field-required (as_amount json) v name
        (record { value = f.value; there = f.there; is_kind = int64-amount f.value f.is_kind })

  int_at :
      (o : Option (Option Value)) {r : Option ℤ}
      → (o >>= λ found. elim found [
        | none ↦ some none
        | some x ↦ if is_null x then some none else (as_int x >>= λ i. some (some i))
      ])
        ≡ some r
      → IntField o r
  int_at none h = absurd (cc)
  int_at (some none) h = int_missing refl (cc)
  int_at (some (some x)) h = elim (Bool-cases (is_null x)) [
    | inl null ↦ int_null x refl null (cc (rw null at h))
    | inr real ↦ elim (Option-cases (as_int x)) [
      | inl other ↦ absurd (cc (rw (real, other) at h))
      | inr (i, number) ↦ int_there x i refl real number (cc (rw (real, number) at h))
    ]
  ]

  pub optional_int-IntField :
      (v : Value) (name : String) {r : Option ℤ}
      → optional_int json v name ≡ some r
      → IntField (member v name) r
  unfolding optional_int
  optional_int-IntField v name h = int_at (member v name) h

  pub IntField-optional_int :
      (v : Value) (name : String) {r : Option ℤ}
      → IntField (member v name) r
      → optional_int json v name ≡ some r
  unfolding optional_int
  IntField-optional_int v name (int_there x i there real number same) =
      rw (there, real, number, same) refl
  IntField-optional_int v name (int_null x there null same) = rw (there, null, same) refl
  IntField-optional_int v name (int_missing there same) = rw (there, same) refl

  text_value :
      (o : Option String) {s : String}
      → elim o [ none ↦ some "" | some s ↦ some s ] ≡ some s
      → ((o ≡ none) × (s ≡ "")) ⊎ (o ≡ some s)
  text_value none h = inl (refl, cc)
  text_value (some s') h = inr h

  text_back :
      (o : Option String) {s : String}
      → o ≡ some s
      → elim o [ none ↦ some "" | some s ↦ some s ] ≡ some s
  text_back none h = absurd (cc)
  text_back (some s') h = h

  text_none :
      (o : Option String) {s : String}
      → o ≡ none
      → s ≡ ""
      → elim o [ none ↦ some "" | some s ↦ some s ] ≡ some s
  text_none none h same = ap (λ x. some x) (sym same)
  text_none (some s') h same = absurd (cc)

  text_at :
      (o : Option (Option Value)) {s : String}
      → (o >>= λ found. elim (found >>= as_string) [ none ↦ some "" | some s ↦ some s ]) ≡ some s
      → TextField o s
  text_at none h = absurd (cc)
  text_at (some none) h = text_missing refl (cc)
  text_at (some (some x)) h = elim (text_value (as_string x) h) [
    | inl (other, same) ↦ text_other x refl other same
    | inr is_text ↦ text_there x refl is_text
  ]

  pub text_or_empty-TextField :
      (v : Value) (name : String) {s : String}
      → text_or_empty json v name ≡ some s
      → TextField (member v name) s
  unfolding text_or_empty
  text_or_empty-TextField v name h = text_at (member v name) h

  pub TextField-text_or_empty :
      (v : Value) (name : String) {s : String}
      → TextField (member v name) s
      → text_or_empty json v name ≡ some s
  unfolding text_or_empty
  TextField-text_or_empty v name (text_there x there is_text) =
      rw there (text_back (as_string x) is_text)
  TextField-text_or_empty v name (text_other x there other same) =
      rw there (text_none (as_string x) other same)
  TextField-text_or_empty v name (text_missing there same) = rw (there, same) refl
