-- ===== src/BackendClient/Reads.antt =====
-- What the documents of frontend/Premiumbank/BackendClient.cpp are to the reader of
-- backend/include/web_socket_controllers.hpp: each field as it was filled in.
use mathlib.Core.Path.{subst}
use concurrent_banking_syste.Prelude.{
  ◌≡◌, ◌-◌, ◌^◌, true, false, Option, none, some, String, str_eq, [], ◌∷◌, if◌then◌else◌,
  Option-cases, inl, inr,
}
use concurrent_banking_syste.Prelude.Int.{ℤ, pos, negsuc, ◌≤ℤ◌}
use concurrent_banking_syste.Json.{Field, Fields, number, text, Json}
use concurrent_banking_syste.Controllers.{
  required, optional_int, text_or_empty, as_amount, is_refresh_request,
}

abbrev pub IsInt : ℤ → Type 0
IsInt i = (negsuc (2 ^ 31 - 1) ≤ℤ i) × (i ≤ℤ pos (2 ^ 31 - 1))

abbrev pub IsInt64 : ℤ → Type 0
IsInt64 i = (negsuc (2 ^ 63 - 1) ≤ℤ i) × (i ≤ℤ pos (2 ^ 63 - 1))

abbrev pub field_at : String → Fields → Option Field
field_at name [] = none
field_at name (f ∷ fs) = let rest = field_at name fs in if str_eq f.0 name then some f.1 else rest

module _ (json : Json) where
  open json use {Value, parse, member, is_null, as_int, as_int64, as_string}

  -- What one library printed, the other reads: a number in range as that number, a text as that text.
  abbrev pub IsField : Option Field → Option Value → Type 0
  IsField none found = found ≡ none
  IsField (some (number i)) found =
      (v : Value) × (found ≡ some v)
      × (is_null v ≡ false)
      × (IsInt i → as_int v ≡ some i)
      × (IsInt64 i → as_int64 v ≡ some i)
      × (as_string v ≡ none)
  IsField (some (text s)) found =
      (v : Value) × (found ≡ some v) × (is_null v ≡ false) × (as_string v ≡ some s)

  -- `message` is a document that `jsoncpp` reads as an object of these fields.
  pub record IsRead (message : String) (fields : Fields) : Type 0 where
    pub value : Value
    pub parsed : parse message ≡ some value
    pub members :
        (name : String)
        → (found : Option Value) × (member value name ≡ some found)
          × IsField (field_at name fields) found

  module _ {message : String} {fields : Fields} (r : IsRead message fields) (name : String) where
    pub member_is :
        (o : Option Field)
        → field_at name fields ≡ o
        → (found : Option Value) × (member r.value name ≡ some found) × IsField o found
    member_is o at =
        subst (λ x. (found : Option Value) × (member r.value name ≡ some found) × IsField x found)
          at (r.members name)

    pub required-int :
        (i : ℤ)
        → field_at name fields ≡ some (number i)
        → IsInt i
        → required json as_int r.value name ≡ some i
    unfolding required
    required-int i at range =
        let (found, m, (v, there, _, int, _, _)) = member_is (some (number i)) at in
        rw (m, there, int range)

    pub required-amount :
        (i : ℤ)
        → field_at name fields ≡ some (number i)
        → IsInt64 i
        → required json (as_amount json) r.value name ≡ some i
    unfolding required as_amount
    required-amount i at range =
        let (found, m, (v, there, _, _, int, _)) = member_is (some (number i)) at in
        rw (m, there, int range)
          (elim (Option-cases (as_int v)) [ inl e ↦ rw e | inr (x, e) ↦ rw e ])

    pub required-text :
        (s : String)
        → field_at name fields ≡ some (text s)
        → required json as_string r.value name ≡ some s
    unfolding required
    required-text s at =
        let (found, m, (v, there, _, is)) = member_is (some (text s)) at in rw (m, there, is)

    pub optional-int :
        (i : ℤ)
        → field_at name fields ≡ some (number i)
        → IsInt i
        → optional_int json r.value name ≡ some (some i)
    unfolding optional_int
    optional-int i at range =
        let (found, m, (v, there, not_null, int, _, _)) = member_is (some (number i)) at in
        rw (m, there, not_null, int range)

    pub optional-missing : field_at name fields ≡ none → optional_int json r.value name ≡ some none
    unfolding optional_int
    optional-missing at = let (found, m, missing) = member_is none at in rw (m, missing)

    pub text-or-empty :
        (s : String)
        → field_at name fields ≡ some (text s)
        → text_or_empty json r.value name ≡ some s
    unfolding text_or_empty member_is
    text-or-empty s at =
        let (found, m, (v, there, _, is)) = member_is (some (text s)) at in rw (m, there, is)

  pub refresh-text :
      {message : String} {fields : Fields} (r : IsRead message fields)
      → field_at "type" fields ≡ some (text "refresh")
      → is_refresh_request json r.value ≡ some true
  unfolding is_refresh_request member_is
  refresh-text r at =
      let (found, m, (v, there, _, is)) = member_is r "type" (some (text "refresh")) at in
      rw (m, there, is)

  pub refresh-missing :
      {message : String} {fields : Fields} (r : IsRead message fields)
      → field_at "type" fields ≡ none
      → is_refresh_request json r.value ≡ some false
  unfolding is_refresh_request
  refresh-missing r at = let (found, m, missing) = member_is r "type" none at in rw (m, missing)
