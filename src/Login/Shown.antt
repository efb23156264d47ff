-- ===== src/Login/Shown.antt =====
-- The reply of `Load_DB::login` of backend/include/database_loader.hpp, as
-- frontend/Premiumbank/BackendClient.cpp reads it.
use concurrent_banking_syste.Prelude.{
  ◌≡◌, ◌-◌, ◌^◌, true, Option, none, some, String, [], ◌∷◌, ◌++◌,
}
use concurrent_banking_syste.Prelude.Int.{ℤ, pos, negsuc, ◌≤ℤ◌}
use concurrent_banking_syste.Json.{Field, Fields, number, text}
use concurrent_banking_syste.Account.{Account}
use concurrent_banking_syste.User.{User}
use concurrent_banking_syste.BackendClient
use concurrent_banking_syste.BackendClient.{
  Qt, BackendClient, emit, login_result, account_info_changed, balance_at, interpret_success,
  update_account_info,
}
use concurrent_banking_syste.BackendClient.Reads.{IsInt, field_at}
use concurrent_banking_syste.Login.Outcomes.{members_of}

-- The whole numbers that a `double` holds exactly.
abbrev pub IsExact : ℤ → Type 0
IsExact i = (negsuc (2 ^ 53 - 1) ≤ℤ i) × (i ≤ℤ pos (2 ^ 53))

abbrev pub text_part : Option Field → Option String
text_part none = none
text_part (some (number i)) = none
text_part (some (text s)) = some s

abbrev pub number_part : Option Field → Option ℤ
number_part none = none
number_part (some (number i)) = some i
number_part (some (text s)) = none

module _ (qt : Qt) where
  -- What the client relies on: `message` is a document that Qt reads as an object of these fields,
  -- numbers in range keep their value, and a word is itself in any case.
  pub record IsObject (message : String) (fields : Fields) : Type 0 where
    pub object : qt.Object
    pub read : qt.from_json message ≡ some object
    pub strings : (name : String) → qt.string_at object name ≡ text_part (field_at name fields)
    pub doubles : (name : String) → qt.double_at object name ≡ number_part (field_at name fields)
    pub ints : (i : ℤ) → IsInt i → qt.to_int i ≡ i
    pub cents : (i : ℤ) → IsExact i → qt.to_cents i ≡ i
    pub letters : (s : String) → qt.same_letters s s ≡ true

  module _ (u : User) (a : Account) (message : String) (c : BackendClient)
      (o : IsObject message (members_of u a)) where
    success : interpret_success qt message ≡ true
    unfolding interpret_success
    success = rw (interpret_success, o.read, o.strings "status", o.letters "success")

    informed :
        IsInt a.account_id
        → IsExact a.actual_balance
        → update_account_info qt message c
          ≡ emit account_info_changed (record c {
            account_name = u.full_name;
            account_id = a.account_id;
            account_balance_cents = a.actual_balance;
            account_info_available = true;
          })
    unfolding update_account_info
    informed id balance = rw (
      update_account_info,
      o.read,
      o.strings "full_name",
      o.doubles "account_id",
      balance_at,
      o.doubles "balance_cents",
      o.ints a.account_id id,
      o.cents a.actual_balance balance,
    )

    -- The reply of a login, where Qt reads the document that jsoncpp wrote, the account id is in
    -- the range of `int` and the balance is one that a `double` holds exactly: the client then
    -- shows exactly the name, the account and the balance that the server has, and announces a
    -- success.
    pub login_shown :
        IsInt a.account_id
        → IsExact a.actual_balance
        → BackendClient.on_login_message qt message c ≡ record c {
          account_name = u.full_name;
          account_id = a.account_id;
          account_balance_cents = a.actual_balance;
          account_info_available = true;
          signals = (c.signals ++ account_info_changed ∷ []) ++ login_result true message ∷ [];
        }
    unfolding BackendClient.on_login_message
    login_shown id balance = rw (success, informed id balance)
