-- ===== src/Login/Tests.antt =====
-- A login and a refresh of a user in memory, on a server that knows the password "secret".
use concurrent_banking_syste.Prelude.{
  ◌≡◌, refl, true, false, none, some, str_eq, str_eq_iff, [], ◌∷◌, arith, get_or, replicate,
}
use concurrent_banking_syste.Prelude.Int.{ℤ, pos}
use concurrent_banking_syste.Run.{returned}
use concurrent_banking_syste.Exec.{done}
use concurrent_banking_syste.HashTable.{new, insert, overwrite, bucket_index, get_all, find_in}
use concurrent_banking_syste.HashTable.IntKey.{cast_key}
use concurrent_banking_syste.HashTable.Placed.{view, home, IsValid}
use concurrent_banking_syste.HashTable.Empty.{new-IsValid}
use concurrent_banking_syste.HashTable.Methods.{insert-Writes}
use concurrent_banking_syste.User
use concurrent_banking_syste.User.{User, UserPtr}
use concurrent_banking_syste.Json.{Fields}
use concurrent_banking_syste.LoadDb.{told}
use concurrent_banking_syste.LoadDb.Example.{account}
use concurrent_banking_syste.StoreUsers.{store_users}
use concurrent_banking_syste.BackendClient
use concurrent_banking_syste.BackendClient.{Qt, BackendClient, account_info_changed, login_result}
use concurrent_banking_syste.BackendClient.Reads.{field_at}
use concurrent_banking_syste.Login.Example.{sessions, connecting, user, bank, world, request}
use concurrent_banking_syste.Login.{login}
use concurrent_banking_syste.Login.Outcomes.{members_of, Shows, login_refused}
use concurrent_banking_syste.Login.Welcome.{login_welcomes, refresh_discloses}
use concurrent_banking_syste.Login.Shown.{text_part, number_part, login_shown}

bank-IsValid : IsValid ⦃key = cast_key⦄ bank.bank_db
unfolding new replicate insert overwrite bucket_index get_or
bank-IsValid =
    (returned
      (insert-Writes ⦃key = cast_key⦄ (new ℤ UserPtr 1)
        (new-IsValid ⦃key = cast_key⦄ 1 (omega arith)) (pos 7) 0)
      refl).valid

view-bank : view ⦃key = cast_key⦄ bank.bank_db (pos 7) ≡ some 0
unfolding view home find_in get_or
view-bank = refl

bank-Shows : Shows 0 user (account (pos 1) (pos 100)) bank
unfolding get_all
bank-Shows = record {
  at_user = refl;
  first = (pos 1, 0);
  others = (pos 2, 1) ∷ [];
  listed = refl;
  at_account = refl;
  free = refl;
}

login_refused_example :
    login sessions ⦃key = cast_key⦄ connecting (request "guess" false) world
    ≡ done tt (told (some 5) "Invalid username of password" world)
unfolding view home find_in get_or
login_refused_example =
    login_refused sessions ⦃key = cast_key⦄ world connecting (request "guess" false) 5 refl refl
      refl bank-IsValid (some "secret") refl (user, refl, refl) refl

login_welcomes_example :
    login sessions ⦃key = cast_key⦄ connecting (request "secret" false) world
    ≡ done tt (
        told (some 5) "reply" (record {
          db = 1;
          memory = record bank { users = User.set_login "ONLINE" user ∷ [] };
          sent = [];
        }))
login_welcomes_example =
    login_welcomes sessions ⦃key = cast_key⦄ world connecting (request "secret" false) 5 refl refl
      refl bank-IsValid 0 user refl (account (pos 1) (pos 100)) 1 1 view-bank bank-Shows refl refl
      refl refl

refresh_discloses_example :
    login sessions ⦃key = cast_key⦄ connecting (request "" true) world
    ≡ done tt (told (some 5) "reply" world)
unfolding store_users view home find_in get_or
refresh_discloses_example =
    refresh_discloses sessions ⦃key = cast_key⦄ world connecting (request "" true) 5 refl refl refl
      bank-IsValid [] bank 0 user (account (pos 1) (pos 100)) refl tt refl refl bank-IsValid
      view-bank bank-Shows

abbrev qt : Qt
qt = record {
  print = λ fs. "";
  Object = Fields;
  from_json = λ s. some (members_of user (account (pos 1) (pos 100)));
  string_at = λ o name. text_part (field_at name o);
  double_at = λ o name. number_part (field_at name o);
  to_int = λ i. i;
  to_cents = λ i. i;
  same_letters = str_eq;
  trimmed_upper = λ s. s;
  parse_int = λ s. none;
}

abbrev client : BackendClient
client = record {
  login_connected = true;
  account_connected = false;
  transaction_connected = false;
  account_name = "";
  account_id = pos 0;
  account_balance_cents = pos 0;
  account_info_available = false;
  last_transaction_target_account_id = pos 0;
  sent = [];
  signals = [];
}

login_shown_example : BackendClient.on_login_message qt "reply" client ≡ record client {
  account_name = "";
  account_id = pos 1;
  account_balance_cents = pos 100;
  account_info_available = true;
  signals = account_info_changed ∷ login_result true "reply" ∷ [];
}
login_shown_example =
    login_shown qt user (account (pos 1) (pos 100)) "reply" client
      (record {
        object = members_of user (account (pos 1) (pos 100));
        read = refl;
        strings = λ name. refl;
        doubles = λ name. refl;
        ints = λ i range. refl;
        cents = λ i range. refl;
        letters = λ s. (str_eq_iff s s).1 refl;
      })
      (omega arith, omega arith) (omega arith, omega arith)
