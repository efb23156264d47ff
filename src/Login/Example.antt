-- ===== src/Login/Example.antt =====
-- A server that knows the password "secret" of a user in memory, and requests of that user.
use concurrent_banking_syste.Prelude.{ℕ, Bool, true, some, String, str_eq, suc, [], ◌∷◌}
use concurrent_banking_syste.Prelude.Int.{pos}
use concurrent_banking_syste.User.{User}
use concurrent_banking_syste.Memory.{Memory}
use concurrent_banking_syste.Requests.{LoginRequest}
use concurrent_banking_syste.Postgres.{result, committed}
use concurrent_banking_syste.LoadDb.{World}
use concurrent_banking_syste.LoadDb.Example.{memory, owner}
use concurrent_banking_syste.Login.{Sessions, Connecting}

-- A database is the number of its commits.
abbrev pub sessions : Sessions
sessions = record {
  Database = ℕ;
  Work = ℕ;
  begin = λ d. d;
  user_exists = λ id d. result true;
  password_hash = λ id work. result (some "secret");
  set_status = λ status id work. result (suc work);
  commit = λ work. committed work;
  user_rows = λ id d. result [];
  verify_password = str_eq;
  write = λ fields. "reply";
}

abbrev pub connecting : Connecting
connecting = record { url_set = true; is_open = result true }

abbrev pub user : User
user = record owner { password_hash = "secret" }

abbrev pub bank : Memory
bank = record memory { users = user ∷ [] }

abbrev pub world : World ℕ
world = record { db = 0; memory = bank; sent = [] }

abbrev pub request : String → Bool → LoginRequest
request password is_refresh = record {
  user_id = pos 7;
  password = password;
  connection = some 5;
  is_refresh = is_refresh;
}
