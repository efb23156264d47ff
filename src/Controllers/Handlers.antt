-- ===== src/Controllers/Handlers.antt =====
-- The message handlers of backend/include/web_socket_controllers.hpp.
use concurrent_banking_syste.Prelude.{
  ℕ, Option, none, some, Bool, String, List, [], ◌∷◌, ◌++◌, if◌then◌else◌,
}
use concurrent_banking_syste.Run.{Run, ok, ◌>>=◌}
use concurrent_banking_syste.Json.{Json}
use concurrent_banking_syste.Requests.{LoginRequest, AccountCreationRequest, TransactionRequest}
use concurrent_banking_syste.RequestQueue
use concurrent_banking_syste.RequestQueue.{RequestQueue}
use concurrent_banking_syste.Controllers.{
  login, account_creation, transaction_parser, authentication_parser,
}

-- A queue behind one of the global pointers, `none` where it is null, and the messages sent so far.
pub record Front (T : Type 0) : Type 0 where
  pub queue : Option (RequestQueue T)
  pub sent : List (ℕ × String)

abbrev pub reply : {T : Type 0} → ℕ → String → Front T → Front T
reply socket text f = record f { sent = f.sent ++ (socket, text) ∷ [] }

-- What is pushed, with the answer that a controller may look at.
unfoldable pub enqueue : {T : Type 0} → T → RequestQueue T → Front T → Run (Bool × Front T)
enqueue req queue f = RequestQueue.push req queue >>= λ r. ok (r.0, record f { queue = some r.1 })

module _ (json : Json) where
  -- `Transaction_Controller::handleNewMessage`, for a text message on a socket. The answer of `push`
  -- is not looked at.
  unfoldable pub handle_transaction :
      String → ℕ → Front TransactionRequest → Run (Front TransactionRequest)
  handle_transaction message socket f = elim (transaction_parser json message (some socket)) [
    | none ↦ ok (reply socket "ERR_BAD_STRUCTURE" f)
    | some t ↦ elim f.queue [
      | none ↦ ok (reply socket "SERVER_ERROR" f)
      | some queue ↦ enqueue t queue f >>= λ r. ok r.1
    ]
  ]

  -- `Authentication_Controller::handleNewMessage`, for a text message on a socket with the path
  -- `context`, if it has one, up to the call of `create_account`: what that is called with, if it is. `bank_ready` is
  -- `globalBank != nullptr`.
  unfoldable pub handle_authentication :
      Bool
      → String
      → ℕ
      → Option String
      → Front LoginRequest
      → Run (Option AccountCreationRequest × Front LoginRequest)
  handle_authentication bank_ready message socket context f = elim context [
    | none ↦ ok (none, reply socket "ERROR_INTERNAL_STATE" f)
    | some path ↦ elim (authentication_parser json message (some socket) path) [
      | none ↦ ok (none, reply socket "ERROR_BAD_STRUCTURE" f)
      | some parsed ↦ elim f.queue [
        | none ↦ ok (none, reply socket "SERVER_ERROR" f)
        | some queue ↦ elim parsed [
          | login l ↦ enqueue l queue f >>= λ r.
              if r.0 then ok (none, r.1) else ok (none, reply socket "SERVER_BUSY" r.1)
          | account_creation a ↦
              if bank_ready then ok (some a, f) else ok (none, reply socket "SERVER_ERROR" f)
        ]
      ]
    ]
  ]
