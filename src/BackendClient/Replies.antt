-- ===== src/BackendClient/Replies.antt =====
-- What becomes of a reply of the server in frontend/Premiumbank/BackendClient.cpp.
use concurrent_banking_syste.Prelude.{◌≡◌, ap, true, none, String, str_eq_iff, Bool-cases, inl, inr}
use concurrent_banking_syste.Prelude.Int.{eqb_ℤ}
use concurrent_banking_syste.BackendClient
use concurrent_banking_syste.BackendClient.{
  Qt, BackendClient, emit, login_result, transaction_result, account_info_changed, plain_success,
  interpret_success, tells_success, update_balance, update_account_info,
}

module _ (qt : Qt) (message : String) (c : BackendClient) where
  open qt use {from_json}

  reads_success :
      from_json message ≡ none
      → qt.trimmed_upper message ≡ "SUCCESS"
      → interpret_success qt message ≡ true
  unfolding interpret_success
  reads_success plain upper =
      rw (interpret_success, plain) ((str_eq_iff (qt.trimmed_upper message) "SUCCESS").1 upper)

  -- The reply SUCCESS to a transaction, which is not JSON: the client announces a success and keeps
  -- the balance that it showed before.
  pub plain_success_stale :
      from_json message ≡ none
      → qt.trimmed_upper message ≡ "SUCCESS"
      → BackendClient.on_transaction_message qt message c ≡ emit (transaction_result true message) c
  unfolding BackendClient.on_transaction_message update_balance
  plain_success_stale plain upper =
      let announced : emit (transaction_result (interpret_success qt message) message) c
          ≡ emit (transaction_result true message) c =
        ap (λ b. emit (transaction_result b message) c) (reads_success plain upper) in
      elim (Bool-cases (eqb_ℤ c.last_transaction_target_account_id c.account_id)) [
        | inl own ↦ rw (own, plain) announced
        | inr other ↦ rw (other, plain) announced
      ]
