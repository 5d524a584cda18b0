-- ===== src/Tests/Contracts.antt =====
-- A network in memory that refuses the first transaction for its sequence, and confirms the second
-- after a second.
use trust_link_backend.Prelude.{
  ℕ, zero, suc, ◌+◌, ◌≤◌, String, none, some, true, false, ◌≡◌, refl, sym, arith, if◌then◌else◌,
  leb, ◌==◌,
}
use mathlib.Core.Option.{some-injective}
use mathlib.Core.Path.{subst}
use trust_link_backend.Prelude.Text.{mentions, includes}
use trust_link_backend.ContractClient.{
  Call, value, Sending, Transaction, StellarServer, Sdk, Settings, is_sequence_text,
}
use trust_link_backend.ContractClient.Confirm.{
  poll_with_get_transaction, poll_from, poll_transaction_status, is_pending_status,
}
use trust_link_backend.ContractClient.Ends.{IsClock, Finished, poll_with_get_transaction-Finished}
use trust_link_backend.ContractClient.Invoke.{
  fetch_account, simulate, prepare, sign, source_of, send, confirm, accept, prepare_simulated,
  prepare_for, prepare_call, invoke_rpc, invoke_contract, send_fault,
}
use trust_link_backend.ContractClient.AutoRelease.{
  submit_auto_release, caught, attempt, with_server, is_sequence_error,
}
use trust_link_backend.ContractClient.Ledger.{is_retried, IsLedger}
use trust_link_backend.ContractClient.Once.{submit_auto_release-once}

record Network : Type 0 where
  tries : ℕ
  taken : ℕ
  clock : ℕ

abbrev answer_to : ℕ → Sending
answer_to zero = record { status = "ERROR"; hash = none; error_result = some "tx_bad_seq" }
answer_to (suc _) = record { status = "PENDING"; hash = some "tx1"; error_result = none }

abbrev took : ℕ → ℕ → ℕ
took zero n = n
took (suc _) n = n + 1

abbrev receive : String → Call Network Sending
receive tx n =
    (value (answer_to n.tries), record n { tries = suc n.tries; taken = took n.tries n.taken })

abbrev look : String → Call Network Transaction
look hash n = (
  value
      (record { status = if leb 1000 n.clock then "SUCCESS" else "NOT_FOUND"; result_xdr = none }),
  n,
)

abbrev network : StellarServer String String Network
network = record {
  load_account = none;
  get_account = some (λ key n. (value key, n));
  simulate_transaction = some (λ tx n. (value (record { flagged = false; error = none }), n));
  prepare_transaction = none;
  send_transaction = some receive;
  poll_transaction = none;
  get_transaction = some look;
  submit_transaction = none;
}

abbrev sdk : Sdk String String Network
sdk = record {
  public_key = λ s. some s;
  account = λ key _. value key;
  is_contract_id = λ _. true;
  build = λ account i. i.function_name;
  assemble = λ tx _. value tx;
  sign = λ _ tx. tx;
  now = λ n. n.clock;
  sleep = λ ms n. record n { clock = n.clock + ms };
}

abbrev settings : Settings
settings = record { contract_id = some "CDLZ"; signer_secret = some "S1" }

abbrev fresh : Network
fresh = record { tries = 0; taken = 0; clock = 0 }

retries_and_confirms :
    submit_auto_release sdk settings (some network) 7 "GADMIN" fresh
    ≡ (value "tx1", record { tries = 2; taken = 1; clock = 1000 })
unfolding submit_auto_release with_server attempt caught is_sequence_error invoke_contract
    invoke_rpc prepare_call fetch_account simulate prepare sign source_of send confirm accept
    prepare_simulated prepare_for send_fault poll_transaction_status poll_with_get_transaction
    poll_from is_pending_status is_sequence_text mentions includes
retries_and_confirms = refl

network-IsClock : IsClock sdk look
network-IsClock = record {
  sleeps = λ ms n. omega arith;
  reads = λ h n. omega arith;
  answers = λ h n e. absurd (cc);
}

poll_with_get_transaction-Finished_example :
    Finished (poll_with_get_transaction sdk look "tx1" fresh)
poll_with_get_transaction-Finished_example =
    poll_with_get_transaction-Finished sdk look network-IsClock "tx1" fresh

took-le : (k n : ℕ) → took k n ≤ n + 1
took-le zero n = omega arith
took-le (suc k) n = omega arith

refused : (k n : ℕ) → ((answer_to k).status == "ERROR") ≡ true → took k n ≤ n
refused zero n h = omega arith
refused (suc k) n h = absurd (cc)

given : {F : Type 0} (P : F → Type 0) (g : F) → P g → (f : F) → some g ≡ some f → P f
given P g h f e = subst P (some-injective g f e) h

ledger : IsLedger sdk (λ n. n.taken) network
ledger = record {
  no_stub = refl;
  load_keeps = λ f e. absurd (cc);
  get_keeps =
      given (λ f. (k : String) (n : Network) → (f k n).1.taken ≤ n.taken) _ (λ k n. omega arith);
  simulate_keeps =
      given (λ f. (x : String) (n : Network) → (f x n).1.taken ≤ n.taken) _ (λ k n. omega arith);
  prepare_keeps = λ f e. absurd (cc);
  send_adds =
      given (λ f. (x : String) (n : Network) → (f x n).1.taken ≤ n.taken + 1) receive
        (λ x n. took-le n.tries n.taken);
  send_refused =
      given
        (λ f. (x : String) (n : Network) → is_retried (f x n).0 ≡ true → (f x n).1.taken ≤ n.taken)
        receive (λ x n h. absurd (cc));
  send_error =
      given
        (λ f.
          (x : String) (n : Network) (r : Sending)
          → (f x n).0 ≡ value r
          → (r.status == "ERROR") ≡ true
          → (f x n).1.taken ≤ n.taken)
        receive
        (λ x n r e h.
          let q : answer_to n.tries ≡ r = cc in
          refused n.tries n.taken (subst (λ z. (z.status == "ERROR") ≡ true) (sym q) h));
  poll_keeps = λ f e. absurd (cc);
  poll_settled = λ f e. absurd (cc);
  status_keeps =
      given (λ f. (h : String) (n : Network) → (f h n).1.taken ≤ n.taken) look (λ h n. omega arith);
  status_settled =
      given (λ f. (h : String) (n : Network) → is_retried (f h n).0 ≡ false) look (λ h n. refl);
  sleep_keeps = λ ms n. omega arith;
}

submit_auto_release-once_example :
    (submit_auto_release sdk settings (some network) 7 "GADMIN" fresh).1.taken ≤ 0 + 1
submit_auto_release-once_example =
    submit_auto_release-once sdk (λ n. n.taken) settings network ledger 7 "GADMIN" fresh
