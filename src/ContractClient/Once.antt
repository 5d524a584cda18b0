-- ===== src/ContractClient/Once.antt =====
-- src/stellar/contract.service.ts: an auto-release has one transaction accepted, at most.
use trust_link_backend.Prelude.{
  ℕ, zero, suc, ◌+◌, ◌≤◌, String, none, some, Bool, true, false, not, ◌≡◌, refl, inl, inr, arith,
  ◌==◌, Bool-cases, Option-cases, truthy, or_else, leb,
}
use trust_link_backend.ContractClient.{
  Call, Answer, value, fault, call_failed, thrown, unfinished, pure, continue, handle, ◌>>=◌, ◌>>◌,
  Sending, Transaction, Invocation, StellarServer, Sdk, Settings,
}
use trust_link_backend.ContractClient.Confirm.{
  poll_from, poll_with_get_transaction, poll_transaction_status, is_pending_status, poll_interval,
  confirm_timeout,
}
use trust_link_backend.ContractClient.Invoke.{
  require, send, confirm, accept, prepare_call, invoke_rpc, invoke_contract,
}
use trust_link_backend.ContractClient.AutoRelease.{
  max_retries, is_sequence_error, auto_release_call, caught, attempt, submit_auto_release,
}
use trust_link_backend.ContractClient.Ledger.{
  is_retried, IsLedger, Settles, Settles-bind, prepare_call-Keeps,
}

module _ {A X S : Type 0} (sdk : Sdk A X S) (accepted : S → ℕ) (settings : Settings)
    (server : StellarServer A X S) (ledger : IsLedger sdk accepted server) where
  module _ (get : String → Call S Transaction) (found : server.get_transaction ≡ some get) where
    poll_from-Settles :
        (rounds deadline : ℕ) (hash : String) (r : Transaction)
        → Settles sdk accepted (poll_from sdk get rounds deadline hash r)
    unfolding poll_from
    poll_from-Settles zero deadline hash r s = (omega arith, refl)
    poll_from-Settles (suc rounds) deadline hash r s =
        let s' = sdk.sleep poll_interval s in
        let (l, e) =
          Settles-bind sdk accepted (get hash) (poll_from sdk get rounds deadline hash)
            (λ t. (ledger.status_keeps get found hash t, ledger.status_settled get found hash t))
            (poll_from-Settles rounds deadline hash) s' in
        elim (Bool-cases (is_pending_status r.status)) [
          | inr done ↦ rw (poll_from, done) (omega arith, refl)
          | inl pending ↦ elim (Bool-cases (leb deadline (sdk.now s))) [
            | inl up ↦ rw (poll_from, pending, up) (omega arith, refl)
            | inr more ↦
                rw (poll_from, pending, more) (omega (arith, ledger.sleep_keeps poll_interval s), e)
          ]
        ]

    poll_with-Settles :
        (hash : String) → Settles sdk accepted (poll_with_get_transaction sdk get hash)
    unfolding poll_with_get_transaction
    poll_with-Settles hash s =
        Settles-bind sdk accepted (get hash)
          (poll_from sdk get 122 (sdk.now s + confirm_timeout) hash)
          (λ t. (ledger.status_keeps get found hash t, ledger.status_settled get found hash t))
          (poll_from-Settles 122 (sdk.now s + confirm_timeout) hash) s

  poll_transaction_status-Settles :
      (hash : String) → Settles sdk accepted (poll_transaction_status sdk server hash)
  unfolding poll_transaction_status
  poll_transaction_status-Settles hash s = elim (Option-cases server.poll_transaction) [
    | inr (poll, e) ↦
        rw (poll_transaction_status, e)
          (ledger.poll_keeps poll e hash s, ledger.poll_settled poll e hash s)
    | inl e ↦ elim (Option-cases server.get_transaction) [
      | inr (get, e') ↦ rw (poll_transaction_status, e, e') (poll_with-Settles get e' hash s)
      | inl e' ↦ rw (poll_transaction_status, e, e') (omega arith, refl)
    ]
  ]

  checked-Settles :
      (b : Bool) (hash : String)
      → Settles sdk accepted (require b "Contract execution failed" >> pure hash)
  checked-Settles true hash s = (omega arith, refl)
  checked-Settles false hash s = (omega arith, refl)

  confirm-Settles : (hash : String) → Settles sdk accepted (confirm sdk settings server hash)
  unfolding confirm
  confirm-Settles hash =
      Settles-bind sdk accepted (poll_transaction_status sdk server hash)
        (λ final. require (not (final.status == "FAILED")) "Contract execution failed" >> pure hash)
        (poll_transaction_status-Settles hash)
        (λ final. checked-Settles (not (final.status == "FAILED")) hash)

  -- At most one transaction more than `n`, and none if another attempt follows.
  abbrev Spent : ℕ → Answer String × S → Type 0
  Spent n x = (accepted x.1 ≤ n + 1) × (is_retried x.0 ≡ true → accepted x.1 ≤ n)

  accept-Spent :
      (n : ℕ) (r : Sending) (s : S)
      → accepted s ≤ n + 1
      → ((r.status == "ERROR") ≡ true → accepted s ≤ n)
      → Spent n (accept sdk settings server r s)
  unfolding accept
  accept-Spent n r s h refused = elim (Bool-cases (r.status == "ERROR")) [
    | inl e ↦ rw (accept, e) (h, λ _. refused e)
    | inr e ↦ elim (Bool-cases (truthy r.hash)) [
      | inl t ↦
          let (l, settled) = confirm-Settles (or_else r.hash "") s in
          rw (accept, e, t) (omega arith, λ q. absurd (cc))
      | inr t ↦ rw (accept, e, t) (h, λ q. absurd (cc))
    ]
  ]

  -- From the answer of `sendTransaction` on.
  sent-Spent :
      (n : ℕ) (x : Answer Sending × S)
      → accepted x.1 ≤ n + 1
      → (is_retried x.0 ≡ true → accepted x.1 ≤ n)
      → ((r : Sending) → x.0 ≡ value r → (r.status == "ERROR") ≡ true → accepted x.1 ≤ n)
      → Spent n (continue (accept sdk settings server) x)
  sent-Spent n (value r, s) h retried refused = accept-Spent n r s h (refused r refl)
  sent-Spent n (fault (call_failed _), s) h retried refused = (h, retried)
  sent-Spent n (fault (thrown _), s) h retried refused = (h, retried)
  sent-Spent n (fault unfinished, s) h retried refused = (h, retried)

  send-Spent :
      (tx : X) (s : S)
      → Spent (accepted s) ((send sdk settings server tx >>= accept sdk settings server) s)
  unfolding send accept
  send-Spent tx s = elim (Option-cases server.send_transaction) [
    | inl e ↦ rw (send, e) (omega arith, λ q. absurd (cc))
    | inr (run, e) ↦
        rw (send, e)
          (sent-Spent (accepted s) (run tx s) (ledger.send_adds run e tx s)
            (ledger.send_refused run e tx s) (λ r v q. ledger.send_error run e tx s r v q))
  ]

  prepared-Spent :
      (n : ℕ) (x : Answer X × S)
      → accepted x.1 ≤ n
      → Spent n (continue (λ tx. send sdk settings server tx >>= accept sdk settings server) x)
  prepared-Spent n (value tx, s) h =
      let (l, q) = send-Spent tx s in (omega arith, λ e. let z = q e in omega arith)
  prepared-Spent n (fault f, s) h = (omega arith, λ _. h)

  invoke_contract-Spent :
      (i : Invocation) (s : S) → Spent (accepted s) (invoke_contract sdk settings server i s)
  unfolding invoke_contract invoke_rpc
  invoke_contract-Spent i s =
      rw (invoke_contract, ledger.no_stub)
        (prepared-Spent (accepted s) (prepare_call sdk settings server i s)
          (prepare_call-Keeps sdk accepted settings server ledger i s))

  -- The `catch` of an attempt, with or without another attempt.
  caught-last :
      (n : ℕ) (x : Answer String × S)
      → Spent n x
      → accepted (handle (caught sdk settings server none) x).1 ≤ n + 1
  unfolding caught
  caught-last n (value h, s) p = p.0
  caught-last n (fault (call_failed m), s) p = p.0
  caught-last n (fault unfinished, s) p = p.0
  caught-last n (fault (thrown m), s) p = elim (Bool-cases (is_sequence_error (thrown m))) [
    | inl e ↦ rw (caught, e) p.0
    | inr e ↦ rw (caught, e) p.0
  ]

  caught-again :
      (n : ℕ) (again : Call S String) (x : Answer String × S)
      → ((s : S) → accepted (again s).1 ≤ accepted s + 1)
      → Spent n x
      → accepted (handle (caught sdk settings server (some again)) x).1 ≤ n + 1
  unfolding caught
  caught-again n again (value h, s) rest p = p.0
  caught-again n again (fault (call_failed m), s) rest p = p.0
  caught-again n again (fault unfinished, s) rest p = p.0
  caught-again n again (fault (thrown m), s) rest p =
      elim (Bool-cases (is_sequence_error (thrown m))) [
        | inl e ↦ rw (caught, e) (omega (arith, rest s, p.1 e))
        | inr e ↦ rw (caught, e) p.0
      ]

  attempt-once :
      (left : ℕ) (i : Invocation) (s : S)
      → accepted (attempt sdk settings server left i s).1 ≤ accepted s + 1
  unfolding attempt
  attempt-once zero i s =
      caught-last (accepted s) (invoke_contract sdk settings server i s) (invoke_contract-Spent i s)
  attempt-once (suc left) i s =
      caught-again (accepted s) (attempt sdk settings server left i)
        (invoke_contract sdk settings server i s) (attempt-once left i) (invoke_contract-Spent i s)

  -- An auto-release has one transaction accepted at most, however often it is attempted.
  pub submit_auto_release-once :
      (id : ℕ) (source : String) (s : S)
      → accepted (submit_auto_release sdk settings (some server) id source s).1 ≤ accepted s + 1
  unfolding submit_auto_release
  submit_auto_release-once id source s = attempt-once max_retries (auto_release_call id source) s
