-- ===== src/ContractClient/Ledger.antt =====
-- src/stellar/contract.service.ts: the transactions that the network has accepted, and the steps of
-- a call before its submission, which add none.
use trust_link_backend.Prelude.{
  ℕ, ◌+◌, ◌≤◌, String, none, some, Bool, true, false, not, ◌≡◌, inl, inr, arith, ◌==◌, Option-cases,
  truthy, or_else,
}
use trust_link_backend.ContractClient.{
  Call, Answer, value, fault, call_failed, thrown, unfinished, pure, continue, handle, ◌>>=◌, ◌>>◌,
  Simulation, Sending, Transaction, Invocation, StellarServer, Sdk, Settings,
}
use trust_link_backend.ContractClient.Invoke.{
  as_call_failed, require, stub_of, is_simulation_error, fetch_account, simulate, prepare, sign,
  source_of, prepare_simulated, prepare_for, prepare_call,
}
use trust_link_backend.ContractClient.AutoRelease.{is_sequence_error}

-- What an attempt leads to another one after.
abbrev pub is_retried : {B : Type 0} → Answer B → Bool
is_retried (value _) = false
is_retried (fault (call_failed _)) = false
is_retried (fault (thrown m)) = is_sequence_error (thrown m)
is_retried (fault unfinished) = false

module _ {A X S : Type 0} (sdk : Sdk A X S) (accepted : S → ℕ) where
  abbrev pub Keeps : {B : Type 0} → Call S B → Type 0
  Keeps m = (s : S) → accepted (m s).1 ≤ accepted s

  -- `accepted` counts the transactions that the network took. Only `sendTransaction` adds to it, one
  -- at most, and none that it refuses: with the status ERROR, or with a sequence error. Waiting for a
  -- status reports no sequence error, and a simulation is to be had.
  pub record IsLedger (server : StellarServer A X S) : Type 0 where
    pub no_stub : stub_of server ≡ none
    pub load_keeps :
        (f : String → Call S String) → server.load_account ≡ some f → (k : String) → Keeps (f k)
    pub get_keeps :
        (f : String → Call S A) → server.get_account ≡ some f → (k : String) → Keeps (f k)
    pub simulate_keeps :
        (f : X → Call S Simulation) → server.simulate_transaction ≡ some f → (x : X) → Keeps (f x)
    pub prepare_keeps :
        (f : X → Call S X) → server.prepare_transaction ≡ some f → (x : X) → Keeps (f x)
    pub send_adds :
        (f : X → Call S Sending)
        → server.send_transaction ≡ some f
        → (x : X) (s : S) → accepted (f x s).1 ≤ accepted s + 1
    pub send_refused :
        (f : X → Call S Sending)
        → server.send_transaction ≡ some f
        → (x : X) (s : S) → is_retried (f x s).0 ≡ true
        → accepted (f x s).1 ≤ accepted s
    pub send_error :
        (f : X → Call S Sending)
        → server.send_transaction ≡ some f
        → (x : X) (s : S) (r : Sending) → (f x s).0 ≡ value r
        → (r.status == "ERROR") ≡ true
        → accepted (f x s).1 ≤ accepted s
    pub poll_keeps :
        (f : String → Call S Transaction)
        → server.poll_transaction ≡ some f
        → (h : String) → Keeps (f h)
    pub poll_settled :
        (f : String → Call S Transaction)
        → server.poll_transaction ≡ some f
        → (h : String) (s : S) → is_retried (f h s).0 ≡ false
    pub status_keeps :
        (f : String → Call S Transaction)
        → server.get_transaction ≡ some f
        → (h : String) → Keeps (f h)
    pub status_settled :
        (f : String → Call S Transaction)
        → server.get_transaction ≡ some f
        → (h : String) (s : S) → is_retried (f h s).0 ≡ false
    pub sleep_keeps : (ms : ℕ) (s : S) → accepted (sdk.sleep ms s) ≤ accepted s

  Keeps-bind :
      {B E : Type 0} (m : Call S B) (k : B → Call S E)
      → Keeps m
      → ((b : B) → Keeps (k b))
      → Keeps (m >>= k)
  Keeps-bind {B} m k h rest s = go (m s) (h s)
    where
      go : (x : Answer B × S) → accepted x.1 ≤ accepted s → accepted (continue k x).1 ≤ accepted s
      go (value b, s') q = omega (arith, rest b s')
      go (fault f, s') q = q

  Keeps-require :
      {B : Type 0} (b : Bool) (m : String) (k : Call S B) → Keeps k → Keeps (require b m >> k)
  Keeps-require true m k h s = h s
  Keeps-require false m k h s = omega arith

  Keeps-pure : {B : Type 0} (b : B) → Keeps (pure {S = S} b)
  Keeps-pure b s = omega arith

  -- An error that is turned into another.
  turned :
      {B : Type 0} (n : ℕ) (x : Answer B × S)
      → accepted x.1 ≤ n
      → accepted (handle as_call_failed x).1 ≤ n
  turned n (value b, s) h = h
  turned n (fault (call_failed _), s) h = h
  turned n (fault (thrown _), s) h = h
  turned n (fault unfinished, s) h = h

  -- What is kept, and is not tried again.
  abbrev pub Settles : {B : Type 0} → Call S B → Type 0
  Settles m = (s : S) → (accepted (m s).1 ≤ accepted s) × (is_retried (m s).0 ≡ false)

  pub Settles-bind :
      {B E : Type 0} (m : Call S B) (k : B → Call S E)
      → Settles m
      → ((b : B) → Settles (k b))
      → Settles (m >>= k)
  Settles-bind {B} m k h rest s = go (m s) (h s)
    where
      go :
          (x : Answer B × S)
          → (accepted x.1 ≤ accepted s) × (is_retried x.0 ≡ false)
          → (accepted (continue k x).1 ≤ accepted s) × (is_retried (continue k x).0 ≡ false)
      go (value b, s') q = let (l, e) = rest b s' in (omega arith, e)
      go (fault (call_failed m'), s') q = q
      go (fault (thrown m'), s') q = q
      go (fault unfinished, s') q = q

  module _ (settings : Settings) (server : StellarServer A X S) (ledger : IsLedger server) where
    fetch_account-Keeps : (key : String) → Keeps (fetch_account sdk settings server key)
    unfolding fetch_account
    fetch_account-Keeps key = elim (Option-cases server.get_account) [
      | inr (get, e) ↦ rw (fetch_account, e) (ledger.get_keeps get e key)
      | inl e ↦ elim (Option-cases server.load_account) [
        | inr (load, e') ↦
            rw (fetch_account, e, e')
              (Keeps-bind (load key) _ (ledger.load_keeps load e' key) (λ _ s. omega arith))
        | inl e' ↦ rw (fetch_account, e, e') (λ s. omega arith)
      ]
    ]

    simulate-Keeps : (tx : X) → Keeps (simulate sdk settings server tx)
    unfolding simulate
    simulate-Keeps tx = elim (Option-cases server.simulate_transaction) [
      | inr (run, e) ↦ rw (simulate, e) (ledger.simulate_keeps run e tx)
      | inl e ↦ rw (simulate, e) (λ s. omega arith)
    ]

    prepare-Keeps : (tx : X) (r : Simulation) → Keeps (prepare sdk settings server tx r)
    unfolding prepare
    prepare-Keeps tx r s = elim (Option-cases server.prepare_transaction) [
      | inr (run, e) ↦
          rw (prepare, e) (turned (accepted s) (run tx s) (ledger.prepare_keeps run e tx s))
      | inl e ↦ rw (prepare, e) (turned (accepted s) (sdk.assemble tx r, s) (omega arith))
    ]

    prepare_simulated-Keeps :
        (tx : X) (r : Simulation) → Keeps (prepare_simulated sdk settings server tx r)
    unfolding prepare_simulated
    prepare_simulated-Keeps tx r =
        Keeps-require (not (is_simulation_error r)) "Simulation failed"
          (prepare sdk settings server tx r >>= λ x. pure (sign sdk settings server x))
          (Keeps-bind (prepare sdk settings server tx r) (λ x. pure (sign sdk settings server x))
            (prepare-Keeps tx r) (λ x. Keeps-pure (sign sdk settings server x)))

    prepare_for-Keeps :
        (i : Invocation) (account : A) → Keeps (prepare_for sdk settings server i account)
    unfolding prepare_for
    prepare_for-Keeps i account =
        let tx = sdk.build account i in
        Keeps-require (sdk.is_contract_id (or_else settings.contract_id "")) "Invalid contract ID"
          (simulate sdk settings server tx >>= prepare_simulated sdk settings server tx)
          (Keeps-bind (simulate sdk settings server tx) (prepare_simulated sdk settings server tx)
            (simulate-Keeps tx) (prepare_simulated-Keeps tx))

    pub prepare_call-Keeps : (i : Invocation) → Keeps (prepare_call sdk settings server i)
    unfolding prepare_call
    prepare_call-Keeps i =
        let source = source_of sdk settings server i in
        let build =
          fetch_account sdk settings server (or_else source "")
          >>= prepare_for sdk settings server i in
        Keeps-require (truthy settings.contract_id)
          "CONTRACT_ID is not configured; cannot invoke contract."
          (require (truthy source) "No source address available" >> build)
          (Keeps-require (truthy source) "No source address available" build (
            Keeps-bind (fetch_account sdk settings server (or_else source ""))
              (prepare_for sdk settings server i) (fetch_account-Keeps (or_else source ""))
              (prepare_for-Keeps i)))
