-- ===== src/ContractClient/Invoke.antt =====
-- src/stellar/contract.service.ts: one call of the contract, from the source account to the final
-- status, and reading an escrow's state. The messages leave out what the SDK reports.
use Prim.Native.String.{◌++◌}
use trust_link_backend.Prelude.{
  String, Option, none, some, Bool, false, not, ◌&&◌, ◌||◌, ◌==◌, if◌then◌else◌, truthy, or_else,
  is_some,
}
use trust_link_backend.ContractClient.{
  Call, Answer, Fault, call_failed, thrown, unfinished, pure, throw, handle, ◌>>=◌, ◌>>◌,
  Simulation, Sending, Receipt, Invocation, StellarServer, Sdk, Settings, is_sequence_text,
}
use trust_link_backend.ContractClient.Confirm.{poll_transaction_status}

-- `x === text` on an optional text
abbrev pub text_is : Option String → String → Bool
text_is none t = false
text_is (some s) t = s == t

-- `throw` where a test fails
abbrev pub require : {S : Type 0} → Bool → String → Call S (Unit {0})
require test message = if test then pure tt else throw (call_failed message)

-- A server that submits a description of the call and cannot simulate.
abbrev pub stub_of :
    {A X S : Type 0}
    → StellarServer A X S
    → Option (String → Option String → Invocation → Call S Receipt)
stub_of server = if is_some server.simulate_transaction then none else server.submit_transaction

-- The operation's name in such a description.
pub operation_name : String → String
operation_name f =
    if f == "resolve_dispute"
    then "resolveDispute"
    else if f == "auto_release"
    then "autoRelease"
    else if f == "cancel_escrow"
    then "cancelEscrow"
    else if f == "record_delivery"
    then "recordDelivery"
    else f

-- `isSimulationError`
abbrev pub is_simulation_error : Simulation → Bool
is_simulation_error r = r.flagged || truthy r.error

-- What the status ERROR of a submission throws.
unfoldable pub send_fault : Option String → Fault
unfolding is_sequence_text
send_fault raw =
    let message = or_else raw "Transaction submission returned ERROR status" in
    if is_sequence_text message
    then thrown ("sequence error: " ++ message)
    else call_failed ("Submission failed: " ++ message)

-- Any failure to prepare the transaction is a failed call.
abbrev pub as_call_failed : {S B : Type 0} → Fault → Call S B
as_call_failed (thrown m) = throw (call_failed m)
as_call_failed (call_failed m) = throw (call_failed m)
as_call_failed unfinished = throw unfinished

module _ {A X S : Type 0} (sdk : Sdk A X S) (settings : Settings)
    (server : StellarServer A X S) where
  -- The end of `invokeContract` for a stub.
  unfoldable pub check_receipt : Receipt → Call S String
  check_receipt r =
      if text_is r.status "ERROR" || text_is r.result_xdr "TxFailed"
      then throw (call_failed "Soroban contract call failed")
      else if truthy r.hash
      then pure (or_else r.hash "")
      else throw (call_failed "Missing transaction hash")

  -- The sequence that a stub is handed for an auto-release.
  unfoldable pub stub_sequence : Invocation → Call S (Option String)
  stub_sequence i =
      if (i.function_name == "auto_release") && is_some i.source_address
      then elim server.load_account [
        | none ↦ pure none
        | some load ↦ do sequence ← load (or_else i.source_address ""); pure (some sequence)
      ]
      else pure none

  unfoldable pub invoke_stub :
      (String → Option String → Invocation → Call S Receipt) → Invocation → Call S String
  unfolding check_receipt stub_sequence operation_name
  invoke_stub submit i = do
    sequence ← stub_sequence i
    r ← submit (operation_name i.function_name) sequence i
    check_receipt r

  abbrev lift : {B : Type 0} → Answer B → Call S B
  lift x s = (x, s)

  -- `fetchAccount`
  unfoldable pub fetch_account : String → Call S A
  fetch_account key = elim server.get_account [
    | some get ↦ get key
    | none ↦ elim server.load_account [
      | some load ↦ do sequence ← load key; lift (sdk.account key sequence)
      | none ↦ lift (sdk.account key "0")
    ]
  ]

  unfoldable pub simulate : X → Call S Simulation
  simulate tx = elim server.simulate_transaction [
    | some run ↦ run tx
    | none ↦ throw (call_failed "simulateTransaction is not supported")
  ]

  unfoldable pub prepare : X → Simulation → Call S X
  prepare tx r s =
      handle as_call_failed
        (elim server.prepare_transaction [ some run ↦ run tx s | none ↦ (sdk.assemble tx r, s) ])

  -- `signTransaction`, if the secret is a key.
  unfoldable pub sign : X → X
  sign tx =
      if truthy settings.signer_secret
        && is_some (sdk.public_key (or_else settings.signer_secret ""))
      then sdk.sign (or_else settings.signer_secret "") tx
      else tx

  unfoldable pub send : X → Call S Sending
  send tx = elim server.send_transaction [
    | some run ↦ run tx
    | none ↦ throw (call_failed "sendTransaction is not supported")
  ]

  -- Steps 6 and 7 of `invokeContract`: submit, and wait for the final status.
  unfoldable pub confirm : String → Call S String
  unfolding poll_transaction_status
  confirm hash = do
    final ← poll_transaction_status sdk server hash
    require (not (final.status == "FAILED")) "Contract execution failed"
    pure hash

  unfoldable pub accept : Sending → Call S String
  unfolding confirm send_fault
  accept r =
      if r.status == "ERROR"
      then throw (send_fault r.error_result)
      else if truthy r.hash
      then confirm (or_else r.hash "")
      else throw (call_failed "Missing transaction hash")

  -- `sourceAddress || signerKeypair?.publicKey()`
  unfoldable pub source_of : Invocation → Option String
  source_of i =
      if truthy i.source_address
      then i.source_address
      else if truthy settings.signer_secret
      then sdk.public_key (or_else settings.signer_secret "")
      else none

  -- Steps 3 to 5 of `invokeContract`: simulate, prepare and sign.
  unfoldable pub prepare_simulated : X → Simulation → Call S X
  unfolding prepare sign
  prepare_simulated tx r = do
    require (not (is_simulation_error r)) "Simulation failed"
    prepared ← prepare tx r
    pure (sign prepared)

  -- The transaction for an account.
  unfoldable pub prepare_for : Invocation → A → Call S X
  unfolding simulate prepare_simulated
  prepare_for i account = do
    require (sdk.is_contract_id (or_else settings.contract_id "")) "Invalid contract ID"
    r ← simulate (sdk.build account i)
    prepare_simulated (sdk.build account i) r

  unfoldable pub prepare_call : Invocation → Call S X
  unfolding fetch_account prepare_for source_of
  prepare_call i = do
    require (truthy settings.contract_id) "CONTRACT_ID is not configured; cannot invoke contract."
    require (truthy (source_of i)) "No source address available"
    account ← fetch_account (or_else (source_of i) "")
    prepare_for i account

  unfoldable pub invoke_rpc : Invocation → Call S String
  unfolding prepare_call send accept
  invoke_rpc i = do tx ← prepare_call i; r ← send tx; accept r

  -- `invokeContractInternal`, where a server is configured
  unfoldable pub invoke_contract : Invocation → Call S String
  unfolding invoke_stub invoke_rpc
  invoke_contract i = elim (stub_of server) [
    | some submit ↦ invoke_stub submit i
    | none ↦ invoke_rpc i
  ]
