-- ===== src/ContractClient/AutoRelease.antt =====
-- src/stellar/contract.service.ts: the service's operations, and the retries of an auto-release.
use trust_link_backend.Prelude.{
  ℕ, zero, suc, String, Option, none, some, [], ◌∷◌, Bool, false, if◌then◌else◌, or_else, truthy,
}
use trust_link_backend.Backend.{Resolution, ChainEscrow, absent, present}
use trust_link_backend.ContractClient.{
  Call, Answer, Fault, call_failed, thrown, unfinished, pure, throw, handle, ◌>>=◌, ◌>>◌, address,
  u64, resolution, text, Invocation, Receipt, StellarServer, Sdk, Settings, is_sequence_text,
}
use trust_link_backend.ContractClient.Invoke.{
  text_is, require, stub_of, is_simulation_error, simulate, invoke_contract,
}

-- `DEFAULT_AUTO_RELEASE_MAX_RETRIES`
abbrev pub max_retries : ℕ
max_retries = 2

-- `isSequenceError` of what was caught
unfoldable pub is_sequence_error : Fault → Bool
unfolding is_sequence_text
is_sequence_error (call_failed m) = is_sequence_text m
is_sequence_error (thrown m) = is_sequence_text m
is_sequence_error unfinished = false

abbrev pub auto_release_call : ℕ → String → Invocation
auto_release_call id source = record {
  function_name = "auto_release";
  arguments = u64 id ∷ [];
  source_address = some source;
}

abbrev pub resolve_dispute_call : ℕ → Resolution → String → Invocation
resolve_dispute_call id r caller = record {
  function_name = "resolve_dispute";
  arguments = address caller ∷ u64 id ∷ resolution r ∷ [];
  source_address = none;
}

abbrev pub cancel_escrow_call : ℕ → String → Invocation
cancel_escrow_call id caller = record {
  function_name = "cancel_escrow";
  arguments = address caller ∷ u64 id ∷ [];
  source_address = none;
}

abbrev pub record_delivery_call : ℕ → String → Invocation
record_delivery_call id caller = record {
  function_name = "record_delivery";
  arguments = address caller ∷ u64 id ∷ [];
  source_address = none;
}

-- The simulated call of `getEscrowState`, whose id is the number's decimal text.
abbrev pub get_escrow_call : String → Invocation
get_escrow_call id = record {
  function_name = "get_escrow";
  arguments = text id ∷ [];
  source_address = none;
}

-- The account that the simulation is built for.
abbrev reader : String
reader = "GBBD47IF6LWK7P7MDEVSCWR7DPUWV3NY3DTQEVFL4NAT4AQH3ZLLFLA5"

abbrev lift : {S B : Type 0} → Answer B → Call S B
lift x s = (x, s)

-- What a stub answers to `getEscrowState`.
abbrev pub state_of_receipt : Receipt → ChainEscrow
state_of_receipt r =
    if text_is r.status "ERROR" then absent else present (or_else r.result_xdr "CREATED")

module _ {A X S : Type 0} (sdk : Sdk A X S) (settings : Settings) where
  module _ (server : StellarServer A X S) where
    -- The `catch` of an attempt. `again` is the next one, if any is left.
    unfoldable pub caught : Option (Call S String) → Fault → Call S String
    unfolding is_sequence_error
    caught again (call_failed m) = throw (call_failed m)
    caught again unfinished = throw unfinished
    caught (some again) (thrown m) =
        if is_sequence_error (thrown m) then again else throw (call_failed m)
    caught none (thrown m) =
        if is_sequence_error (thrown m)
        then throw (call_failed "Max retries exceeded")
        else throw (call_failed m)

    -- The loop of `submitAutoRelease`, with `left` retries left.
    unfoldable pub attempt : ℕ → Invocation → Call S String
    unfolding invoke_contract caught
    attempt zero i s = handle (caught none) (invoke_contract sdk settings server i s)
    attempt (suc left) i s =
        handle (caught (some (attempt left i))) (invoke_contract sdk settings server i s)

    -- The simulation of `getEscrowState`; an account that cannot be built throws.
    unfoldable pub simulate_state : String → Call S ChainEscrow
    unfolding simulate
    simulate_state id = do
      require (truthy settings.contract_id) "CONTRACT_ID is not configured; cannot invoke contract."
      require (sdk.is_contract_id (or_else settings.contract_id "")) "Invalid contract ID"
      account ← lift (sdk.account reader "0")
      r ← simulate sdk settings server (sdk.build account (get_escrow_call id))
      pure (if is_simulation_error r then absent else present "CREATED")

    -- `getEscrowStateInternal`, where a server is configured: any error is caught.
    unfoldable pub read_state : String → Call S ChainEscrow
    unfolding simulate_state
    read_state id s =
        handle (λ _. pure absent)
          (elim (stub_of server) [
            | some submit ↦
                (do
                  r ← submit "getEscrowState" none (get_escrow_call id)
                  pure (state_of_receipt r))
                  s
            | none ↦ simulate_state id s
          ])

  -- The server is optional.
  module _ (configured : Option (StellarServer A X S)) where
    unfoldable pub with_server : {B : Type 0} → (StellarServer A X S → Call S B) → Call S B
    with_server run = elim configured [
      | none ↦ throw (call_failed "Stellar server is not configured")
      | some server ↦ run server
    ]

    unfoldable pub submit_auto_release : ℕ → String → Call S String
    unfolding with_server attempt
    submit_auto_release id source =
        with_server (λ server. attempt server max_retries (auto_release_call id source))

    unfoldable pub resolve_dispute : ℕ → Resolution → String → Call S String
    unfolding with_server invoke_contract
    resolve_dispute id r caller =
        with_server
          (λ server. invoke_contract sdk settings server (resolve_dispute_call id r caller))

    unfoldable pub cancel_escrow_on_chain : ℕ → String → Call S String
    unfolding with_server invoke_contract
    cancel_escrow_on_chain id caller =
        with_server (λ server. invoke_contract sdk settings server (cancel_escrow_call id caller))

    unfoldable pub record_delivery : ℕ → String → Call S String
    unfolding with_server invoke_contract
    record_delivery id caller =
        with_server (λ server. invoke_contract sdk settings server (record_delivery_call id caller))

    unfoldable pub get_escrow_state : String → Call S ChainEscrow
    unfolding read_state
    get_escrow_state id = elim configured [
      | none ↦ pure absent
      | some server ↦ read_state server id
    ]
