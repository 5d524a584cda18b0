-- ===== src/Poller/Event.antt =====
-- src/stellar/soroban-poller.service.ts: what an event says, and the event that
-- `syncStateFromChain` takes.
use trust_link_backend.Prelude.{ℕ, String, Option, none, some, ◌==◌, if◌then◌else◌}
use trust_link_backend.Backend.{Resolution, release, refund}
use trust_link_backend.Escrow.Sync.{
  EventType, escrow_funded, escrow_shipped, escrow_completed, escrow_cancelled, escrow_canceled,
  dispute_raised, dispute_resolved, auto_released, escrow_auto_cancelled, escrow_expired,
  refund_approved, other_event, ChainEvent,
}

-- What `parsed.topics` and `parsed.data` hold: a field is `none` where it is no string, and the id
-- where `toContractEscrowId` answers null.
pub record Decoded : Type 0 where
  pub topic0 : Option String
  pub topic1 : Option String
  pub contract_escrow_id : Option ℕ
  pub tracking_id : Option String
  pub camel_tracking_id : Option String
  pub tx_hash : Option String
  pub reason : Option String
  pub resolution : Option String

-- `SorobanRpcEvent`
pub record RpcEvent : Type 0 where
  pub id : String
  pub paging_token : String
  pub payload : Option Decoded

-- `EVENT_TYPE_OVERRIDES[name] ?? name`
pub override : String → String
override name =
    if name == "EscrowReleased"
    then "AutoReleased"
    else if name == "EscrowCanceled"
    then "EscrowCancelled"
    else if name == "EscrowAutoCncl"
    then "EscrowAutoCancelled"
    else name

-- The label of the `switch` that a name falls under.
pub event_type : String → EventType
event_type name =
    if name == "EscrowFunded"
    then escrow_funded
    else if name == "EscrowShipped"
    then escrow_shipped
    else if name == "EscrowCompleted"
    then escrow_completed
    else if name == "EscrowCancelled"
    then escrow_cancelled
    else if name == "EscrowCanceled"
    then escrow_canceled
    else if name == "DisputeRaised"
    then dispute_raised
    else if name == "DisputeResolved"
    then dispute_resolved
    else if name == "AutoReleased"
    then auto_released
    else if name == "EscrowAutoCancelled"
    then escrow_auto_cancelled
    else if name == "EscrowExpired"
    then escrow_expired
    else if name == "RefundApproved"
    then refund_approved
    else other_event

pub data Reason : Type 0 where
  unparsed bad_topics no_escrow_id unmapped : Reason
  sync_failed : ℕ → Reason

-- `parseDisputeResolution`
resolution_of : (String → String) → Option String → Option Resolution
resolution_of upper none = none
resolution_of upper (some v) =
    if upper v == "REFUND" then some refund else if upper v == "RELEASE" then some release else none

pub chain_event : (String → String) → RpcEvent → Decoded → String → String → ChainEvent
unfolding event_type resolution_of
chain_event upper e d name id = record {
  event_type = event_type name;
  escrow_id = id;
  tracking_id = elim d.tracking_id [ none ↦ d.camel_tracking_id | some t ↦ some t ];
  tx_hash = if name == "AutoReleased" then some e.id else d.tx_hash;
  reason = d.reason;
  resolution = resolution_of upper d.resolution;
}
