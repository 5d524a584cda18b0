-- ===== src/System.antt =====
-- The whole backend as the escrows see it: every request, chain event and worker run as an
-- operation, in any order, one after another. The clock moves between them.
pub mod Safety
use trust_link_backend.Prelude.{ℕ, ◌+◌, String, Option, List, [], ◌∷◌, Bool}
use trust_link_backend.Exec.{Outcome}
use trust_link_backend.Backend.{Backend, World, Resolution}
use trust_link_backend.Escrow.Repository.{CreateEscrow}
use trust_link_backend.Escrow.Service.{
  BuyerContact, create_idempotent, cancel_escrow, cancel_pending_escrow, handle_shipment,
  update_buyer_contact,
}
use trust_link_backend.Escrow.View.{get_escrow_for_viewer}
use trust_link_backend.Escrow.Tracking.{get_tracking}
use trust_link_backend.Escrow.Sync.{ChainEvent, sync_state_from_chain}
use trust_link_backend.Dispute.{OpenDispute, open_dispute, resolve}
use trust_link_backend.Webhook.{Event, Horizon, handle_payment}
use trust_link_backend.Worker.AutoRelease
use trust_link_backend.Worker.TrackingPoll

pub data Operation : Type 0 where
  -- the id and the caller, if known; a read fills the cache
  read_op : String → Option String → Operation
  -- the carrier's answer
  track_op : String → Option (String → Outcome String) → Operation
  -- the idempotency key, a fresh id, the request and the vendor
  create_op : String → String → CreateEscrow → String → Operation
  cancel_op cancel_pending_op : String → String → Bool → Operation
  ship_op : String → String → String → Bool → Operation
  contact_op : String → BuyerContact → Operation
  sync_op : String → ChainEvent → Operation
  open_dispute_op : String → String → String → OpenDispute → Operation
  resolve_op : String → Resolution → Operation
  auto_release_op : ℕ → Operation
  -- the carrier's answers during this run
  tracking_poll_op : (String → Outcome String) → Operation
  -- a payment that Horizon reports; whether it was reported before does not matter here
  payment_op : Event → Operation
  tick_op : ℕ → Operation

module _ {R D C P : Type 0} (b : Backend R D C) (h : Horizon P) (hash : CreateEscrow → String) where
  -- An error of an operation is answered to its caller; what was written stays written.
  pub perform : Operation → World R D C → World R D C
  perform (read_op id caller) w = (get_escrow_for_viewer b id caller w).1
  perform (track_op id logistics) w = (get_tracking b logistics id w).1
  perform (create_op key uuid dto vendor) w = (create_idempotent b hash key uuid dto vendor w).1
  perform (cancel_op id caller is_admin) w = (cancel_escrow b id caller is_admin w).1
  perform (cancel_pending_op id caller is_admin) w =
      (cancel_pending_escrow b id caller is_admin w).1
  perform (ship_op id vendor tracking is_admin) w =
      (handle_shipment b id vendor tracking is_admin w).1
  perform (contact_op id dto) w = (update_buyer_contact b id dto w).1
  perform (sync_op uuid e) w = (sync_state_from_chain b uuid e w).1
  perform (open_dispute_op uuid id caller dto) w = (open_dispute b uuid id caller dto w).1
  perform (resolve_op id resolution) w = (resolve b id resolution w).1
  perform (auto_release_op reference) w = (AutoRelease.run_cycle b reference w).1
  perform (tracking_poll_op carrier) w = TrackingPoll.run_cycle b carrier w
  perform (payment_op e) w = (handle_payment b h e w).1
  perform (tick_op n) w = record w { now = w.now + n }

  pub run : List Operation → World R D C → World R D C
  unfolding perform
  run [] w = w
  run (o ∷ os) w = run os (perform o w)
