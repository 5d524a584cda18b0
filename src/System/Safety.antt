-- ===== src/System/Safety.antt =====
-- What holds of the escrows after any sequence of operations (src/escrow, src/admin/dispute,
-- src/workers and src/webhooks together).
use mathlib.Core.Path.{subst}
use trust_link_backend.Prelude.{
  ◌≤◌, String, Option, none, some, List, [], ◌∷◌, true, ◌≡◌, refl, ◌⊎◌,
}
use trust_link_backend.Escrow.View.{get_escrow_for_viewer, to_public_escrow, viewer_of}
use trust_link_backend.Escrow.Tracking.{get_tracking-Evolves}
use trust_link_backend.Exec.{pure, ok, err, rejected}
use trust_link_backend.Escrow.{EscrowRecord, disputed, is_terminal}
use trust_link_backend.Escrow.Lifecycle.{
  Follows, Moves, rank, deal, ⟶*-rank, ⟶*-terminal, from_disputed,
}
use trust_link_backend.Escrow.Evolves.{Evolves, Evolves-refl, Evolves-trans}
use trust_link_backend.Escrow.Repository.{CreateEscrow, find_by_id}
use trust_link_backend.Escrow.Repository.Coherence.{IsCoherent, read_lem}
use trust_link_backend.Backend.{Backend, IsBackend, World}
use trust_link_backend.Escrow.Service.Progress.{
  Evolves-load, create_idempotent-Evolves, cancel_escrow-Evolves, cancel_pending_escrow-Evolves,
  handle_shipment-Evolves, update_buyer_contact-Evolves,
}
use trust_link_backend.Escrow.Sync.Progress.{sync-Evolves}
use trust_link_backend.Dispute.Progress.{open_dispute-Evolves, resolve-Evolves}
use trust_link_backend.Worker.AutoRelease.Progress.{run_cycle-Evolves}
use trust_link_backend.Worker.TrackingPoll.Progress.{poll-Evolves}
use trust_link_backend.Webhook.{Horizon}
use trust_link_backend.Webhook.Progress.{handle_payment-Evolves}
use trust_link_backend.System.{
  Operation, read_op, track_op, create_op, cancel_op, cancel_pending_op, ship_op, contact_op,
  sync_op, open_dispute_op, resolve_op, auto_release_op, tracking_poll_op, payment_op, tick_op,
  perform, run,
}

module _ {R D C P : Type 0} (b : Backend R D C) (laws : IsBackend b) (h : Horizon P)
    (hash : CreateEscrow → String) where
  open b use {escrow_table as T}

  perform-Evolves :
      (o : Operation) (w : World R D C)
      → IsCoherent b w.cached w.escrows
      → Evolves b w.escrows (perform b h hash o w)
  unfolding perform get_escrow_for_viewer
  perform-Evolves (read_op id caller) w i =
      Evolves-load b laws id (λ r. pure (to_public_escrow r, viewer_of caller r)) w i
        (λ r w' i' _. Evolves-refl b w' i')
  perform-Evolves (track_op id logistics) w i = get_tracking-Evolves b laws logistics id w i
  perform-Evolves (create_op key uuid dto vendor) w i =
      create_idempotent-Evolves b laws hash key uuid dto vendor w i
  perform-Evolves (cancel_op id caller is_admin) w i =
      cancel_escrow-Evolves b laws id caller is_admin w i
  perform-Evolves (cancel_pending_op id caller is_admin) w i =
      cancel_pending_escrow-Evolves b laws id caller is_admin w i
  perform-Evolves (ship_op id vendor tracking is_admin) w i =
      handle_shipment-Evolves b laws id vendor tracking is_admin w i
  perform-Evolves (contact_op id dto) w i = update_buyer_contact-Evolves b laws id dto w i
  perform-Evolves (sync_op uuid e) w i = sync-Evolves b laws uuid e w i
  perform-Evolves (open_dispute_op uuid id caller dto) w i =
      open_dispute-Evolves b laws uuid id caller dto w i
  perform-Evolves (resolve_op id resolution) w i = resolve-Evolves b laws id resolution w i
  perform-Evolves (auto_release_op reference) w i = run_cycle-Evolves b laws reference w i
  perform-Evolves (tracking_poll_op carrier) w i = poll-Evolves b laws carrier w i
  perform-Evolves (payment_op e) w i = handle_payment-Evolves b laws h e w i
  perform-Evolves (tick_op n) w i = Evolves-refl b w i

  -- From a state whose cache is coherent, any sequence of operations leaves the cache coherent and
  -- moves each escrow along the state machine, with its id, contract id, amount, currency, buyer and
  -- vendor as they were. No escrow is deleted. It holds whichever queries and calls fail.
  pub run-Evolves :
      (os : List Operation) (w : World R D C)
      → IsCoherent b w.cached w.escrows
      → Evolves b w.escrows (run b h hash os w)
  unfolding run
  run-Evolves [] w i = Evolves-refl b w i
  run-Evolves (o ∷ os) w i =
      let first = perform-Evolves o w i in
      Evolves-trans b w.escrows (perform b h hash o w) (run b h hash os (perform b h hash o w))
        first (run-Evolves os (perform b h hash o w) first.coherent)

  followed :
      (r : EscrowRecord) (o : Option EscrowRecord)
      → Moves (some r) o
      → (r' : EscrowRecord) × (o ≡ some r') × Follows r r'
  followed r none m = absurd m
  followed r (some r') m = (r', refl, m)

  -- An escrow of the table is there after any sequence of operations, on a path of the state machine.
  run-Follows :
      (os : List Operation) (w : World R D C) (id : String) (r : EscrowRecord)
      → IsCoherent b w.cached w.escrows
      → T.row id w.escrows ≡ some r
      → (r' : EscrowRecord) × (T.row id (run b h hash os w).escrows ≡ some r') × Follows r r'
  run-Follows os w id r i at = followed r (T.row id (run b h hash os w).escrows) (
      subst (λ o. Moves o (T.row id (run b h hash os w).escrows)) at
        ((run-Evolves os w i).moves id))

  -- An escrow that is completed, released, refunded or cancelled is in that state, with the same
  -- deal, after any sequence of operations.
  pub run-terminal :
      (os : List Operation) (w : World R D C) (id : String) (r : EscrowRecord)
      → IsCoherent b w.cached w.escrows
      → T.row id w.escrows ≡ some r
      → is_terminal r.state ≡ true
      → (r' : EscrowRecord) × (T.row id (run b h hash os w).escrows ≡ some r')
        × (r'.state ≡ r.state)
        × (deal r' ≡ deal r)
  run-terminal os w id r i at h =
      let (r', at', f) = run-Follows os w id r i at in (r', at', ⟶*-terminal f.path h, f.same)

  -- The rank of an escrow's state (created 0, funded 1, shipped 2, delivered 3, disputed 4, terminal
  -- 5) never falls.
  pub run-rank :
      (os : List Operation) (w : World R D C) (id : String) (r : EscrowRecord)
      → IsCoherent b w.cached w.escrows
      → T.row id w.escrows ≡ some r
      → (r' : EscrowRecord) × (T.row id (run b h hash os w).escrows ≡ some r')
        × (rank r.state ≤ rank r'.state)
  run-rank os w id r i at =
      let (r', at', f) = run-Follows os w id r i at in (r', at', ⟶*-rank f.path)

  -- A disputed escrow is still disputed, or in a terminal state: no shipment, delivery or funding
  -- takes it out of the dispute.
  pub run-disputed :
      (os : List Operation) (w : World R D C) (id : String) (r : EscrowRecord)
      → IsCoherent b w.cached w.escrows
      → T.row id w.escrows ≡ some r
      → r.state ≡ disputed
      → (r' : EscrowRecord) × (T.row id (run b h hash os w).escrows ≡ some r')
        × ((r'.state ≡ disputed) ⊎ (is_terminal r'.state ≡ true))
  run-disputed os w id r i at h =
      let (r', at', f) = run-Follows os w id r i at in (r', at', from_disputed f.path h)

  -- After any sequence of operations a read through the cache returns the row that the table
  -- holds, unless its query is rejected; and it leaves the table.
  pub run-read :
      (os : List Operation) (w : World R D C) (id : String)
      → IsCoherent b w.cached w.escrows
      → let w' = run b h hash os w in
        (c : C) × ((find_by_id b id w' ≡ (err rejected, record w' { cached = c }))
          ⊎ (find_by_id b id w' ≡ (ok (T.row id w'.escrows), record w' { cached = c })))
  run-read os w id i =
      let (c, _, read) = read_lem b laws id (run b h hash os w) (run-Evolves os w i).coherent in
      (c, read)
