-- ===== src/Escrow/Sync.antt =====
-- src/escrow/escrow.service.ts, `syncStateFromChain`: an on-chain event drives the escrow's state.
pub mod Progress
pub mod Replay
use trust_link_backend.Prelude.{
  ℕ, String, Option, none, some, List, [], Bool, true, false, not, ◌&&◌, ◌||◌, ◌==◌, if◌then◌else◌,
  truthy, or_else,
}
use trust_link_backend.Exec.{Exec, Outcome, ok, err, rejected, pure, raise, lift, ◌>>=◌, ◌>>◌}
use trust_link_backend.Escrow.{
  EscrowState, EscrowRecord, DisputeRecord, DisputeState, created, funded, disputed, released,
  resolved, open_, is_state, is_terminal,
}
use trust_link_backend.Backend.{
  Backend, World, Resolution, release, refund, Notice, notify_funded, notify_shipped,
  notify_completed, notify_refunded, notify_disputed,
}
use trust_link_backend.Escrow.Repository.{
  find_by_id, update_state, mark_shipped, mark_completed, mark_refunded, mark_cancelled,
  mark_auto_released,
}
use trust_link_backend.Backend.Effects.{notify}

-- The labels of the `switch`; `other_event` is any other text.
pub data EventType : Type 0 where
  escrow_funded escrow_shipped escrow_completed escrow_cancelled escrow_canceled : EventType
  dispute_raised dispute_resolved auto_released escrow_auto_cancelled : EventType
  escrow_expired refund_approved other_event : EventType

-- `SorobanChainEvent`
pub record ChainEvent : Type 0 where
  pub event_type : EventType
  pub escrow_id : String
  pub tracking_id : Option String
  pub tx_hash : Option String
  pub reason : Option String
  pub resolution : Option Resolution

pub data SkipReason : Type 0 where
  escrow_not_found already_funded_or_terminal already_shipped_or_terminal : SkipReason
  already_completed_or_terminal already_cancelled_or_terminal already_disputed : SkipReason
  terminal_state dispute_already_resolved already_released already_refunded_or_terminal : SkipReason
  unknown_event_type : SkipReason

pub data SyncResult : Type 0 where
  skipped : SkipReason → SyncResult
  applied : SyncResult

-- `event.txHash || escrow.autoReleaseTxHash || ''`
abbrev pub release_hash : Option String → Option String → String
release_hash tx old =
    if truthy tx then or_else tx "" else (if truthy old then or_else old "" else "")

-- `event.trackingId ?? escrow.trackingId ?? ''`
abbrev pub shipped_tracking : Option String → Option String → String
shipped_tracking (some t) old = t
shipped_tracking none old = or_else old ""

abbrev is_refund : Option Resolution → Bool
is_refund (some refund) = true
is_refund _ = false

abbrev is_resolved : DisputeState → Bool
is_resolved resolved = true
is_resolved _ = false

abbrev new_dispute : String → ChainEvent → ℕ → DisputeRecord
new_dispute uuid e now = record {
  id = uuid;
  escrow_id = e.escrow_id;
  reason = or_else e.reason "on-chain dispute";
  description = "";
  evidence_urls = [];
  status = open_;
  resolved_at = none;
  created_at = now;
  updated_at = now;
}

module _ {R D C : Type 0} (b : Backend R D C) where
  open b use {dispute_table as Q}

  -- `prisma.dispute.create`
  unfoldable pub create_dispute : DisputeRecord → Exec (World R D C) DisputeRecord
  create_dispute d w = elim (Q.create d w.disputes) [
    | none ↦ (err rejected, w)
    | some t ↦ (ok d, record w { disputes = t })
  ]

  raise_dispute : String → ChainEvent → Exec (World R D C) DisputeRecord
  unfolding create_dispute
  raise_dispute uuid e w = create_dispute (new_dispute uuid e w.now) w

  -- `prisma.dispute.findFirst({ where: { escrowId } })`
  unfoldable pub find_dispute : String → Exec (World R D C) (Option DisputeRecord)
  find_dispute id w = elim (Q.find_first (λ d. d.escrow_id == id) w.disputes) [
    | none ↦ (err rejected, w)
    | some o ↦ (ok o, w)
  ]

  -- `dispute.update({ where: { id }, data: { status: 'RESOLVED', resolvedAt: new Date() } })`
  unfoldable pub resolve_dispute : String → Exec (World R D C) (Unit {0})
  resolve_dispute id w =
      elim (Q.update id
        (λ d. record d { status = resolved; resolved_at = some w.now; updated_at = w.now })
        w.disputes) [ none ↦ (err rejected, w) | some (_, t) ↦ (ok tt, record w { disputes = t }) ]

  -- The end of a handler: the notification is dispatched and not awaited.
  unfoldable pub done : Notice → Exec (World R D C) SyncResult
  done n = do notify b n; pure applied

  unfoldable pub complete_with : String → Exec (World R D C) SyncResult
  unfolding done
  complete_with id = do r ← mark_completed b id; done (notify_completed r)

  refund_with : String → Exec (World R D C) SyncResult
  unfolding done
  refund_with id = do r ← mark_refunded b id; done (notify_refunded r)

  cancel_with : String → Exec (World R D C) SyncResult
  cancel_with id = do mark_cancelled b id; pure applied

  settle : ChainEvent → Exec (World R D C) SyncResult
  unfolding complete_with refund_with
  settle e = if is_refund e.resolution then refund_with e.escrow_id else complete_with e.escrow_id

  close_dispute : ChainEvent → Option DisputeRecord → Exec (World R D C) SyncResult
  unfolding resolve_dispute settle
  close_dispute e none = settle e
  close_dispute e (some d) =
      if is_resolved d.status
      then pure (skipped dispute_already_resolved)
      else do resolve_dispute d.id; settle e

  -- `EscrowFunded`
  on_funded : EscrowRecord → ChainEvent → Exec (World R D C) SyncResult
  unfolding done
  on_funded r e =
      if not (is_state r.state created)
      then pure (skipped already_funded_or_terminal)
      else do x ← update_state b e.escrow_id funded; done (notify_funded x)

  on_shipped : EscrowRecord → ChainEvent → Exec (World R D C) SyncResult
  unfolding done
  on_shipped r e =
      if not (is_state r.state created) && not (is_state r.state funded)
      then pure (skipped already_shipped_or_terminal)
      else do
        x ← mark_shipped b e.escrow_id (shipped_tracking e.tracking_id r.tracking_id)
        done (notify_shipped x)

  on_disputed : String → EscrowRecord → ChainEvent → Exec (World R D C) SyncResult
  unfolding raise_dispute done
  on_disputed uuid r e =
      if is_state r.state disputed
      then pure (skipped already_disputed)
      else if is_terminal r.state
      then pure (skipped terminal_state)
      else do
        raise_dispute uuid e
        x ← update_state b e.escrow_id disputed
        done (notify_disputed x)

  on_resolved : EscrowRecord → ChainEvent → Exec (World R D C) SyncResult
  unfolding find_dispute close_dispute
  on_resolved r e =
      if is_terminal r.state
      then pure (skipped terminal_state)
      else do d ← find_dispute e.escrow_id; close_dispute e d

  on_released : EscrowRecord → ChainEvent → Exec (World R D C) SyncResult
  unfolding done
  on_released r e =
      if is_state r.state released
      then pure (skipped already_released)
      else if is_terminal r.state
      then pure (skipped terminal_state)
      else do
        x ← mark_auto_released b e.escrow_id (release_hash e.tx_hash r.auto_release_tx_hash)
        done (notify_completed x)

  -- The cases that a terminal state alone skips: the target state is itself terminal.
  unfoldable pub unless_terminal :
      EscrowRecord → SkipReason → Exec (World R D C) SyncResult → Exec (World R D C) SyncResult
  unless_terminal r reason m = if is_terminal r.state then pure (skipped reason) else m

  -- The `switch`.
  unfoldable pub apply_event :
      String → ChainEvent → EscrowRecord → EventType → Exec (World R D C) SyncResult
  unfolding on_funded on_shipped on_disputed on_resolved on_released unless_terminal complete_with
      refund_with cancel_with
  apply_event uuid e r escrow_funded = on_funded r e
  apply_event uuid e r escrow_shipped = on_shipped r e
  apply_event uuid e r escrow_completed =
      unless_terminal r already_completed_or_terminal (complete_with e.escrow_id)
  apply_event uuid e r escrow_cancelled =
      unless_terminal r already_cancelled_or_terminal (cancel_with e.escrow_id)
  apply_event uuid e r escrow_canceled =
      unless_terminal r already_cancelled_or_terminal (cancel_with e.escrow_id)
  apply_event uuid e r dispute_raised = on_disputed uuid r e
  apply_event uuid e r dispute_resolved = on_resolved r e
  apply_event uuid e r auto_released = on_released r e
  apply_event uuid e r escrow_auto_cancelled =
      unless_terminal r already_cancelled_or_terminal (cancel_with e.escrow_id)
  apply_event uuid e r escrow_expired =
      unless_terminal r already_refunded_or_terminal (refund_with e.escrow_id)
  apply_event uuid e r refund_approved =
      unless_terminal r already_refunded_or_terminal (refund_with e.escrow_id)
  apply_event uuid e r other_event = pure (skipped unknown_event_type)

  unfoldable pub apply_to :
      String → ChainEvent → Option EscrowRecord → Exec (World R D C) SyncResult
  unfolding apply_event
  apply_to uuid e none = pure (skipped escrow_not_found)
  apply_to uuid e (some r) = apply_event uuid e r e.event_type

  -- `uuid` is what `crypto.randomUUID()` returns, should a dispute be created.
  unfoldable pub sync_state_from_chain : String → ChainEvent → Exec (World R D C) SyncResult
  unfolding apply_to
  sync_state_from_chain uuid e = do found ← find_by_id b e.escrow_id; apply_to uuid e found
