-- ===== src/Escrow/Sync/Progress.antt =====
-- Chain events and the state machine: `syncStateFromChain` moves escrows along it.
use trust_link_backend.Prelude.{String, Option, none, some, false, not, ◌&&◌, ◌≡◌, refl, arith}
use trust_link_backend.Exec.{Exec, pure, ◌>>=◌}
use trust_link_backend.Escrow.{
  EscrowRecord, DisputeRecord, created, funded, shipped, completed, refunded, cancelled, disputed,
  released, is_state, is_terminal,
}
use trust_link_backend.Backend.{
  Backend, IsBackend, World, Notice, notify_funded, notify_shipped, notify_completed,
  notify_refunded, notify_disputed,
}
use trust_link_backend.Backend.Effects.{notify}
use trust_link_backend.Escrow.Lifecycle.{fund_path, ship_path, finish_path, dispute_path, Follows}
use trust_link_backend.Escrow.Evolves.{
  Evolves, Evolves-refl, Evolves-write, Evolves-bind, Evolves-if, Evolves-find, Evolves-Frame,
  Frame,
}
use trust_link_backend.Escrow.Repository.{stamp, write, update_state}
use trust_link_backend.Escrow.Repository.Coherence.{IsCoherent}
use trust_link_backend.Escrow.Sync.{
  ChainEvent, EventType, SyncResult, SkipReason, escrow_funded, escrow_shipped, escrow_completed,
  escrow_cancelled, escrow_canceled, dispute_raised, dispute_resolved, auto_released,
  escrow_auto_cancelled, escrow_expired, refund_approved, other_event, on_funded, on_shipped,
  on_disputed, on_resolved, on_released, unless_terminal, complete_with, refund_with, cancel_with,
  settle, close_dispute, apply_event, apply_to, sync_state_from_chain, done, applied,
  shipped_tracking, release_hash, is_refund, is_resolved, raise_dispute, find_dispute,
  resolve_dispute,
}

module _ {R D C : Type 0} (b : Backend R D C) (laws : IsBackend b) where
  open b use {escrow_table as T}

  -- The row in the table is the one that the handler was given.
  abbrev At : ChainEvent → EscrowRecord → World R D C → Type 0
  At e r w = T.row e.escrow_id w.escrows ≡ some r

  -- A write of the row, and the notification that ends the handler.
  write-done-Evolves :
      (id : String) (f : EscrowRecord → EscrowRecord) (n : EscrowRecord → Notice) (w : World R D C)
      (r : EscrowRecord)
      → T.row id w.escrows ≡ some r
      → ((x : EscrowRecord) → (f x).id ≡ x.id)
      → Follows r (stamp w.now f r)
      → IsCoherent b w.cached w.escrows
      → Evolves b w.escrows ((write b id f >>= λ x. done b (n x)) w).1
  unfolding done notify
  write-done-Evolves id f n w r at same step i =
      Evolves-bind b laws w.escrows (write b id f) (λ x. done b (n x)) w
        (Evolves-write b laws id f w r at same step i) (λ x w' _ i'. Evolves-refl b w' i')

  on_funded-Evolves :
      (r : EscrowRecord) (e : ChainEvent) (w : World R D C)
      → At e r w
      → IsCoherent b w.cached w.escrows
      → Evolves b w.escrows (on_funded b r e w).1
  unfolding on_funded
  on_funded-Evolves r e w at i =
      Evolves-if b laws w.escrows (not (is_state r.state created)) _ _ w (λ _. Evolves-refl b w i)
        (λ is.
          write-done-Evolves e.escrow_id (λ x. record x { state = funded }) notify_funded w r at
            (λ _. refl) (record { path = fund_path r.state is; same = refl }) i)

  on_shipped-Evolves :
      (r : EscrowRecord) (e : ChainEvent) (w : World R D C)
      → At e r w
      → IsCoherent b w.cached w.escrows
      → Evolves b w.escrows (on_shipped b r e w).1
  unfolding on_shipped
  on_shipped-Evolves r e w at i =
      Evolves-if b laws w.escrows (not (is_state r.state created) && not (is_state r.state funded))
        _ _ w (λ _. Evolves-refl b w i)
        (λ is.
          write-done-Evolves e.escrow_id
            (λ x. record x {
              state = shipped;
              tracking_id = some (shipped_tracking e.tracking_id r.tracking_id);
              shipped_at = some w.now;
            })
            notify_shipped w r at (λ _. refl) (record { path = ship_path r.state is; same = refl })
            i)

  on_released-Evolves :
      (r : EscrowRecord) (e : ChainEvent) (w : World R D C)
      → At e r w
      → IsCoherent b w.cached w.escrows
      → Evolves b w.escrows (on_released b r e w).1
  unfolding on_released
  on_released-Evolves r e w at i =
      Evolves-if b laws w.escrows (is_state r.state released) _ _ w (λ _. Evolves-refl b w i)
        λ _.
          Evolves-if b laws w.escrows (is_terminal r.state) _ _ w (λ _. Evolves-refl b w i)
            λ h.
              write-done-Evolves e.escrow_id
                (λ x. record x {
                  state = released;
                  auto_release_tx_hash = some (release_hash e.tx_hash r.auto_release_tx_hash);
                })
                notify_completed w r at (λ _. refl)
                (record { path = finish_path r.state released refl h; same = refl }) i

  complete_with-Evolves :
      (r : EscrowRecord) (e : ChainEvent) (w : World R D C)
      → At e r w
      → is_terminal r.state ≡ false
      → IsCoherent b w.cached w.escrows
      → Evolves b w.escrows (complete_with b e.escrow_id w).1
  unfolding complete_with
  complete_with-Evolves r e w at h i =
      write-done-Evolves e.escrow_id (λ x. record x { state = completed }) notify_completed w r at
        (λ _. refl) (record { path = finish_path r.state completed refl h; same = refl }) i

  refund_with-Evolves :
      (r : EscrowRecord) (e : ChainEvent) (w : World R D C)
      → At e r w
      → is_terminal r.state ≡ false
      → IsCoherent b w.cached w.escrows
      → Evolves b w.escrows (refund_with b e.escrow_id w).1
  unfolding refund_with
  refund_with-Evolves r e w at h i =
      write-done-Evolves e.escrow_id (λ x. record x { state = refunded }) notify_refunded w r at
        (λ _. refl) (record { path = finish_path r.state refunded refl h; same = refl }) i

  cancel_with-Evolves :
      (r : EscrowRecord) (e : ChainEvent) (w : World R D C)
      → At e r w
      → is_terminal r.state ≡ false
      → IsCoherent b w.cached w.escrows
      → Evolves b w.escrows (cancel_with b e.escrow_id w).1
  unfolding cancel_with
  cancel_with-Evolves r e w at h i =
      let f = λ (x : EscrowRecord). record x { state = cancelled; cancelled_at = some w.now } in
      Evolves-bind b laws w.escrows (write b e.escrow_id f) (λ _. pure applied) w
        (Evolves-write b laws e.escrow_id f w r at (λ _. refl)
          (record { path = finish_path r.state cancelled refl h; same = refl }) i)
        (λ x w' _ i'. Evolves-refl b w' i')

  settle-Evolves :
      (r : EscrowRecord) (e : ChainEvent) (w : World R D C)
      → At e r w
      → is_terminal r.state ≡ false
      → IsCoherent b w.cached w.escrows
      → Evolves b w.escrows (settle b e w).1
  unfolding settle
  settle-Evolves r e w at h i =
      Evolves-if b laws w.escrows (is_refund e.resolution) _ _ w
        (λ _. refund_with-Evolves r e w at h i) (λ _. complete_with-Evolves r e w at h i)

  -- A query of the dispute table leaves the escrows and the cache.
  find_dispute-Frame : (id : String) (w : World R D C) → Frame b laws (find_dispute b id) w
  unfolding find_dispute
  find_dispute-Frame id w = ground arith

  resolve_dispute-Frame : (id : String) (w : World R D C) → Frame b laws (resolve_dispute b id) w
  unfolding resolve_dispute
  resolve_dispute-Frame id w = ground arith

  raise_dispute-Frame :
      (uuid : String) (e : ChainEvent) (w : World R D C) → Frame b laws (raise_dispute b uuid e) w
  unfolding raise_dispute
  raise_dispute-Frame uuid e w = ground arith

  close_dispute-Evolves :
      (o : Option DisputeRecord) (r : EscrowRecord) (e : ChainEvent) (w : World R D C)
      → At e r w
      → is_terminal r.state ≡ false
      → IsCoherent b w.cached w.escrows
      → Evolves b w.escrows (close_dispute b e o w).1
  unfolding close_dispute
  close_dispute-Evolves none r e w at h i = settle-Evolves r e w at h i
  close_dispute-Evolves (some d) r e w at h i =
      Evolves-if b laws w.escrows (is_resolved d.status) _ _ w (λ _. Evolves-refl b w i)
        λ _.
          Evolves-Frame b laws (resolve_dispute b d.id) (λ _. settle b e) w
            (resolve_dispute-Frame d.id w) i
            (λ _ w' same i'. settle-Evolves r e w' (rw same at) h i')

  on_resolved-Evolves :
      (r : EscrowRecord) (e : ChainEvent) (w : World R D C)
      → At e r w
      → IsCoherent b w.cached w.escrows
      → Evolves b w.escrows (on_resolved b r e w).1
  unfolding on_resolved
  on_resolved-Evolves r e w at i =
      Evolves-if b laws w.escrows (is_terminal r.state) _ _ w (λ _. Evolves-refl b w i)
        λ h.
          Evolves-Frame b laws (find_dispute b e.escrow_id) (close_dispute b e) w
            (find_dispute-Frame e.escrow_id w) i
            (λ o w' same i'. close_dispute-Evolves o r e w' (rw same at) h i')

  on_disputed-Evolves :
      (uuid : String) (r : EscrowRecord) (e : ChainEvent) (w : World R D C)
      → At e r w
      → IsCoherent b w.cached w.escrows
      → Evolves b w.escrows (on_disputed b uuid r e w).1
  unfolding on_disputed
  on_disputed-Evolves uuid r e w at i =
      Evolves-if b laws w.escrows (is_state r.state disputed) _ _ w (λ _. Evolves-refl b w i)
        λ n.
          Evolves-if b laws w.escrows (is_terminal r.state) _ _ w (λ _. Evolves-refl b w i)
            λ h.
              Evolves-Frame b laws (raise_dispute b uuid e)
                (λ _. update_state b e.escrow_id disputed >>= λ x. done b (notify_disputed x)) w
                (raise_dispute-Frame uuid e w) i
                (λ _ w' same i'.
                  write-done-Evolves e.escrow_id (λ x. record x { state = disputed })
                    notify_disputed w' r (rw same at) (λ _. refl)
                    (record { path = dispute_path r.state n h; same = refl }) i')

  unless_terminal-Evolves :
      (r : EscrowRecord) (s : SkipReason) (m : Exec (World R D C) SyncResult) (w : World R D C)
      → (is_terminal r.state ≡ false → Evolves b w.escrows (m w).1)
      → IsCoherent b w.cached w.escrows
      → Evolves b w.escrows (unless_terminal b r s m w).1
  unfolding unless_terminal
  unless_terminal-Evolves r s m w go i =
      Evolves-if b laws w.escrows (is_terminal r.state) _ m w (λ _. Evolves-refl b w i) go

  apply_event-Evolves :
      (uuid : String) (r : EscrowRecord) (e : ChainEvent) (t : EventType) (w : World R D C)
      → At e r w
      → IsCoherent b w.cached w.escrows
      → Evolves b w.escrows (apply_event b uuid e r t w).1
  unfolding apply_event
  apply_event-Evolves uuid r e escrow_funded w at i = on_funded-Evolves r e w at i
  apply_event-Evolves uuid r e escrow_shipped w at i = on_shipped-Evolves r e w at i
  apply_event-Evolves uuid r e escrow_completed w at i =
      unless_terminal-Evolves r _ _ w (λ h. complete_with-Evolves r e w at h i) i
  apply_event-Evolves uuid r e escrow_cancelled w at i =
      unless_terminal-Evolves r _ _ w (λ h. cancel_with-Evolves r e w at h i) i
  apply_event-Evolves uuid r e escrow_canceled w at i =
      unless_terminal-Evolves r _ _ w (λ h. cancel_with-Evolves r e w at h i) i
  apply_event-Evolves uuid r e dispute_raised w at i = on_disputed-Evolves uuid r e w at i
  apply_event-Evolves uuid r e dispute_resolved w at i = on_resolved-Evolves r e w at i
  apply_event-Evolves uuid r e auto_released w at i = on_released-Evolves r e w at i
  apply_event-Evolves uuid r e escrow_auto_cancelled w at i =
      unless_terminal-Evolves r _ _ w (λ h. cancel_with-Evolves r e w at h i) i
  apply_event-Evolves uuid r e escrow_expired w at i =
      unless_terminal-Evolves r _ _ w (λ h. refund_with-Evolves r e w at h i) i
  apply_event-Evolves uuid r e refund_approved w at i =
      unless_terminal-Evolves r _ _ w (λ h. refund_with-Evolves r e w at h i) i
  apply_event-Evolves uuid r e other_event w at i = Evolves-refl b w i

  apply_to-Evolves :
      (uuid : String) (e : ChainEvent) (o : Option EscrowRecord) (w : World R D C)
      → T.row e.escrow_id w.escrows ≡ o
      → IsCoherent b w.cached w.escrows
      → Evolves b w.escrows (apply_to b uuid e o w).1
  unfolding apply_to
  apply_to-Evolves uuid e none w at i = Evolves-refl b w i
  apply_to-Evolves uuid e (some r) w at i = apply_event-Evolves uuid r e e.event_type w at i

  -- Whatever the event, each row of the table moves along the state machine, keeps its parties,
  -- amount and contract id, and no row is lost; the cache stays coherent. It holds too where a
  -- query is rejected half way.
  pub sync-Evolves :
      (uuid : String) (e : ChainEvent) (w : World R D C)
      → IsCoherent b w.cached w.escrows
      → Evolves b w.escrows (sync_state_from_chain b uuid e w).1
  unfolding sync_state_from_chain
  sync-Evolves uuid e w i =
      Evolves-find b laws e.escrow_id (apply_to b uuid e) w i
        (λ o w' i' at. apply_to-Evolves uuid e o w' at i')
