-- ===== src/Escrow/Sync/Replay.antt =====
-- src/escrow/escrow.service.ts, `syncStateFromChain`: an event that is delivered twice. The poller
-- reads a ledger range again after a crash, so it does happen.
use mathlib.Core.Path.{subst}
use trust_link_backend.Prelude.{
  String, Option, none, some, Bool, true, false, not, ◌&&◌, ◌||◌, ◌≡◌, refl, sym, ap, ◌∙◌, ◌⊎◌, inl,
  inr, if◌then◌else◌, arith, eq_refl, Bool-cases, ◌∷◌,
}
use trust_link_backend.Exec.{Exec, Outcome, ok, err, rejected, pure, continue, ◌>>=◌}
use trust_link_backend.Escrow.{
  EscrowState, EscrowRecord, DisputeRecord, created, funded, completed, refunded, cancelled,
  disputed, released, is_state, is_terminal,
}
use trust_link_backend.Escrow.Repository.{find_by_id, write, stamp, update_state, mark_shipped}
use trust_link_backend.Escrow.Repository.Coherence.{IsCoherent, read_lem, write-cases}
use trust_link_backend.Escrow.Sync.Progress.{sync-Evolves}
use trust_link_backend.Backend.{
  Backend, IsBackend, World, Notice, notify_funded, notify_shipped, notify_completed,
  notify_refunded, notify_disputed,
}
use trust_link_backend.Backend.Effects.{notify}
use trust_link_backend.Escrow.Sync.{
  EventType, escrow_funded, escrow_shipped, escrow_completed, escrow_cancelled, escrow_canceled,
  dispute_raised, dispute_resolved, auto_released, escrow_auto_cancelled, escrow_expired,
  refund_approved, other_event, ChainEvent, SyncResult, SkipReason, skipped, applied, done,
  shipped_tracking, on_funded, on_shipped, on_disputed, on_resolved, on_released, unless_terminal,
  complete_with, refund_with, cancel_with, settle, is_refund, is_resolved, close_dispute,
  raise_dispute, apply_event, apply_to, unknown_event_type, sync_state_from_chain, find_dispute,
  resolve_dispute,
}

-- The states in which the handler of an event skips it.
pub skips : EventType → EscrowState → Bool
skips escrow_funded s = not (is_state s created)
skips escrow_shipped s = not (is_state s created) && not (is_state s funded)
skips dispute_raised s = is_state s disputed || is_terminal s
skips other_event s = true
skips _ s = is_terminal s

module _ {R D C : Type 0} (b : Backend R D C) (laws : IsBackend b) where
  open b use {escrow_table as T}

  abbrev Skipped : Exec (World R D C) SyncResult → World R D C → Type 0
  Skipped m w = (s : SkipReason) × (m w ≡ (ok (skipped s), w))

  skipped_if :
      (x : Bool) (s : SkipReason) (m : Exec (World R D C) SyncResult) (w : World R D C)
      → x ≡ true
      → Skipped (if x then pure (skipped s) else m) w
  skipped_if true s m w h = (s, refl)
  skipped_if false s m w h = absurd (cc h)

  skipped_next :
      (x y : Bool) (s s' : SkipReason) (m : Exec (World R D C) SyncResult) (w : World R D C)
      → x || y ≡ true
      → Skipped (if x then pure (skipped s) else (if y then pure (skipped s') else m)) w
  skipped_next true y s s' m w h = (s, refl)
  skipped_next false true s s' m w h = (s', refl)
  skipped_next false false s s' m w h = absurd (cc h)

  apply_event-Skipped :
      (uuid : String) (r : EscrowRecord) (e : ChainEvent) (t : EventType) (w : World R D C)
      → skips t r.state ≡ true
      → Skipped (apply_event b uuid e r t) w
  unfolding apply_event skips on_funded on_shipped on_disputed on_resolved on_released
      unless_terminal
  apply_event-Skipped uuid r e escrow_funded w h = skipped_if _ _ _ w h
  apply_event-Skipped uuid r e escrow_shipped w h = skipped_if _ _ _ w h
  apply_event-Skipped uuid r e escrow_completed w h = skipped_if _ _ _ w h
  apply_event-Skipped uuid r e escrow_cancelled w h = skipped_if _ _ _ w h
  apply_event-Skipped uuid r e escrow_canceled w h = skipped_if _ _ _ w h
  apply_event-Skipped uuid r e dispute_raised w h =
      skipped_next (is_state r.state disputed) (is_terminal r.state) _ _ _ w h
  apply_event-Skipped uuid r e dispute_resolved w h = skipped_if _ _ _ w h
  apply_event-Skipped uuid r e auto_released w h =
      skipped_next (is_state r.state released) (is_terminal r.state) _ _ _ w (ground (arith, h))
  apply_event-Skipped uuid r e escrow_auto_cancelled w h = skipped_if _ _ _ w h
  apply_event-Skipped uuid r e escrow_expired w h = skipped_if _ _ _ w h
  apply_event-Skipped uuid r e refund_approved w h = skipped_if _ _ _ w h
  apply_event-Skipped uuid r e other_event w h = (unknown_event_type, refl)

  -- If the action applied its event, the escrow's state is one in which the event is skipped.
  abbrev Settles : ChainEvent → EventType → Exec (World R D C) SyncResult → World R D C → Type 0
  Settles e t m w =
      (w' : World R D C)
      → m w ≡ (ok applied, w')
      → (r : EscrowRecord) × (T.row e.escrow_id w'.escrows ≡ some r) × (skips t r.state ≡ true)

  write-done-Settles :
      (e : ChainEvent) (t : EventType) (f : EscrowRecord → EscrowRecord) (n : EscrowRecord → Notice)
      (w : World R D C)
      → ((x : EscrowRecord) → skips t (f x).state ≡ true)
      → Settles e t (write b e.escrow_id f >>= λ x. done b (n x)) w
  unfolding done notify
  write-done-Settles e t f n w h w' q = elim (write-cases b laws e.escrow_id f w) [
    | inl z ↦ absurd (cc (z, q))
    | inr (old, t', c, found, z, rows, held) ↦
        let made = record w {
          escrows = t';
          cached = c;
          notices = n (stamp w.now f old) ∷ w.notices;
        } in
        let ran : (write b e.escrow_id f >>= λ x. done b (n x)) w ≡ (ok applied, made) =
          rw z refl in
        let last : w' ≡ made = ap (λ y. y.1) (sym q ∙ ran) in
        (
          stamp w.now f old,
          ap (λ y. T.row e.escrow_id y.escrows) last
              ∙ rows e.escrow_id
              ∙ ground (arith, eq_refl e.escrow_id),
          h old,
        )
  ]

  if-Settles :
      (e : ChainEvent) (t : EventType) (x : Bool) (s : SkipReason)
      (m : Exec (World R D C) SyncResult) (w : World R D C)
      → Settles e t m w
      → Settles e t (if x then pure (skipped s) else m) w
  if-Settles e t true s m w h w' q = absurd (cc q)
  if-Settles e t false s m w h w' q = h w' q

  bind-Settles :
      {A : Type 0} (e : ChainEvent) (t : EventType) (m : Exec (World R D C) A)
      (k : A → Exec (World R D C) SyncResult) (w : World R D C)
      → ((a : A) (v : World R D C) → Settles e t (k a) v)
      → Settles e t (m >>= k) w
  bind-Settles {A = A} e t m k w h w' = go (m w)
    where
      go :
          (x : Outcome A × World R D C)
          → continue k x ≡ (ok applied, w')
          → (r : EscrowRecord) × (T.row e.escrow_id w'.escrows ≡ some r) × (skips t r.state ≡ true)
      go (ok a, v) q = h a v w' q
      go (err f, v) q = absurd (cc q)

  cancel_with-Settles :
      (e : ChainEvent) (t : EventType) (w : World R D C)
      → skips t cancelled ≡ true
      → Settles e t (cancel_with b e.escrow_id) w
  unfolding cancel_with
  cancel_with-Settles e t w h w' q =
      elim (write-cases b laws e.escrow_id
        (λ x. record x { state = cancelled; cancelled_at = some w.now }) w) [
          | inl z ↦ absurd (cc (z, q))
          | inr (old, t', c, found, z, rows, held) ↦
              let made = record w { escrows = t'; cached = c } in
              let ran : cancel_with b e.escrow_id w ≡ (ok applied, made) = rw z refl in
              let last : w' ≡ made = ap (λ y. y.1) (sym q ∙ ran) in
              (
                stamp w.now (λ x. record x { state = cancelled; cancelled_at = some w.now }) old,
                ap (λ y. T.row e.escrow_id y.escrows) last
                    ∙ rows e.escrow_id
                    ∙ ground (arith, eq_refl e.escrow_id),
                h,
              )
        ]

  settle-Settles :
      (e : ChainEvent) (t : EventType) (w : World R D C)
      → skips t completed ≡ true
      → skips t refunded ≡ true
      → Settles e t (settle b e) w
  unfolding settle complete_with refund_with
  settle-Settles e t w h k = elim (Bool-cases (is_refund e.resolution)) [
    | inl x ↦ rw x (write-done-Settles e t _ notify_refunded w (λ _. k))
    | inr x ↦ rw x (write-done-Settles e t _ notify_completed w (λ _. h))
  ]

  close_dispute-Settles :
      (e : ChainEvent) (o : Option DisputeRecord) (w : World R D C)
      → Settles e dispute_resolved (close_dispute b e o) w
  unfolding close_dispute skips
  close_dispute-Settles e none w = settle-Settles e dispute_resolved w refl refl
  close_dispute-Settles e (some d) w = if-Settles e dispute_resolved (is_resolved d.status) _ _ w (
      bind-Settles e dispute_resolved (resolve_dispute b d.id) (λ _. settle b e) w
        (λ _ v. settle-Settles e dispute_resolved v refl refl))

  apply_event-Settles :
      (uuid : String) (r : EscrowRecord) (e : ChainEvent) (t : EventType) (w : World R D C)
      → Settles e t (apply_event b uuid e r t) w
  unfolding apply_event skips on_funded on_shipped on_disputed on_resolved on_released
      unless_terminal complete_with refund_with
  apply_event-Settles uuid r e escrow_funded w =
      if-Settles e escrow_funded (skips escrow_funded r.state) _
        (update_state b e.escrow_id funded >>= λ x. done b (notify_funded x)) w
        (write-done-Settles e escrow_funded _ notify_funded w (λ _. refl))
  apply_event-Settles uuid r e escrow_shipped w =
      if-Settles e escrow_shipped (skips escrow_shipped r.state) _
        (mark_shipped b e.escrow_id (shipped_tracking e.tracking_id r.tracking_id) >>= λ x.
          done b (notify_shipped x))
        w (write-done-Settles e escrow_shipped _ notify_shipped w (λ _. refl))
  apply_event-Settles uuid r e escrow_completed w =
      if-Settles e escrow_completed (skips escrow_completed r.state) _ (complete_with b e.escrow_id)
        w (write-done-Settles e escrow_completed _ notify_completed w (λ _. refl))
  apply_event-Settles uuid r e escrow_cancelled w =
      if-Settles e escrow_cancelled (skips escrow_cancelled r.state) _ (cancel_with b e.escrow_id) w
        (cancel_with-Settles e escrow_cancelled w refl)
  apply_event-Settles uuid r e escrow_canceled w =
      if-Settles e escrow_canceled (skips escrow_canceled r.state) _ (cancel_with b e.escrow_id) w
        (cancel_with-Settles e escrow_canceled w refl)
  apply_event-Settles uuid r e dispute_raised w =
      if-Settles e dispute_raised (is_state r.state disputed) _ _ w (
        if-Settles e dispute_raised (is_terminal r.state) _ _ w (
          bind-Settles e dispute_raised (raise_dispute b uuid e)
            (λ _. update_state b e.escrow_id disputed >>= λ x. done b (notify_disputed x)) w
            (λ _ v. write-done-Settles e dispute_raised _ notify_disputed v (λ _. refl))))
  apply_event-Settles uuid r e dispute_resolved w =
      if-Settles e dispute_resolved (is_terminal r.state) _ _ w (
        bind-Settles e dispute_resolved (find_dispute b e.escrow_id) (close_dispute b e) w
          (λ d v. close_dispute-Settles e d v))
  apply_event-Settles uuid r e auto_released w =
      if-Settles e auto_released (is_state r.state released) _ _ w (
        if-Settles e auto_released (is_terminal r.state) _ _ w
          (write-done-Settles e auto_released _ notify_completed w (λ _. refl)))
  apply_event-Settles uuid r e escrow_auto_cancelled w =
      if-Settles e escrow_auto_cancelled (skips escrow_auto_cancelled r.state) _
        (cancel_with b e.escrow_id) w (cancel_with-Settles e escrow_auto_cancelled w refl)
  apply_event-Settles uuid r e escrow_expired w =
      if-Settles e escrow_expired (skips escrow_expired r.state) _ (refund_with b e.escrow_id) w
        (write-done-Settles e escrow_expired _ notify_refunded w (λ _. refl))
  apply_event-Settles uuid r e refund_approved w =
      if-Settles e refund_approved (skips refund_approved r.state) _ (refund_with b e.escrow_id) w
        (write-done-Settles e refund_approved _ notify_refunded w (λ _. refl))
  apply_event-Settles uuid r e other_event w = λ w' q. absurd (cc q)

  apply_to-Settles :
      (uuid : String) (e : ChainEvent) (o : Option EscrowRecord) (w : World R D C)
      → Settles e e.event_type (apply_to b uuid e o) w
  unfolding apply_to
  apply_to-Settles uuid e none w = λ w' q. absurd (cc q)
  apply_to-Settles uuid e (some r) w = apply_event-Settles uuid r e e.event_type w

  -- What a delivery does that changes nothing: it is skipped, or its read is rejected.
  abbrev pub Ignored : String → ChainEvent → World R D C → Type 0
  Ignored uuid e w =
      (c : C) × ((sync_state_from_chain b uuid e w ≡ (err rejected, record w { cached = c }))
        ⊎ ((s : SkipReason) × (sync_state_from_chain b uuid e w
              ≡ (ok (skipped s), record w { cached = c }))))

  ignored :
      (uuid : String) (e : ChainEvent) (w : World R D C) (r : EscrowRecord)
      → IsCoherent b w.cached w.escrows
      → T.row e.escrow_id w.escrows ≡ some r
      → skips e.event_type r.state ≡ true
      → Ignored uuid e w
  unfolding sync_state_from_chain apply_to
  ignored uuid e w r i at h =
      let (c, _, read) = read_lem b laws e.escrow_id w i in
      elim read [
        | inl q ↦ (c, inl (rw q refl))
        | inr q ↦
            let (s, k) = apply_event-Skipped uuid r e e.event_type (record w { cached = c }) h in
            (c, inr (s, rw (q, at) k))
      ]

  -- An event that was applied is ignored when it is delivered again: the tables, the
  -- notifications and the contract calls are as the first delivery left them.
  pub sync_twice :
      (uuid uuid' : String) (e : ChainEvent) (w w' : World R D C)
      → IsCoherent b w.cached w.escrows
      → sync_state_from_chain b uuid e w ≡ (ok applied, w')
      → Ignored uuid' e w'
  unfolding sync_state_from_chain
  sync_twice uuid uuid' e w w' i q =
      let (r, at, h) =
        bind-Settles e e.event_type (find_by_id b e.escrow_id) (apply_to b uuid e) w
          (λ o v. apply_to-Settles uuid e o v) w' q in
      ignored uuid' e w' r
        (subst (λ x. IsCoherent b x.1.cached x.1.escrows) q
          (sync-Evolves b laws uuid e w i).coherent)
        at h
