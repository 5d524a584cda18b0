-- ===== src/Dispute/Progress.antt =====
-- The disputes of src/escrow/buyer-dispute.service.ts and src/admin/dispute/dispute.service.ts move
-- escrows along the state machine.
use trust_link_backend.Prelude.{
  ℕ, String, Option, none, some, true, false, not, ◌||◌, ◌≡◌, refl, ◌==◌, arith, Bool-cases, inl,
  inr,
}
use trust_link_backend.Escrow.{
  EscrowRecord, DisputeRecord, completed, refunded, disputed, is_state, is_terminal, is_disputable,
}
use trust_link_backend.Escrow.Lifecycle.{dispute_path, finish_path}
use trust_link_backend.Escrow.Evolves.{
  Evolves, Evolves-refl, Evolves-write, Evolves-bind, Evolves-Frame, Frame, Evolves-if,
  Evolves-find,
}
use trust_link_backend.Escrow.Repository.{update_state, mark_completed, mark_refunded}
use trust_link_backend.Escrow.Repository.Coherence.{IsCoherent}
use trust_link_backend.Escrow.Sync.{create_dispute, resolve_dispute}
use trust_link_backend.Backend.{
  Backend, IsBackend, World, Resolution, release, refund, resolve_on_chain,
}
use trust_link_backend.Backend.Effects.{notify, submit}
use trust_link_backend.Dispute.{
  OpenDispute, create_opened, write_dispute, open_on, open_dispute, is_involved, require_admin,
  find_pending, resolve_found, finish, resolve_mapped, resolve_on, resolve,
}

module _ {R D C : Type 0} (b : Backend R D C) (laws : IsBackend b) where
  open b use {escrow_table as T}

  create_opened-Frame :
      (uuid id : String) (dto : OpenDispute) (w : World R D C)
      → Frame b laws (create_opened b uuid id dto) w
  unfolding create_opened create_dispute
  create_opened-Frame uuid id dto w = ground arith

  write_dispute-Evolves :
      (uuid id : String) (dto : OpenDispute) (w : World R D C) (r : EscrowRecord)
      → T.row id w.escrows ≡ some r
      → is_state r.state disputed ≡ false
      → is_disputable r.state ≡ true
      → IsCoherent b w.cached w.escrows
      → Evolves b w.escrows (write_dispute b uuid id dto w).1
  unfolding write_dispute notify
  write_dispute-Evolves uuid id dto w r at n h i =
      Evolves-Frame b laws (create_opened b uuid id dto) _ w (create_opened-Frame uuid id dto w) i
        λ d w1 same i1.
          Evolves-bind b laws w1.escrows (update_state b id disputed) _ w1
            (Evolves-write b laws id (λ x. record x { state = disputed }) w1 r (rw same at)
              (λ _. refl)
              (record { path = dispute_path r.state n (ground (arith, h)); same = refl }) i1)
            (λ x w2 _ i2. Evolves-refl b w2 i2)

  pub open_dispute-Evolves :
      (uuid id caller : String) (dto : OpenDispute) (w : World R D C)
      → IsCoherent b w.cached w.escrows
      → Evolves b w.escrows (open_dispute b uuid id caller dto w).1
  unfolding open_dispute open_on
  open_dispute-Evolves uuid id caller dto w i =
      Evolves-find b laws id (open_on b uuid id caller dto) w i go
    where
      go :
          (o : Option EscrowRecord) (w' : World R D C)
          → IsCoherent b w'.cached w'.escrows
          → T.row id w'.escrows ≡ o
          → Evolves b w'.escrows (open_on b uuid id caller dto o w').1
      go none w' i' at = Evolves-refl b w' i'
      go (some r) w' i' at =
          Evolves-if b laws w'.escrows (not (is_involved b.admin_address r caller)) _ _ w'
            (λ _. Evolves-refl b w' i')
            λ _.
              Evolves-if b laws w'.escrows (is_state r.state disputed) _ _ w'
                (λ _. Evolves-refl b w' i')
                λ n.
                  Evolves-if b laws w'.escrows (not (is_disputable r.state)) _ _ w'
                    (λ _. Evolves-refl b w' i')
                    (λ h. write_dispute-Evolves uuid id dto w' r at n (ground (arith, h)) i')

  finish-Evolves :
      (x : Resolution) (id : String) (w : World R D C) (r : EscrowRecord)
      → T.row id w.escrows ≡ some r
      → is_terminal r.state ≡ false
      → IsCoherent b w.cached w.escrows
      → Evolves b w.escrows (finish b id x w).1
  unfolding finish notify
  finish-Evolves release id w r at h i =
      Evolves-bind b laws w.escrows (mark_completed b id) _ w
        (Evolves-write b laws id (λ x. record x { state = completed }) w r at (λ _. refl)
          (record { path = finish_path r.state completed refl h; same = refl }) i)
        (λ x w2 _ i2. Evolves-refl b w2 i2)
  finish-Evolves refund id w r at h i =
      Evolves-bind b laws w.escrows (mark_refunded b id) _ w
        (Evolves-write b laws id (λ x. record x { state = refunded }) w r at (λ _. refl)
          (record { path = finish_path r.state refunded refl h; same = refl }) i)
        (λ x w2 _ i2. Evolves-refl b w2 i2)

  require_admin-Frame : (o : Option String) (w : World R D C) → Frame b laws (require_admin o) w
  unfolding require_admin
  require_admin-Frame none w = (refl, refl)
  require_admin-Frame (some a) w = elim (Bool-cases (a == "")) [
    | inl h ↦ rw h (refl, refl)
    | inr h ↦ rw h (refl, refl)
  ]

  find_pending-Frame : (id : String) (w : World R D C) → Frame b laws (find_pending b id) w
  unfolding find_pending
  find_pending-Frame id w = ground arith

  resolve_found-Frame :
      (o : Option DisputeRecord) (w : World R D C) → Frame b laws (resolve_found b o) w
  unfolding resolve_found resolve_dispute
  resolve_found-Frame none w = (refl, refl)
  resolve_found-Frame (some d) w = ground arith

  resolve_mapped-Evolves :
      (o : Option ℕ) (id : String) (x : Resolution) (w : World R D C) (r : EscrowRecord)
      → T.row id w.escrows ≡ some r
      → is_terminal r.state ≡ false
      → IsCoherent b w.cached w.escrows
      → Evolves b w.escrows (resolve_mapped b id x o w).1
  unfolding resolve_mapped submit
  resolve_mapped-Evolves none id x w r at h i = Evolves-refl b w i
  resolve_mapped-Evolves (some n) id x w r at h i =
      Evolves-Frame b laws (require_admin b.admin_address) _ w
        (require_admin-Frame b.admin_address w) i
        λ a w1 same1 i1.
          Evolves-Frame b laws (submit b (resolve_on_chain n x a)) _ w1 (refl, refl) i1
            λ tx w2 same2 i2.
              Evolves-Frame b laws (find_pending b id) _ w2 (find_pending-Frame id w2) i2
                λ d w3 same3 i3.
                  Evolves-Frame b laws (resolve_found b d) _ w3 (resolve_found-Frame d w3) i3
                    λ _ w4 same4 i4.
                      finish-Evolves x id w4 r (rw (same4, same3, same2, same1) at) h i4

  pub resolve-Evolves :
      (id : String) (x : Resolution) (w : World R D C)
      → IsCoherent b w.cached w.escrows
      → Evolves b w.escrows (resolve b id x w).1
  unfolding resolve resolve_on
  resolve-Evolves id x w i = Evolves-find b laws id (resolve_on b id x) w i go
    where
      go :
          (o : Option EscrowRecord) (w' : World R D C)
          → IsCoherent b w'.cached w'.escrows
          → T.row id w'.escrows ≡ o
          → Evolves b w'.escrows (resolve_on b id x o w').1
      go none w' i' at = Evolves-refl b w' i'
      go (some r) w' i' at =
          Evolves-if b laws w'.escrows (is_state r.state completed || is_state r.state refunded) _ _
            w' (λ _. Evolves-refl b w' i')
            λ _.
              Evolves-if b laws w'.escrows (not (is_state r.state disputed)) _ _ w'
                (λ _. Evolves-refl b w' i')
                (λ h.
                  resolve_mapped-Evolves r.contract_escrow_id id x w' r at (ground (arith, h)) i')
