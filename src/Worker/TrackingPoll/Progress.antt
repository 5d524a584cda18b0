-- ===== src/Worker/TrackingPoll/Progress.antt =====
-- src/workers/tracking-poll.worker.ts: what a run does to the table and the cache, its items one
-- after another.
use mathlib.Core.Path.{subst}
use trust_link_backend.Prelude.{
  ℕ, String, Option, none, some, List, [], ◌∷◌, true, ◌≡◌, refl, sym, inl, inr, if◌then◌else◌, ◌==◌,
  not, arith, Bool-cases, truthy, or_else,
}
use trust_link_backend.Exec.{Exec, Outcome, ok, err, pure, raise, lift, catch_with, ◌>>=◌}
use trust_link_backend.Escrow.{EscrowRecord, EscrowState, shipped, delivered, is_state}
use trust_link_backend.Escrow.Lifecycle.{◌⟶*◌, ⟶*_one, deliver, here}
use trust_link_backend.Escrow.Evolves.{
  Evolves, Evolves-refl, Evolves-trans, Evolves-write, Evolves-kept, Evolves-bind, Evolves-Frame,
  Evolves-finally, Frame, Evolves-if,
}
use trust_link_backend.Backend.{Backend, IsBackend, World, record_delivery}
use trust_link_backend.Backend.Effects.{notify, submit}
use trust_link_backend.Escrow.Repository.{
  stamp, mark_delivered, mark_tracking_checked, clear_delivery_claim,
}
use trust_link_backend.Escrow.Repository.Coherence.{IsCoherent}
use trust_link_backend.Escrow.Repository.Claims.{find_shipped_with_tracking, claim_delivery}
use trust_link_backend.Escrow.Repository.Claims.Delivery.{taken, claim_delivery-cases}
use trust_link_backend.Worker.TrackingPoll.{
  admin, batch_size, record_on_chain, release_claim, if_claimed, if_delivered, check_status,
  process_shipment, process_all, process_batch, run_cycle,
}

deliver_path : (s : EscrowState) → is_state s shipped ≡ true → s ⟶* delivered
deliver_path shipped h = ⟶*_one deliver
deliver_path _ h = absurd (cc)

module _ {R D C : Type 0} (b : Backend R D C) (laws : IsBackend b)
    (carrier : String → Outcome String) where
  open b use {escrow_table as T}

  admin-Frame : (o : Option String) (w : World R D C) → Frame b laws (admin o) w
  unfolding admin
  admin-Frame none w = (refl, refl)
  admin-Frame (some a) w = elim (Bool-cases (a == "")) [
    | inl h ↦ rw h (refl, refl)
    | inr h ↦ rw h (refl, refl)
  ]

  record_on_chain-Evolves :
      (e : EscrowRecord) (n : ℕ) (w : World R D C) (r : EscrowRecord)
      → T.row e.id w.escrows ≡ some r
      → is_state r.state shipped ≡ true
      → IsCoherent b w.cached w.escrows
      → Evolves b w.escrows (record_on_chain b carrier e n w).1
  unfolding record_on_chain submit notify
  record_on_chain-Evolves e n w r at h i =
      Evolves-Frame b laws (admin b.admin_address) _ w (admin-Frame b.admin_address w) i
        λ a w1 same1 i1.
          Evolves-Frame b laws (submit b (record_delivery n a)) _ w1 (refl, refl) i1
            λ tx w2 same2 i2.
              Evolves-bind b laws w2.escrows (mark_delivered b e.id) _ w2
                (Evolves-write b laws e.id
                  (λ x. record x {
                    state = delivered;
                    delivered_at = some w2.now;
                    delivery_recorded_at = some w2.now;
                  })
                  w2 r (rw (same2, same1) at) (λ _. refl)
                  (record { path = deliver_path r.state h; same = refl }) i2)
                (λ x w3 _ i3. Evolves-refl b w3 i3)

  if_claimed-Evolves :
      (e : EscrowRecord) (n : ℕ) (x r : EscrowRecord) (w : World R D C)
      → T.row e.id w.escrows ≡ some r
      → is_state r.state shipped ≡ true
      → IsCoherent b w.cached w.escrows
      → Evolves b w.escrows (if_claimed b carrier e n (some x) w).1
  unfolding if_claimed release_claim
  if_claimed-Evolves e n x r w at h i =
      go (record_on_chain b carrier e n w) (record_on_chain-Evolves e n w r at h i)
    where
      go :
          (y : Outcome Unit × World R D C)
          → Evolves b w.escrows y.1
          → Evolves b w.escrows (catch_with (release_claim b carrier e) y).1
      go (ok a, w') p = p
      go (err f, w') p = Evolves-trans b w.escrows w' (release_claim b carrier e f w').1 p (
          Evolves-bind b laws w'.escrows (clear_delivery_claim b e.id) (λ _. raise f) w'
            (Evolves-kept b laws e.id _ w' (λ _. record { path = here; same = refl }) (λ _. refl)
              p.coherent)
            (λ _ w3 _ i3. Evolves-refl b w3 i3))

  claimed-Evolves :
      (e : EscrowRecord) (n : ℕ) (w : World R D C)
      → IsCoherent b w.cached w.escrows
      → Evolves b w.escrows ((claim_delivery b e.id >>= if_claimed b carrier e n) w).1
  unfolding if_claimed
  claimed-Evolves e n w i = elim (claim_delivery-cases b laws e.id w) [
    | inl q ↦ rw q (Evolves-refl b w i)
    | inr (inl q) ↦ rw q (Evolves-refl b w i)
    | inr (inr (old, w', at, h, made, at', q)) ↦
        let first : Evolves b w.escrows w' = subst (Evolves b w.escrows) (sym made) (
          Evolves-kept b laws e.id (taken b laws w) w (λ _. record { path = here; same = refl })
            (λ _. refl) i) in
        rw q (
          Evolves-trans b w.escrows w'
            (if_claimed b carrier e n (some (stamp w.now (taken b laws w) old)) w').1 first
            (if_claimed-Evolves e n (stamp w.now (taken b laws w) old)
              (stamp w.now (taken b laws w) old) w' at' (ground (arith, h)) first.coherent))
  ]

  check_status-Evolves :
      (e : EscrowRecord) (o : Option ℕ) (w : World R D C)
      → IsCoherent b w.cached w.escrows
      → Evolves b w.escrows (check_status b carrier e o w).1
  unfolding check_status if_delivered
  check_status-Evolves e none w i = Evolves-refl b w i
  check_status-Evolves e (some n) w i =
      Evolves-Frame b laws (lift (carrier (or_else e.tracking_id ""))) _ w (refl, refl) i
        λ status w' _ i'.
          Evolves-if b laws w'.escrows (not (status == "DELIVERED")) _ _ w'
            (λ _. Evolves-refl b w' i') (λ _. claimed-Evolves e n w' i')

  process_shipment-Evolves :
      (e : EscrowRecord) (w : World R D C)
      → IsCoherent b w.cached w.escrows
      → Evolves b w.escrows (process_shipment b carrier e w).1
  unfolding process_shipment
  process_shipment-Evolves e w i =
      let body : Exec (World R D C) Unit =
        if not (truthy e.tracking_id)
        then pure tt
        else check_status b carrier e e.contract_escrow_id in
      Evolves-finally b laws w.escrows body (mark_tracking_checked b e.id) w
        (Evolves-if b laws w.escrows (not (truthy e.tracking_id)) (pure tt)
          (check_status b carrier e e.contract_escrow_id) w (λ _. Evolves-refl b w i)
          (λ _. check_status-Evolves e e.contract_escrow_id w i))
        (λ w' i'.
          Evolves-kept b laws e.id _ w' (λ _. record { path = here; same = refl }) (λ _. refl) i')

  process_all-Evolves :
      (es : List EscrowRecord) (w : World R D C)
      → IsCoherent b w.cached w.escrows
      → Evolves b w.escrows (process_all b carrier es w)
  unfolding process_all
  process_all-Evolves [] w i = Evolves-refl b w i
  process_all-Evolves (e ∷ es) w i =
      let first = process_shipment-Evolves e w i in
      Evolves-trans b w.escrows (process_shipment b carrier e w).1
        (process_all b carrier es (process_shipment b carrier e w).1) first
        (process_all-Evolves es (process_shipment b carrier e w).1 first.coherent)

  shipped-Frame : (w : World R D C) → Frame b laws (find_shipped_with_tracking b batch_size) w
  unfolding find_shipped_with_tracking
  shipped-Frame w = ground arith

  -- A run moves no escrow but along the state machine, whatever the carrier answers and whatever
  -- fails: an escrow that it marks delivered was shipped when its delivery was claimed.
  pub poll-Evolves :
      (w : World R D C)
      → IsCoherent b w.cached w.escrows
      → Evolves b w.escrows (run_cycle b carrier w)
  unfolding run_cycle
  poll-Evolves w i =
      let (same, kept) = shipped-Frame w in go (find_shipped_with_tracking b batch_size w) same kept
    where
      go :
          (x : Outcome (List EscrowRecord) × World R D C)
          → x.1.escrows ≡ w.escrows
          → x.1.cached ≡ w.cached
          → Evolves b w.escrows (process_batch b carrier x)
      go (ok es, w') p q =
          subst (λ t. Evolves b t (process_batch b carrier (ok es, w'))) p
            (process_all-Evolves es w' (rw (p, q) i))
      go (err _, w') p q = rw (p, q) (Evolves-refl b w i)
