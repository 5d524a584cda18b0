-- ===== src/Escrow/Service/Progress.antt =====
-- The methods of src/escrow/escrow.service.ts that a request calls, held to the state machine.
use trust_link_backend.Prelude.{
  ℕ, String, Option, none, some, Bool, true, false, not, ◌&&◌, ◌≡◌, refl, sym, ap, ◌∙◌, ◌⊎◌, inl,
  inr, arith, if◌then◌else◌, ◌==◌, ltb, truthy, Option-cases, eq_iff,
}
use trust_link_backend.Prelude.Text.{trim, units}
use trust_link_backend.Exec.{Exec, ok, err, not_found, internal, pure, ◌>>=◌, ◌>>◌}
use trust_link_backend.Escrow.{
  EscrowState, EscrowRecord, created, funded, shipped, cancelled, is_state, is_terminal,
  not_positive,
}
use trust_link_backend.Backend.{
  Backend, IsBackend, World, Cached, idempotency_entry, escrow_entry, tracking_entry,
  notify_shipped, cancel_on_chain,
}
use trust_link_backend.Backend.Effects.{ensure_vendor_profile, notify, submit}
use trust_link_backend.Escrow.Lifecycle.{◌⟶*◌, here, ⟶*_one, ship, finish_path, Moves, Moves-refl}
use trust_link_backend.Escrow.Evolves.{
  Evolves, Evolves-refl, Evolves-write, Evolves-bind, Evolves-if, Evolves-Frame, Frame,
}
use trust_link_backend.Escrow.Repository.{
  CreateEscrow, create, new_escrow, find_by_vendor_and_item, write, mark_cancelled, mark_shipped,
}
use trust_link_backend.Escrow.Repository.Coherence.{
  IsCoherent, read_lem, IsCoherent-del, IsCoherent-get, IsCoherent-set_other, IsCoherent-create,
}
use trust_link_backend.Escrow.Service.{
  load, cancel_escrow, cancel_loaded, cancel_pending_escrow, cancel_pending_loaded, is_stranger,
  ChainStep, refund_first, skip, refuse, chain_step, take_step, reconcile, create_escrow,
  create_idempotent, set_entry, create_and_cache, replay_or_create, absent_or_conflict,
  idempotency_key, chain_state, evict_tracking, ship_loaded, handle_shipment, contact_loaded,
  update_buyer_contact, BuyerContact, encrypted, tracking_key,
}

module _ {R D C : Type 0} (b : Backend R D C) (laws : IsBackend b) where
  open b use {escrow_table as T}

  -- What `findById` of the service returns: the row, a 404 where there is none, and a 500 where the
  -- query is rejected.
  abbrev pub Loaded : String → World R D C → Type 0
  Loaded id w =
      (c : C) × IsCoherent b c w.escrows
      × ((load b id w ≡ (err internal, record w { cached = c }))
          ⊎ (T.row id w.escrows ≡ none) × (load b id w ≡ (err not_found, record w { cached = c }))
          ⊎ ((r : EscrowRecord) × (T.row id w.escrows ≡ some r)
              × (load b id w ≡ (ok r, record w { cached = c }))))

  pub load_lem : (id : String) (w : World R D C) → IsCoherent b w.cached w.escrows → Loaded id w
  unfolding load
  load_lem id w i =
      let (c, i', read) = read_lem b laws id w i in
      elim read [
        | inl e ↦ (c, i', inl (ground arith))
        | inr e ↦ elim (Option-cases (T.row id w.escrows)) [
          | inl n ↦ (c, i', inr (inl (n, ground arith)))
          | inr (r, s) ↦ (c, i', inr (inr (r, s, ground arith)))
        ]
      ]

  pub Evolves-load :
      {A : Type 0} (id : String) (k : EscrowRecord → Exec (World R D C) A) (w : World R D C)
      → IsCoherent b w.cached w.escrows
      → ((r : EscrowRecord) (w' : World R D C)
          → IsCoherent b w'.cached w'.escrows
          → T.row id w'.escrows ≡ some r
          → Evolves b w'.escrows (k r w').1)
      → Evolves b w.escrows ((load b id >>= k) w).1
  Evolves-load id k w i rest =
      let (c, i', loaded) = load_lem id w i in
      elim loaded [
        | inl e ↦ rw e (Evolves-refl b (record w { cached = c }) i')
        | inr (inl (_, e)) ↦ rw e (Evolves-refl b (record w { cached = c }) i')
        | inr (inr (r, s, e)) ↦ rw e (rest r (record w { cached = c }) i' s)
      ]

  cancelled-Evolves :
      (id : String) (w : World R D C) (r : EscrowRecord)
      → T.row id w.escrows ≡ some r
      → is_terminal r.state ≡ false
      → IsCoherent b w.cached w.escrows
      → Evolves b w.escrows (mark_cancelled b id w).1
  cancelled-Evolves id w r at h i =
      Evolves-write b laws id (λ x. record x { state = cancelled; cancelled_at = some w.now }) w r
        at (λ _. refl) (record { path = finish_path r.state cancelled refl h; same = refl }) i

  of_funded :
      (r : EscrowRecord) → not (is_state r.state funded) ≡ false → is_terminal r.state ≡ false
  of_funded r h = ground arith

  of_created :
      (r : EscrowRecord) → not (is_state r.state created) ≡ false → is_terminal r.state ≡ false
  of_created r h = ground arith

  pub cancel_escrow-Evolves :
      (id caller : String) (is_admin : Bool) (w : World R D C)
      → IsCoherent b w.cached w.escrows
      → Evolves b w.escrows (cancel_escrow b id caller is_admin w).1
  unfolding cancel_escrow
  cancel_escrow-Evolves id caller is_admin w i =
      Evolves-load id (cancel_loaded b id caller is_admin) w i λ r w' i' at.
        Evolves-if b laws w'.escrows (is_stranger r caller is_admin) _ _ w'
          (λ _. Evolves-refl b w' i')
          λ _.
            Evolves-if b laws w'.escrows (not (is_state r.state funded)) _ _ w'
              (λ _. Evolves-refl b w' i') (λ h. cancelled-Evolves id w' r at (of_funded r h) i')

  take_step-Evolves :
      (s : ChainStep) (id caller : String) (n : ℕ) (w : World R D C) (r : EscrowRecord)
      → T.row id w.escrows ≡ some r
      → is_terminal r.state ≡ false
      → IsCoherent b w.cached w.escrows
      → Evolves b w.escrows (take_step b id caller n s w).1
  unfolding take_step submit
  take_step-Evolves refund_first id caller n w r at h i =
      Evolves-Frame b laws (submit b (cancel_on_chain n caller)) (λ _. mark_cancelled b id) w
        (refl, refl) i (λ _ w' same i'. cancelled-Evolves id w' r (rw same at) h i')
  take_step-Evolves skip id caller n w r at h i = cancelled-Evolves id w r at h i
  take_step-Evolves refuse id caller n w r at h i = Evolves-refl b w i

  reconcile-Evolves :
      (o : Option ℕ) (id caller : String) (w : World R D C) (r : EscrowRecord)
      → T.row id w.escrows ≡ some r
      → is_terminal r.state ≡ false
      → IsCoherent b w.cached w.escrows
      → Evolves b w.escrows (reconcile b id caller o w).1
  unfolding reconcile
  reconcile-Evolves none id caller w r at h i = cancelled-Evolves id w r at h i
  reconcile-Evolves (some n) id caller w r at h i =
      Evolves-Frame b laws (chain_state b n) (λ s. take_step b id caller n (chain_step s)) w
        (refl, refl) i
        (λ s w' same i'. take_step-Evolves (chain_step s) id caller n w' r (rw same at) h i')

  pub cancel_pending_escrow-Evolves :
      (id caller : String) (is_admin : Bool) (w : World R D C)
      → IsCoherent b w.cached w.escrows
      → Evolves b w.escrows (cancel_pending_escrow b id caller is_admin w).1
  unfolding cancel_pending_escrow
  cancel_pending_escrow-Evolves id caller is_admin w i =
      Evolves-load id (cancel_pending_loaded b id caller is_admin) w i λ r w' i' at.
        Evolves-if b laws w'.escrows (is_stranger r caller is_admin) _ _ w'
          (λ _. Evolves-refl b w' i')
          λ _.
            Evolves-if b laws w'.escrows (not (is_state r.state created)) _ _ w'
              (λ _. Evolves-refl b w' i')
              (λ h. reconcile-Evolves r.contract_escrow_id id caller w' r at (of_created r h) i')

  abbrev after_ship : String → EscrowRecord → Exec (World R D C) EscrowRecord
  after_ship tracking x = do evict_tracking b tracking; notify b (notify_shipped x); pure x

  after_ship-Evolves :
      (tracking : String) (x : EscrowRecord) (w : World R D C)
      → IsCoherent b w.cached w.escrows
      → Evolves b w.escrows (after_ship tracking x w).1
  unfolding notify evict_tracking
  after_ship-Evolves tracking x w i = record {
    coherent = IsCoherent-del b laws (tracking_key tracking) w i;
    moves = λ j. Moves-refl (T.row j w.escrows);
  }

  ship_funded : (s : EscrowState) → not (is_state s funded) ≡ false → s ⟶* shipped
  ship_funded funded h = ⟶*_one ship
  ship_funded _ h = absurd (cc)

  ship_loaded-Evolves :
      (vendor tracking id : String) (is_admin : Bool) (r : EscrowRecord) (w : World R D C)
      → T.row id w.escrows ≡ some r
      → IsCoherent b w.cached w.escrows
      → Evolves b w.escrows (ship_loaded b vendor tracking is_admin r w).1
  unfolding ship_loaded
  ship_loaded-Evolves vendor tracking id is_admin r w at i =
      Evolves-if b laws w.escrows (not is_admin && not (r.vendor_address == vendor)) _ _ w
        (λ _. Evolves-refl b w i)
        λ _.
          Evolves-if b laws w.escrows (not (is_state r.state funded)) _ _ w
            (λ _. Evolves-refl b w i)
            λ h.
              Evolves-if b laws w.escrows (truthy r.tracking_id) _ _ w (λ _. Evolves-refl b w i)
                λ _.
                  Evolves-bind b laws w.escrows (mark_shipped b r.id tracking) (after_ship tracking)
                    w
                    (Evolves-write b laws r.id
                      (λ x. record x {
                        state = shipped;
                        tracking_id = some tracking;
                        shipped_at = some w.now;
                      })
                      w r (ap (λ k. T.row k w.escrows) (i.keyed id r at) ∙ at) (λ _. refl)
                      (record { path = ship_funded r.state h; same = refl }) i)
                    (λ x w' _ i'. after_ship-Evolves tracking x w' i')

  pub handle_shipment-Evolves :
      (id vendor tracking : String) (is_admin : Bool) (w : World R D C)
      → IsCoherent b w.cached w.escrows
      → Evolves b w.escrows (handle_shipment b id vendor tracking is_admin w).1
  unfolding handle_shipment
  handle_shipment-Evolves id vendor tracking is_admin w i =
      Evolves-if b laws w.escrows (ltb (units (trim tracking)) 3) _ _ w (λ _. Evolves-refl b w i)
        λ _.
          Evolves-load id (ship_loaded b vendor (trim tracking) is_admin) w i
            (λ r w' i' at. ship_loaded-Evolves vendor (trim tracking) id is_admin r w' at i')

  pub update_buyer_contact-Evolves :
      (id : String) (dto : BuyerContact) (w : World R D C)
      → IsCoherent b w.cached w.escrows
      → Evolves b w.escrows (update_buyer_contact b id dto w).1
  unfolding update_buyer_contact
  update_buyer_contact-Evolves id dto w i =
      Evolves-load id (contact_loaded b id dto) w i λ r w' i' at.
        Evolves-if b laws w'.escrows (is_terminal r.state) _ _ w' (λ _. Evolves-refl b w' i')
          λ _.
            Evolves-if b laws w'.escrows (not b.encryption_configured) _ _ w'
              (λ _. Evolves-refl b w' i')
              λ _.
                let f = λ (x : EscrowRecord). record x {
                  buyer_contact_email = encrypted b.encrypt dto.email;
                  buyer_contact_phone = encrypted b.encrypt dto.phone;
                } in
                Evolves-bind b laws w'.escrows (write b id f) (λ _. pure tt) w'
                  (Evolves-write b laws id f w' r at (λ _. refl)
                    (record { path = here; same = refl }) i')
                  (λ _ v _ i''. Evolves-refl b v i'')

  Moves-created :
      (x : Bool) (o : Option EscrowRecord) (n : EscrowRecord)
      → (x ≡ true → o ≡ none)
      → Moves o (if x then some n else o)
  Moves-created true o n h = rw (h refl) tt
  Moves-created false o n h = Moves-refl o

  created-Evolves :
      (n : EscrowRecord) (w : World R D C) (t : R)
      → T.create n w.escrows ≡ some t
      → IsCoherent b w.cached w.escrows
      → Evolves b w.escrows (record w { escrows = t })
  created-Evolves n w t e i = record {
    coherent = IsCoherent-create b laws n w t e i;
    moves = λ j. rw (laws.escrows_lawful.row-create n w.escrows t j e) (
        Moves-created (T.key n == j) (T.row j w.escrows) n (λ x.
          ap (λ k. T.row k w.escrows) (sym ((eq_iff (T.key n) j).0 x))
          ∙ laws.escrows_lawful.create_fresh n w.escrows t e));
  }

  create-Evolves :
      (uuid : String) (dto : CreateEscrow) (vendor : String) (w : World R D C)
      → IsCoherent b w.cached w.escrows
      → Evolves b w.escrows (create b uuid dto vendor w).1
  unfolding create
  create-Evolves uuid dto vendor w i =
      go (T.create (new_escrow uuid dto vendor w.now) w.escrows) refl
    where
      go :
          (o : Option R)
          → T.create (new_escrow uuid dto vendor w.now) w.escrows ≡ o
          → Evolves b w.escrows (create b uuid dto vendor w).1
      go none e = rw (e, create) (Evolves-refl b w i)
      go (some t) e = rw (e, create) (created-Evolves (new_escrow uuid dto vendor w.now) w t e i)

  find_by_vendor_and_item-Frame :
      (vendor item : String) (w : World R D C)
      → Frame b laws (find_by_vendor_and_item b vendor item) w
  unfolding find_by_vendor_and_item
  find_by_vendor_and_item-Frame vendor item w = ground arith

  ensure_vendor_profile-Frame :
      (vendor : String) (w : World R D C) → Frame b laws (ensure_vendor_profile b vendor) w
  unfolding ensure_vendor_profile
  ensure_vendor_profile-Frame vendor w = ground arith

  create_if_absent-Evolves :
      (o : Option EscrowRecord) (uuid : String) (dto : CreateEscrow) (vendor : String)
      (w : World R D C)
      → IsCoherent b w.cached w.escrows
      → Evolves b w.escrows
          ((absent_or_conflict b o >> (ensure_vendor_profile b vendor >> create b uuid dto vendor))
            w).1
  create_if_absent-Evolves none uuid dto vendor w i =
      Evolves-Frame b laws (ensure_vendor_profile b vendor) (λ _. create b uuid dto vendor) w
        (ensure_vendor_profile-Frame vendor w) i (λ _ w' _ i'. create-Evolves uuid dto vendor w' i')
  create_if_absent-Evolves (some r) uuid dto vendor w i = Evolves-refl b w i

  pub create_escrow-Evolves :
      (uuid : String) (dto : CreateEscrow) (vendor : String) (w : World R D C)
      → IsCoherent b w.cached w.escrows
      → Evolves b w.escrows (create_escrow b uuid dto vendor w).1
  unfolding create_escrow
  create_escrow-Evolves uuid dto vendor w i =
      Evolves-if b laws w.escrows (not_positive dto.amount) _ _ w (λ _. Evolves-refl b w i)
        λ _.
          Evolves-if b laws w.escrows (dto.buyer_address == vendor) _ _ w (λ _. Evolves-refl b w i)
            λ _.
              Evolves-Frame b laws (find_by_vendor_and_item b vendor dto.item_ref)
                (λ o.
                  absent_or_conflict b o
                  >> (ensure_vendor_profile b vendor >> create b uuid dto vendor))
                w (find_by_vendor_and_item-Frame vendor dto.item_ref w) i
                (λ o w' _ i'. create_if_absent-Evolves o uuid dto vendor w' i')

  cache_result-Evolves :
      (k hash : String) (r : EscrowRecord) (w : World R D C)
      → IsCoherent b w.cached w.escrows
      → Evolves b w.escrows ((set_entry b k (idempotency_entry hash r) >> pure r) w).1
  unfolding set_entry
  cache_result-Evolves k hash r w i = record {
    coherent = IsCoherent-set_other b laws k (idempotency_entry hash r) 86400 w refl i;
    moves = λ j. Moves-refl (T.row j w.escrows);
  }

  create_and_cache-Evolves :
      (k hash uuid : String) (dto : CreateEscrow) (vendor : String) (w : World R D C)
      → IsCoherent b w.cached w.escrows
      → Evolves b w.escrows (create_and_cache b k hash uuid dto vendor w).1
  unfolding create_and_cache
  create_and_cache-Evolves k hash uuid dto vendor w i =
      Evolves-bind b laws w.escrows (create_escrow b uuid dto vendor)
        (λ r. set_entry b k (idempotency_entry hash r) >> pure r) w
        (create_escrow-Evolves uuid dto vendor w i)
        (λ r w' _ i'. cache_result-Evolves k hash r w' i')

  replay_or_create-Evolves :
      (o : Option Cached) (k hash uuid : String) (dto : CreateEscrow) (vendor : String)
      (w : World R D C)
      → IsCoherent b w.cached w.escrows
      → Evolves b w.escrows (replay_or_create b k hash uuid dto vendor o w).1
  unfolding replay_or_create
  replay_or_create-Evolves (some (idempotency_entry earlier r)) k hash uuid dto vendor w i =
      Evolves-if b laws w.escrows (earlier == hash) _ _ w (λ _. Evolves-refl b w i)
        (λ _. Evolves-refl b w i)
  replay_or_create-Evolves (some (escrow_entry r)) k hash uuid dto vendor w i =
      create_and_cache-Evolves k hash uuid dto vendor w i
  replay_or_create-Evolves (some (tracking_entry s)) k hash uuid dto vendor w i =
      create_and_cache-Evolves k hash uuid dto vendor w i
  replay_or_create-Evolves none k hash uuid dto vendor w i =
      create_and_cache-Evolves k hash uuid dto vendor w i

  pub create_idempotent-Evolves :
      (hash : CreateEscrow → String) (key uuid : String) (dto : CreateEscrow) (vendor : String)
      (w : World R D C)
      → IsCoherent b w.cached w.escrows
      → Evolves b w.escrows (create_idempotent b hash key uuid dto vendor w).1
  unfolding create_idempotent
  create_idempotent-Evolves hash key uuid dto vendor w i =
      let k = idempotency_key vendor key in
      replay_or_create-Evolves (b.cache.get w.now k w.cached).0 k (hash dto) uuid dto vendor
        (record w { cached = (b.cache.get w.now k w.cached).1 }) (IsCoherent-get b laws k w i)
