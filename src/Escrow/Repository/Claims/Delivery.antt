-- ===== src/Escrow/Repository/Claims/Delivery.antt =====
-- src/escrow/escrow.repository.ts, `claimDelivery`: its three ways out, when no other process writes
-- between its two queries.
use trust_link_backend.Prelude.{
  String, none, some, true, ◌≡◌, refl, sym, ap, ◌∙◌, ◌⊎◌, inl, inr, arith, Option-cases, Bool-cases,
  eq_refl,
}
use trust_link_backend.Exec.{ok, err, rejected, pure, ◌>>=◌}
use trust_link_backend.Escrow.{EscrowRecord}
use trust_link_backend.Backend.{Backend, IsBackend, World}
use trust_link_backend.Escrow.Repository.{stamp, find_row, write, update_row, invalidate}
use trust_link_backend.Escrow.Repository.Coherence.{write-cases}
use trust_link_backend.Escrow.Repository.Claims.{
  is_deliverable, take_delivery, claim_if_deliverable, claim_delivery,
}

module _ {R D C : Type 0} (b : Backend R D C) (laws : IsBackend b) where
  open b use {escrow_table as T}

  abbrev pub taken : World R D C → EscrowRecord → EscrowRecord
  taken w r = record r { delivery_recorded_at = some w.now }

  take-write :
      (id : String) (w : World R D C)
      → take_delivery b id w ≡ (write b id (taken w) >>= λ r. pure (some r)) w
  unfolding take_delivery write update_row invalidate
  take-write id w = ground arith

  -- The claim was taken: the row was deliverable, and it alone was changed.
  abbrev pub Taken : String → World R D C → Type 0
  Taken id w =
      (old : EscrowRecord) × (w' : World R D C) × (T.row id w.escrows ≡ some old)
      × (is_deliverable old ≡ true)
      × (w' ≡ (write b id (taken w) w).1)
      × (T.row id w'.escrows ≡ some (stamp w.now (taken w) old))
      × (claim_delivery b id w ≡ (ok (some (stamp w.now (taken w) old)), w'))

  found-Taken :
      (id : String) (w : World R D C) (r : EscrowRecord)
      → T.find_unique id w.escrows ≡ some (some r)
      → is_deliverable r ≡ true
      → (claim_delivery b id w ≡ (err rejected, w)) ⊎ Taken id w
  unfolding claim_delivery claim_if_deliverable find_row
  found-Taken id w r e h = elim (write-cases b laws id (taken w) w) [
    | inl q ↦
        let step : take_delivery b id w ≡ (err rejected, w) = rw (take-write id w, q) refl in
        inl (ground arith)
    | inr (old, t, c, found, q, rows, held) ↦
        let same : some r ≡ some old =
          sym (laws.escrows_lawful.row-find_unique id w.escrows (some r) e) ∙ found in
        let step : take_delivery b id w
            ≡ (ok (some (stamp w.now (taken w) old)), record w { escrows = t; cached = c }) =
          rw (take-write id w, q) refl in
        inr (
          old,
          record w { escrows = t; cached = c },
          found,
          ground (arith, same),
          ap (λ x. x.1) (sym q),
          rows id ∙ ground (arith, eq_refl id),
          ground arith,
        )
  ]

  pub claim_delivery-cases :
      (id : String) (w : World R D C)
      → (claim_delivery b id w ≡ (err rejected, w))
        ⊎ (claim_delivery b id w ≡ (ok none, w))
        ⊎ Taken id w
  unfolding claim_delivery claim_if_deliverable find_row
  claim_delivery-cases id w = elim (Option-cases (T.find_unique id w.escrows)) [
    | inl e ↦ inl (ground arith)
    | inr (none, e) ↦ inr (inl (ground arith))
    | inr (some r, e) ↦ elim (Bool-cases (is_deliverable r)) [
      | inl h ↦ elim (found-Taken id w r e h) [ inl q ↦ inl q | inr k ↦ inr (inr k) ]
      | inr h ↦ inr (inl (ground arith))
    ]
  ]
