-- ===== src/Escrow/Service/Declined.antt =====
-- src/escrow/escrow.service.ts: the creation of an escrow for an item that the vendor has one for.
use mathlib.Core.Option.{Option}
use trust_link_backend.Prelude.{
  ◌==◌, ◌||◌, String, none, some, true, false, ◌≡◌, refl, ◌⊎◌, inl, inr, arith, Bool-cases,
  Option-cases,
}
use trust_link_backend.Exec.{bad_request, Outcome, Failure, err, rejected, conflict}
use trust_link_backend.Escrow.{not_positive, EscrowRecord}
use trust_link_backend.Escrow.Repository.{CreateEscrow, of_vendor_item, find_by_vendor_and_item}
use trust_link_backend.Backend.{Backend, IsBackend, World}
use trust_link_backend.Escrow.Service.{create_escrow}

module _ {R D C : Type 0} (b : Backend R D C) (laws : IsBackend b) where
  open b use {escrow_table as T}

  -- The answer to a request that is not valid, or whose vendor has an escrow for the item.
  abbrev pub Declined : CreateEscrow → String → World R D C → Outcome EscrowRecord → Type 0
  Declined dto vendor w o =
      ((not_positive dto.amount || dto.buyer_address == vendor) ≡ true) × (o ≡ err bad_request)
      ⊎ ((not_positive dto.amount || dto.buyer_address == vendor) ≡ false)
        × (T.find_first (of_vendor_item b vendor dto.item_ref) w.escrows ≡ none)
        × (o ≡ err rejected)
      ⊎ ((not_positive dto.amount || dto.buyer_address == vendor) ≡ false)
        × ((found : Option EscrowRecord) × (T.find_first (of_vendor_item b vendor dto.item_ref)
                w.escrows
              ≡ some found)
            × (o ≡ err conflict))

  pub create_escrow-Declined :
      (uuid : String) (dto : CreateEscrow) (vendor : String) (w : World R D C) (r : EscrowRecord)
      → T.row r.id w.escrows ≡ some r
      → (r.vendor_address == vendor) ≡ true
      → (r.item_ref == dto.item_ref) ≡ true
      → (f : Failure) × (create_escrow b uuid dto vendor w ≡ (err f, w))
        × Declined dto vendor w (err f)
  unfolding create_escrow find_by_vendor_and_item
  create_escrow-Declined uuid dto vendor w r at v m = elim (Bool-cases (not_positive dto.amount)) [
    | inl x ↦ (bad_request, ground (arith, x), inl (ground (arith, x), refl))
    | inr x ↦ elim (Bool-cases (dto.buyer_address == vendor)) [
      | inl y ↦ (bad_request, ground (arith, x, y), inl (ground (arith, x, y), refl))
      | inr y ↦
          let valid : (not_positive dto.amount || dto.buyer_address == vendor) ≡ false =
            ground (arith, x, y) in
          elim (Option-cases (T.find_first (of_vendor_item b vendor dto.item_ref) w.escrows)) [
            | inl z ↦ (rejected, ground (arith, x, y, z), inr (inl (valid, z, refl)))
            | inr (some o, z) ↦
                (conflict, ground (arith, x, y, z), inr (inr (valid, (some o, z, refl))))
            | inr (none, z) ↦
                let none_such =
                  laws.escrows_lawful.row-find_first_none (of_vendor_item b vendor dto.item_ref)
                    w.escrows r.id r z at (laws.escrow_key r) in
                absurd (ground (arith, none_such, v, m))
          ]
    ]
  ]
