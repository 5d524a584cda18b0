-- ===== src/Escrow/Repository/Claims.antt =====
-- src/escrow/escrow.repository.ts: the claims that the workers take, and the queries that feed them.
pub mod Settled
pub mod Laws
pub mod Delivery
use trust_link_backend.Prelude.{
  ℕ, String, Option, none, some, List, Bool, true, not, ◌&&◌, ◌==◌, if◌then◌else◌, eqb, is_some,
}
use trust_link_backend.Exec.{Exec, ok, err, rejected, pure, ◌>>=◌, ◌>>◌}
use trust_link_backend.Escrow.{EscrowRecord, shipped, is_state}
use trust_link_backend.Backend.{Backend, World}
use trust_link_backend.Escrow.Repository.{
  stamp, is_release_eligible, find_by_id, find_row, update_row, invalidate,
}

-- The `where` of `findShippedWithTracking`.
pub is_trackable : (String → Bool) → EscrowRecord → Bool
is_trackable enabled r =
    is_state r.state shipped
    && is_some r.tracking_id
    && is_some r.contract_escrow_id
    && enabled r.vendor_address

abbrev pub unclaimed : EscrowRecord → Bool
unclaimed r = not (is_some r.auto_release_submitted_at)

-- The row once it is claimed.
abbrev pub claimed_at : ℕ → EscrowRecord → EscrowRecord
claimed_at now = stamp now (λ r. record r { auto_release_submitted_at = some now })

abbrev pub is_deliverable : EscrowRecord → Bool
is_deliverable r = is_state r.state shipped && not (is_some r.delivery_recorded_at)

abbrev pub of_contract : ℕ → EscrowRecord → Bool
of_contract n r = elim r.contract_escrow_id [ none ↦ Bool.false | some m ↦ eqb m n ]

module _ {R D C : Type 0} (b : Backend R D C) where
  open b use {escrow_table as T}

  -- `prisma.escrow.findMany({ where, orderBy, take })`
  find_rows : (EscrowRecord → Bool) → Option ℕ → Exec (World R D C) (List EscrowRecord)
  find_rows p n w = elim (T.find_many p n w.escrows) [
    | none ↦ (err rejected, w)
    | some rs ↦ (ok rs, w)
  ]

  unfoldable pub find_shipped_with_tracking : ℕ → Exec (World R D C) (List EscrowRecord)
  unfolding find_rows
  find_shipped_with_tracking limit = find_rows (is_trackable b.tracking_enabled) (some limit)

  unfoldable pub find_auto_release_eligible : ℕ → Exec (World R D C) (List EscrowRecord)
  unfolding find_rows
  find_auto_release_eligible reference = find_rows (is_release_eligible reference) none

  pub find_id_by_contract_escrow_id : ℕ → Exec (World R D C) (Option String)
  find_id_by_contract_escrow_id n w = elim (T.find_first (of_contract n) w.escrows) [
    | none ↦ (err rejected, w)
    | some none ↦ (ok none, w)
    | some (some r) ↦ (ok (some r.id), w)
  ]

  -- `updateMany({ where: { id, autoReleaseSubmittedAt: null }, … })`
  unfoldable pub claim_rows : String → Exec (World R D C) ℕ
  claim_rows id w = elim (T.update_many id unclaimed (claimed_at w.now) w.escrows) [
    | none ↦ (err rejected, w)
    | some (n, t) ↦ (ok n, record w { escrows = t })
  ]

  unfoldable pub after_claim : String → ℕ → Exec (World R D C) (Option EscrowRecord)
  after_claim id n = if eqb n 0 then pure none else do r ← find_by_id b id; invalidate b id; pure r

  unfoldable pub mark_auto_release_submitting : String → Exec (World R D C) (Option EscrowRecord)
  unfolding claim_rows after_claim
  mark_auto_release_submitting id = do n ← claim_rows id; after_claim id n

  take_delivery : String → Exec (World R D C) (Option EscrowRecord)
  take_delivery id w =
      (do
        r ← update_row b id (λ r. record r { delivery_recorded_at = some w.now })
        invalidate b id
        pure (some r))
        w

  claim_if_deliverable : String → Option EscrowRecord → Exec (World R D C) (Option EscrowRecord)
  unfolding take_delivery
  claim_if_deliverable id none = pure none
  claim_if_deliverable id (some r) = if is_deliverable r then take_delivery id else pure none

  -- The row is read by one query and written by another.
  pub claim_delivery : String → Exec (World R D C) (Option EscrowRecord)
  unfolding claim_if_deliverable
  claim_delivery id = do found ← find_row b id; claim_if_deliverable id found
