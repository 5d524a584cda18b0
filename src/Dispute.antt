-- ===== src/Dispute.antt =====
-- src/escrow/buyer-dispute.service.ts, src/admin/dispute/dispute.service.ts and the queries of
-- src/dispute/dispute.repository.ts that they issue. The paginated list of disputes is not modelled,
-- nor are the signed URLs of the evidence.
pub mod Progress
pub mod Outcome
use trust_link_backend.Prelude.{
  ℕ, String, Option, none, some, List, Bool, not, ◌&&◌, ◌||◌, ◌==◌, if◌then◌else◌,
}
use trust_link_backend.Exec.{
  Exec, ok, err, rejected, not_found, forbidden, conflict, pure, raise, ◌>>=◌, ◌>>◌,
}
use trust_link_backend.Escrow.{
  EscrowRecord, DisputeRecord, DisputeState, completed, refunded, disputed, resolved, open_,
  under_review, is_state, is_disputable,
}
use trust_link_backend.Escrow.Repository.{find_by_id, update_state, mark_completed, mark_refunded}
use trust_link_backend.Escrow.Sync.{create_dispute, find_dispute, resolve_dispute}
use trust_link_backend.Backend.{
  Backend, World, Resolution, release, refund, resolve_on_chain, notify_completed, notify_refunded,
  notify_disputed, notify_disputed_admin,
}
use trust_link_backend.Backend.Effects.{notify, submit}

-- `OpenDisputeDto`
pub record OpenDispute : Type 0 where
  pub reason : String
  pub description : String
  pub evidence_urls : List String

-- `callerAddress === adminAddress`, where the address may be undefined
unfoldable pub is_address : Option String → String → Bool
is_address none caller = Bool.false
is_address (some a) caller = caller == a

unfoldable pub is_involved : Option String → EscrowRecord → String → Bool
unfolding is_address
is_involved admin r caller =
    is_address admin caller || caller == r.buyer_address || caller == r.vendor_address

-- `status: { in: ['OPEN', 'UNDER_REVIEW'] }`
unfoldable pub is_pending : DisputeState → Bool
is_pending open_ = Bool.true
is_pending under_review = Bool.true
is_pending _ = Bool.false

abbrev pub opened : String → String → OpenDispute → ℕ → DisputeRecord
opened uuid id dto now = record {
  id = uuid;
  escrow_id = id;
  reason = dto.reason;
  description = dto.description;
  evidence_urls = dto.evidence_urls;
  status = open_;
  resolved_at = none;
  created_at = now;
  updated_at = now;
}

-- `requireAdminAddress` of the admin's service
unfoldable pub require_admin : {S : Type 0} → Option String → Exec S String
require_admin none = raise conflict
require_admin (some a) = if a == "" then raise conflict else pure a

module _ {R D C : Type 0} (b : Backend R D C) where
  open b use {dispute_table as Q}

  unfoldable pub create_opened : String → String → OpenDispute → Exec (World R D C) DisputeRecord
  create_opened uuid id dto w = create_dispute b (opened uuid id dto w.now) w

  unfoldable pub write_dispute : String → String → OpenDispute → Exec (World R D C) DisputeRecord
  unfolding create_opened
  write_dispute uuid id dto = do
    dispute ← create_opened uuid id dto
    disputed_escrow ← update_state b id disputed
    notify b (notify_disputed disputed_escrow)
    notify b (notify_disputed_admin disputed_escrow)
    pure dispute

  unfoldable pub open_on :
      String
      → String
      → String
      → OpenDispute
      → Option EscrowRecord
      → Exec (World R D C) DisputeRecord
  unfolding write_dispute
  open_on uuid id caller dto none = raise not_found
  open_on uuid id caller dto (some r) =
      if not (is_involved b.admin_address r caller)
      then raise forbidden
      else if is_state r.state disputed
      then raise conflict
      else if not (is_disputable r.state)
      then raise conflict
      else write_dispute uuid id dto

  -- `openDispute`; `uuid` is the key that the database generates for the row.
  unfoldable pub open_dispute :
      String → String → String → OpenDispute → Exec (World R D C) DisputeRecord
  unfolding open_on
  open_dispute uuid id caller dto = do found ← find_by_id b id; open_on uuid id caller dto found

  or_no_dispute : Option DisputeRecord → Exec (World R D C) DisputeRecord
  or_no_dispute none = raise not_found
  or_no_dispute (some d) = pure d

  get_on : String → String → Option EscrowRecord → Exec (World R D C) DisputeRecord
  unfolding or_no_dispute
  get_on id caller none = raise not_found
  get_on id caller (some r) =
      if not (is_involved b.admin_address r caller)
      then raise forbidden
      else do found ← find_dispute b id; or_no_dispute found

  -- `getDispute`
  pub get_dispute : String → String → Exec (World R D C) DisputeRecord
  unfolding get_on
  get_dispute id caller = do found ← find_by_id b id; get_on id caller found

  -- `findFirst({ where: { escrowId, status: { in: … } } })`
  unfoldable pub find_pending : String → Exec (World R D C) (Option DisputeRecord)
  find_pending id w =
      elim (Q.find_first (λ d. d.escrow_id == id && is_pending d.status) w.disputes) [
        | none ↦ (err rejected, w)
        | some o ↦ (ok o, w)
      ]

  unfoldable pub resolve_found : Option DisputeRecord → Exec (World R D C) (Unit {0})
  resolve_found none = pure tt
  resolve_found (some d) = resolve_dispute b d.id

  -- A notification that fails is logged, so it is only dispatched here.
  unfoldable pub finish : String → Resolution → Exec (World R D C) EscrowRecord
  finish id release = do
    result ← mark_completed b id
    notify b (notify_completed result)
    pure result
  finish id refund = do result ← mark_refunded b id; notify b (notify_refunded result); pure result

  unfoldable pub resolve_mapped : String → Resolution → Option ℕ → Exec (World R D C) EscrowRecord
  unfolding require_admin find_pending resolve_found finish
  resolve_mapped id resolution none = raise conflict
  resolve_mapped id resolution (some n) = do
    address ← require_admin b.admin_address
    submit b (resolve_on_chain n resolution address)
    pending ← find_pending id
    resolve_found pending
    finish id resolution

  unfoldable pub resolve_on :
      String → Resolution → Option EscrowRecord → Exec (World R D C) EscrowRecord
  unfolding resolve_mapped
  resolve_on id resolution none = raise not_found
  resolve_on id resolution (some r) =
      if is_state r.state completed || is_state r.state refunded
      then raise conflict
      else if not (is_state r.state disputed)
      then raise conflict
      else resolve_mapped id resolution r.contract_escrow_id

  -- `resolve` of the admin
  unfoldable pub resolve : String → Resolution → Exec (World R D C) EscrowRecord
  unfolding resolve_on
  resolve id resolution = do found ← find_by_id b id; resolve_on id resolution found
