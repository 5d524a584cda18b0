-- ===== src/Escrow/Service.antt =====
-- src/escrow/escrow.service.ts, the methods that a request calls. The span that `traced` opens
-- round each method changes nothing that is modelled, and neither does logging.
pub mod Progress
pub mod Declined
pub mod Outcome
use Prim.Native.String.{◌++◌}
use trust_link_backend.Prelude.{
  ℕ, String, Option, none, some, Bool, not, ◌&&◌, ◌==◌, if◌then◌else◌, ltb, truthy,
}
use trust_link_backend.Prelude.Text.{trim, units}
use trust_link_backend.Exec.{
  Exec, ok, Failure, not_found, internal, forbidden, conflict, bad_request, unavailable,
  unprocessable, pure, raise, attempt, ◌>>=◌, ◌>>◌,
}
use trust_link_backend.Escrow.{EscrowRecord, created, funded, is_state, is_terminal, not_positive}
use trust_link_backend.Backend.{
  Backend, World, Cached, idempotency_entry, ChainEscrow, absent, present, cancel_on_chain,
  notify_shipped,
}
use trust_link_backend.Backend.Effects.{ensure_vendor_profile, notify, submit}
use trust_link_backend.Escrow.Repository.{
  CreateEscrow, find_by_id, find_by_vendor_and_item, create, mark_cancelled, mark_shipped,
  save_buyer_contact,
}

-- The cache keys of the service.
pub tracking_key : String → String
tracking_key tracking = "tracking:" ++ tracking

pub idempotency_key : String → String → String
idempotency_key vendor key = "idempotency:" ++ (vendor ++ (":" ++ key))

unfoldable pub or_not_found : {S A : Type 0} → Option A → Exec S A
or_not_found none = raise not_found
or_not_found (some a) = pure a

-- An error that is no NotFoundException is rewritten as a 500.
unfoldable pub hide : {S A : Type 0} → Failure → Exec S A
hide not_found = raise not_found
hide _ = raise internal

-- A caller that is neither the vendor, the buyer nor an admin.
abbrev pub is_stranger : EscrowRecord → String → Bool → Bool
is_stranger r caller is_admin =
    not is_admin && not (r.vendor_address == caller) && not (r.buyer_address == caller)

-- Where the chain step of `cancelPendingEscrow` goes.
pub data ChainStep : Type 0 where
  refund_first skip refuse : ChainStep

abbrev pub chain_step : ChainEscrow → ChainStep
chain_step absent = skip
chain_step (present s) =
    if s == "FUNDED" then refund_first else (if s == "CREATED" then skip else refuse)

-- `UpdateBuyerContactDto`
pub record BuyerContact : Type 0 where
  pub email : Option String
  pub phone : Option String

-- `dto.email ? encryptContact(dto.email) : null`
abbrev pub encrypted : (String → String) → Option String → Option String
encrypted f none = none
encrypted f (some s) = if s == "" then none else some (f s)

module _ {R D C : Type 0} (b : Backend R D C) where
  chain_state : ℕ → Exec (World R D C) ChainEscrow
  chain_state n w = (b.contract.get_escrow_state w.calls n, w)

  -- `findById`
  unfoldable pub load : String → Exec (World R D C) EscrowRecord
  unfolding or_not_found hide
  load id = attempt (do found ← find_by_id b id; or_not_found found) hide

  unfoldable pub cancel_loaded :
      String → String → Bool → EscrowRecord → Exec (World R D C) EscrowRecord
  cancel_loaded id caller is_admin r =
      if is_stranger r caller is_admin
      then raise forbidden
      else if not (is_state r.state funded)
      then raise conflict
      else mark_cancelled b id

  unfoldable pub cancel_escrow : String → String → Bool → Exec (World R D C) EscrowRecord
  unfolding cancel_loaded
  cancel_escrow id caller is_admin = do r ← load id; cancel_loaded id caller is_admin r

  take_step : String → String → ℕ → ChainStep → Exec (World R D C) EscrowRecord
  take_step id caller n refund_first = do submit b (cancel_on_chain n caller); mark_cancelled b id
  take_step id caller n skip = mark_cancelled b id
  take_step id caller n refuse = raise conflict

  reconcile : String → String → Option ℕ → Exec (World R D C) EscrowRecord
  unfolding chain_state take_step
  reconcile id caller none = mark_cancelled b id
  reconcile id caller (some n) = do state ← chain_state n; take_step id caller n (chain_step state)

  cancel_pending_loaded : String → String → Bool → EscrowRecord → Exec (World R D C) EscrowRecord
  unfolding reconcile
  cancel_pending_loaded id caller is_admin r =
      if is_stranger r caller is_admin
      then raise forbidden
      else if not (is_state r.state created)
      then raise conflict
      else reconcile id caller r.contract_escrow_id

  pub cancel_pending_escrow : String → String → Bool → Exec (World R D C) EscrowRecord
  unfolding cancel_pending_loaded
  cancel_pending_escrow id caller is_admin = do
    r ← load id
    cancel_pending_loaded id caller is_admin r

  evict_tracking : String → Exec (World R D C) (Unit {0})
  evict_tracking tracking w =
      (ok tt, record w { cached = b.cache.del (tracking_key tracking) w.cached })

  ship_loaded : String → String → Bool → EscrowRecord → Exec (World R D C) EscrowRecord
  unfolding evict_tracking
  ship_loaded vendor tracking is_admin r =
      if not is_admin && not (r.vendor_address == vendor)
      then raise forbidden
      else if not (is_state r.state funded)
      then raise conflict
      else if truthy r.tracking_id
      then raise conflict
      else do
        shipped ← mark_shipped b r.id tracking
        evict_tracking tracking
        notify b (notify_shipped shipped)
        pure shipped

  -- The outer `catch` only logs and rethrows.
  pub handle_shipment : String → String → String → Bool → Exec (World R D C) EscrowRecord
  unfolding ship_loaded
  handle_shipment id vendor tracking is_admin =
      if ltb (units (trim tracking)) 3
      then raise bad_request
      else do r ← load id; ship_loaded vendor (trim tracking) is_admin r

  contact_loaded : String → BuyerContact → EscrowRecord → Exec (World R D C) (Unit {0})
  contact_loaded id dto r =
      if is_terminal r.state
      then raise conflict
      else if not b.encryption_configured
      then raise unavailable
      else do
        save_buyer_contact b id (encrypted b.encrypt dto.email) (encrypted b.encrypt dto.phone)
        pure tt

  pub update_buyer_contact : String → BuyerContact → Exec (World R D C) (Unit {0})
  unfolding contact_loaded
  update_buyer_contact id dto = do r ← load id; contact_loaded id dto r

  abbrev absent_or_conflict : Option EscrowRecord → Exec (World R D C) (Unit {0})
  absent_or_conflict none = pure tt
  absent_or_conflict (some _) = raise conflict

  -- `uuid` is what `randomUUID()` returns.
  pub create_escrow : String → CreateEscrow → String → Exec (World R D C) EscrowRecord
  create_escrow uuid dto vendor =
      if not_positive dto.amount
      then raise bad_request
      else if dto.buyer_address == vendor
      then raise bad_request
      else do
        existing ← find_by_vendor_and_item b vendor dto.item_ref
        absent_or_conflict existing
        ensure_vendor_profile b vendor
        create b uuid dto vendor

  get_entry : String → Exec (World R D C) (Option Cached)
  get_entry k w = let (v, c) = b.cache.get w.now k w.cached in (ok v, record w { cached = c })

  set_entry : String → Cached → Exec (World R D C) (Unit {0})
  set_entry k v w = (ok tt, record w { cached = b.cache.set w.now k v 86400 w.cached })

  create_and_cache :
      String → String → String → CreateEscrow → String → Exec (World R D C) EscrowRecord
  unfolding create_escrow set_entry
  create_and_cache k hash uuid dto vendor = do
    result ← create_escrow uuid dto vendor
    set_entry k (idempotency_entry hash result)
    pure result

  replay_or_create :
      String
      → String
      → String
      → CreateEscrow
      → String
      → Option Cached
      → Exec (World R D C) EscrowRecord
  unfolding create_and_cache
  replay_or_create k hash uuid dto vendor (some (idempotency_entry earlier result)) =
      if earlier == hash then pure result else raise unprocessable
  replay_or_create k hash uuid dto vendor _ = create_and_cache k hash uuid dto vendor

  -- `hash` is the SHA-256 of the request's body.
  pub create_idempotent :
      (CreateEscrow → String)
      → String
      → String
      → CreateEscrow
      → String
      → Exec (World R D C) EscrowRecord
  unfolding get_entry replay_or_create
  create_idempotent hash key uuid dto vendor = do
    entry ← get_entry (idempotency_key vendor key)
    replay_or_create (idempotency_key vendor key) (hash dto) uuid dto vendor entry
