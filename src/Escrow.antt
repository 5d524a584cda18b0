-- ===== src/Escrow.antt =====
-- The escrow's data model: src/prisma/prisma.service.ts (EscrowRecord, DisputeRecord),
-- src/common/enums/escrow-state.enum.ts and the constants of src/escrow/escrow.service.ts.
-- A `Date` is its time in milliseconds; an amount is a whole number of the smallest unit that the
-- column `Decimal(18, 8)` holds; a `bigint` contract id is a u64 and so a natural number.
pub mod Lifecycle
pub mod Evolves
pub mod Repository
pub mod Service
pub mod Sync
pub mod View
pub mod Tracking
use trust_link_backend.Prelude.{ℕ, String, Option, Bool, true, false, List, zero}

pub data EscrowState : Type 0 where
  created funded shipped delivered completed released disputed refunded cancelled : EscrowState

pub EscrowState-discrete : Discrete EscrowState
EscrowState-discrete = hlevel

pub data DisputeState : Type 0 where
  open_ under_review resolved dispute_cancelled abandoned : DisputeState

-- A signed amount: `minus n` is -(n + 1).
pub data Amount : Type 0 where
  plus : ℕ → Amount
  minus : ℕ → Amount

-- `amount <= 0`
abbrev pub not_positive : Amount → Bool
not_positive (plus zero) = true
not_positive (plus _) = false
not_positive (minus _) = true

pub record EscrowRecord : Type 0 where
  pub id : String
  pub contract_escrow_id : Option ℕ
  pub item_name : String
  pub item_ref : String
  pub amount : Amount
  pub currency : String
  pub buyer_address : String
  pub vendor_address : String
  pub state : EscrowState
  pub tracking_id : Option String
  pub tracking_checked_at : Option ℕ
  pub shipped_at : Option ℕ
  pub delivered_at : Option ℕ
  pub delivery_recorded_at : Option ℕ
  pub auto_release_submitted_at : Option ℕ
  pub auto_release_tx_hash : Option String
  pub dispute_id : Option String
  pub cancelled_at : Option ℕ
  pub buyer_contact_email : Option String
  pub buyer_contact_phone : Option String
  pub created_at : ℕ
  pub updated_at : ℕ

pub record DisputeRecord : Type 0 where
  pub id : String
  pub escrow_id : String
  pub reason : String
  pub description : String
  pub evidence_urls : List String
  pub status : DisputeState
  pub resolved_at : Option ℕ
  pub created_at : ℕ
  pub updated_at : ℕ

-- `TERMINAL_STATES`, the same set in escrow.service.ts and auto-release.worker.ts
abbrev pub is_terminal : EscrowState → Bool
is_terminal completed = true
is_terminal released = true
is_terminal refunded = true
is_terminal cancelled = true
is_terminal _ = false

-- `DISPUTABLE_STATES` of buyer-dispute.service.ts
abbrev pub is_disputable : EscrowState → Bool
is_disputable funded = true
is_disputable shipped = true
is_disputable delivered = true
is_disputable _ = false

-- `escrow.state === s`
abbrev pub is_state : EscrowState → EscrowState → Bool
is_state created created = true
is_state funded funded = true
is_state shipped shipped = true
is_state delivered delivered = true
is_state completed completed = true
is_state released released = true
is_state disputed disputed = true
is_state refunded refunded = true
is_state cancelled cancelled = true
is_state _ _ = false
