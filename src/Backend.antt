-- ===== src/Backend.antt =====
-- What the services are wired to, and the state that they share: the tables, the cache, the
-- notifications dispatched and the contract calls submitted, newest first.
-- The cache is src/cache/cache.service.ts behind an interface, which Cache/Memory.antt fills. The
-- contract client is src/stellar/contract.service.ts over the network: an interface too, and its
-- answers may depend on all the calls made before.
pub mod Effects
use trust_link_backend.Prelude.{ℕ, String, Option, none, some, List, Bool, ◌≡◌, ◌==◌, if◌then◌else◌}
use trust_link_backend.Exec.{Outcome}
use trust_link_backend.Database.{Table, IsTable}
use trust_link_backend.Escrow.{EscrowRecord, DisputeRecord}

-- A cache of values `V` with state `C`. `held` is what it stores under a key, expired or not.
pub record Cache (V C : Type 0) : Type 0 where
  pub held : String → C → Option V
  -- The clock is read at each call.
  pub get : ℕ → String → C → Option V × C
  pub set : ℕ → String → V → ℕ → C → C
  pub del : String → C → C

pub record IsCache {V C : Type 0} (K : Cache V C) : Type 0 where
  pub get-held :
      (now : ℕ) (k : String) (c : C) (v : V) → (K.get now k c).0 ≡ some v → K.held k c ≡ some v
  -- After a miss nothing is stored under the key.
  pub get_miss :
      (now : ℕ) (k : String) (c : C) → (K.get now k c).0 ≡ none → K.held k (K.get now k c).1 ≡ none
  pub held-get :
      (now : ℕ) (k j : String) (c : C) (v : V)
      → K.held j (K.get now k c).1 ≡ some v
      → K.held j c ≡ some v
  pub held-set :
      (now : ℕ) (k j : String) (v w : V) (ttl : ℕ) (c : C)
      → K.held j (K.set now k v ttl c) ≡ some w
      → (if k == j then some v else K.held j c) ≡ some w
  pub held-del :
      (k j : String) (c : C) → K.held j (K.del k c) ≡ (if k == j then none else K.held j c)

pub data Resolution : Type 0 where
  release refund : Resolution

-- `{ state, exists }` of `getEscrowState`: the text that the chain answered, if the escrow exists
pub data ChainEscrow : Type 0 where
  absent : ChainEscrow
  present : String → ChainEscrow

pub data ChainCall : Type 0 where
  cancel_on_chain submit_auto_release record_delivery : ℕ → String → ChainCall
  resolve_on_chain : ℕ → Resolution → String → ChainCall

pub record Contract : Type 0 where
  pub get_escrow_state : List ChainCall → ℕ → Outcome ChainEscrow
  -- the transaction hash that a submission returns
  pub submit : List ChainCall → ChainCall → Outcome String

pub data Notice : Type 0 where
  notify_funded notify_shipped notify_delivered notify_disputed notify_disputed_admin :
      EscrowRecord → Notice
  notify_completed notify_refunded : EscrowRecord → Notice

pub data Cached : Type 0 where
  -- `escrow:<id>`
  escrow_entry : EscrowRecord → Cached
  -- `idempotency:<vendor>:<key>`: the request's hash and the escrow that it created
  idempotency_entry : String → EscrowRecord → Cached
  -- `tracking:<tracking id>`: the carrier's status
  tracking_entry : String → Cached

pub record World (R D C : Type 0) : Type 0 where
  pub now : ℕ
  pub escrows : R
  pub disputes : D
  pub cached : C
  pub notices : List Notice
  pub calls : List ChainCall
  -- the vendors for whom `createEscrow` upserted a profile, newest first
  pub vendors : List String

pub record Backend (R D C : Type 0) : Type 0 where
  pub escrow_table : Table EscrowRecord R
  pub dispute_table : Table DisputeRecord D
  pub cache : Cache Cached C
  pub contract : Contract
  -- `ADMIN_ADDRESS`, `AUTO_RELEASE_SOURCE_ADDRESS`
  pub admin_address : Option String
  pub auto_release_source : Option String
  -- the vendor's row of VendorTrackingSettings does not say `enableTracking: false`
  pub tracking_enabled : String → Bool
  -- whether the upsert of a vendor's profile is taken or rejected
  pub takes_vendor : List String → String → Bool
  -- `CONTACT_ENCRYPTION_KEY` is set, and AES-256-GCM under it
  pub encryption_configured : Bool
  pub encrypt : String → String

pub record IsBackend {R D C : Type 0} (b : Backend R D C) : Type 0 where
  pub escrow_key : (r : EscrowRecord) → b.escrow_table.key r ≡ r.id
  pub dispute_key : (r : DisputeRecord) → b.dispute_table.key r ≡ r.id
  pub escrows_lawful : IsTable b.escrow_table
  pub disputes_lawful : IsTable b.dispute_table
  pub cache_lawful : IsCache b.cache
