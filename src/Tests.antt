-- ===== src/Tests.antt =====
-- A small backend in memory, on which the theorems about the escrows are applied.
pub mod Sessions
pub mod DeadLetters
pub mod Requests
pub mod Payments
pub mod Retries
pub mod Polls
pub mod Guards
pub mod Contracts
pub mod Vault
pub mod Vendors
pub mod Replays
pub mod Outboxes
use trust_link_backend.Prelude.{
  length, ℕ, String, Option, none, some, List, [], ◌∷◌, Bool, true, false, ◌≡◌, refl, sym, ap, ◌∙◌,
  ◌⊎◌, ◌≤◌, inl, inr, ◌==◌, if◌then◌else◌, eq_iff, arith,
}
use trust_link_backend.Exec.{Outcome, ok, err, rejected, internal, not_found}
use trust_link_backend.Database.{Table, IsTable}
use trust_link_backend.Database.Memory
use trust_link_backend.Backend.Effects.{notify}
use trust_link_backend.Database.Memory.{Rows, table, table-IsTable, empty, row, contains}
use trust_link_backend.Escrow.{
  EscrowState, EscrowRecord, DisputeRecord, plus, funded, shipped, delivered, completed, disputed,
  is_terminal,
}
use trust_link_backend.Escrow.Lifecycle.{rank, deal}
use trust_link_backend.Escrow.Evolves.{Evolves}
use trust_link_backend.Escrow.Repository.{
  CreateEscrow, find_by_id, cache_get, or_fetch, find_row, remember, cache_set, write, update_row,
  invalidate, cache_key,
}
use trust_link_backend.Escrow.Repository.Coherence.{IsCoherent}
use trust_link_backend.Escrow.Repository.Claims.{
  mark_auto_release_submitting, claim_rows, after_claim,
}
use trust_link_backend.Escrow.Repository.Claims.Laws.{claim_exclusive}
use trust_link_backend.Escrow.Sync.{
  ChainEvent, escrow_funded, escrow_completed, applied, sync_state_from_chain, complete_with, done,
  unless_terminal, apply_event, apply_to,
}
use trust_link_backend.Escrow.Sync.Replay.{Ignored, sync_twice}
use trust_link_backend.Backend.{Backend, IsBackend, IsCache, World, Cached, absent}
use trust_link_backend.CacheService.{
  Entry, memory_cache, insert, get, get_found, set, delete, evict_to_capacity, max_memory_entries,
  held, lookup,
}
use trust_link_backend.CacheService.Capacity.{IsMap, set-capacity}
use trust_link_backend.CacheService.Laws.{memory_cache-IsCache, get-set}
use trust_link_backend.System.{
  Operation, read_op, track_op, sync_op, payment_op, ship_op, auto_release_op, tracking_poll_op,
  run,
}
use trust_link_backend.System.Safety.{run-Evolves, run-terminal, run-rank, run-disputed, run-read}
use trust_link_backend.Webhook.{Event, Processed, Horizon}
use trust_link_backend.Worker.AutoRelease.{process_escrow}
use trust_link_backend.Worker.AutoRelease
use trust_link_backend.Worker.AutoRelease.Safety.{Submits, process_escrow-Submits}
use trust_link_backend.Worker.AutoRelease.Progress.{run_cycle-Evolves}
use trust_link_backend.Worker.TrackingPoll
use trust_link_backend.Worker.TrackingPoll.Progress.{poll-Evolves}

abbrev pub sample : String → EscrowState → EscrowRecord
sample id s = record {
  id = id;
  contract_escrow_id = some 7;
  item_name = "lamp";
  item_ref = "lamp-1";
  amount = plus 5000000000;
  currency = "USDC";
  buyer_address = "GBUYER";
  vendor_address = "GVENDOR";
  state = s;
  tracking_id = none;
  tracking_checked_at = none;
  shipped_at = none;
  delivered_at = some 10;
  delivery_recorded_at = none;
  auto_release_submitted_at = none;
  auto_release_tx_hash = none;
  dispute_id = none;
  cancelled_at = none;
  buyer_contact_email = none;
  buyer_contact_phone = none;
  created_at = 1;
  updated_at = 1;
}

abbrev pub backend : Backend (Rows EscrowRecord) (Rows DisputeRecord) (List (Entry Cached))
backend = record {
  escrow_table = table (λ r. r.id);
  dispute_table = table (λ r. r.id);
  cache = memory_cache;
  contract = record { get_escrow_state = λ _ _. ok absent; submit = λ _ _. ok "tx" };
  admin_address = some "GADMIN";
  auto_release_source = some "GSOURCE";
  tracking_enabled = λ _. true;
  takes_vendor = λ _ _. true;
  encryption_configured = true;
  encrypt = λ s. s;
}

pub backend-IsBackend : IsBackend backend
backend-IsBackend = record {
  escrow_key = λ _. refl;
  dispute_key = λ _. refl;
  escrows_lawful = table-IsTable (λ r. r.id);
  disputes_lawful = table-IsTable (λ r. r.id);
  cache_lawful = memory_cache-IsCache;
}

-- One escrow, "e1", in a state.
abbrev pub world :
    EscrowState → World (Rows EscrowRecord) (Rows DisputeRecord) (List (Entry Cached))
world s = record {
  now = 1000;
  escrows = record { ids = "e1" ∷ []; at = λ j. if "e1" == j then some (sample "e1" s) else none };
  disputes = empty;
  cached = [];
  notices = [];
  calls = [];
  vendors = [];
}

pub world-IsCoherent : (s : EscrowState) → IsCoherent backend (world s).cached (world s).escrows
unfolding row contains held lookup
world-IsCoherent s = record {
  fresh = λ k r h. absurd (ground (arith, h));
  keyed = λ k r h. ground (arith, h, eq_iff "e1" k);
}

pub at_e1 : (s : EscrowState) → row "e1" (world s).escrows ≡ some (sample "e1" s)
unfolding row contains
at_e1 s = ground arith

abbrev pub hash : CreateEscrow → String
hash dto = dto.item_ref

abbrev pub key_of : Processed → String
key_of r = r.operation_id

abbrev pub horizon : Horizon (Rows Processed)
horizon = record {
  processed_table = table key_of;
  secret = some "secret";
  hmac = λ secret body. body;
  same_digest = λ a b. true;
  number = λ s. some (plus 5000000000);
  upper = λ s. s;
}

abbrev pub payment : Event
payment = record {
  id = "op1";
  is_payment = true;
  to = some "GVENDOR";
  amount = some "50";
  asset_code = some "USDC";
}

abbrev completion : ChainEvent
completion = record {
  event_type = escrow_completed;
  escrow_id = "e1";
  tracking_id = none;
  tx_hash = none;
  reason = none;
  resolution = none;
}

abbrev day : List Operation
day =
    read_op "e1" (some "GBUYER")
    ∷ track_op "e1" (some (λ _. ok "IN_TRANSIT"))
    ∷ ship_op "e1" "GVENDOR" "track-1" false
    ∷ tracking_poll_op (λ _. ok "DELIVERED")
    ∷ auto_release_op 1000
    ∷ payment_op payment
    ∷ sync_op "d1" completion
    ∷ []

run-Evolves_example :
    Evolves backend (world funded).escrows (run backend horizon hash day (world funded))
run-Evolves_example =
    run-Evolves backend backend-IsBackend horizon hash day (world funded) (world-IsCoherent funded)

run-terminal_example :
    (r' : EscrowRecord) × (row "e1" (run backend horizon hash day (world completed)).escrows
      ≡ some r')
    × (r'.state ≡ completed)
    × (deal r' ≡ deal (sample "e1" completed))
run-terminal_example =
    run-terminal backend backend-IsBackend horizon hash day (world completed) "e1"
      (sample "e1" completed) (world-IsCoherent completed) (at_e1 completed) refl

run-disputed_example :
    (r' : EscrowRecord) × (row "e1" (run backend horizon hash day (world disputed)).escrows
      ≡ some r')
    × ((r'.state ≡ disputed) ⊎ (is_terminal r'.state ≡ true))
run-disputed_example =
    run-disputed backend backend-IsBackend horizon hash day (world disputed) "e1"
      (sample "e1" disputed) (world-IsCoherent disputed) (at_e1 disputed) refl

run-read_example :
    let w' = run backend horizon hash day (world funded) in
    (c : List (Entry Cached)) × ((find_by_id backend "e1" w'
        ≡ (err rejected, record w' { cached = c }))
      ⊎ (find_by_id backend "e1" w' ≡ (ok (row "e1" w'.escrows), record w' { cached = c })))
run-read_example =
    run-read backend backend-IsBackend horizon hash day (world funded) "e1"
      (world-IsCoherent funded)

process_escrow-Submits_example :
    Submits backend backend-IsBackend
      (sample "e1" delivered)
      (world delivered)
      (process_escrow backend (sample "e1" delivered) (world delivered)).1.calls
process_escrow-Submits_example =
    process_escrow-Submits backend backend-IsBackend (sample "e1" delivered) (world delivered)
      (world-IsCoherent delivered)

abbrev after_completion : World (Rows EscrowRecord) (Rows DisputeRecord) (List (Entry Cached))
after_completion = (sync_state_from_chain backend "d1" completion (world funded)).1

synced :
    sync_state_from_chain backend "d1" completion (world funded) ≡ (ok applied, after_completion)
unfolding sync_state_from_chain apply_to apply_event unless_terminal complete_with done find_by_id
    cache_get or_fetch find_row remember cache_set write update_row invalidate cache_key lookup
    insert delete get get_found set evict_to_capacity Memory.row Memory.contains Memory.update
    Memory.set_at notify
synced = refl

sync_twice_example : Ignored backend backend-IsBackend "d2" completion after_completion
sync_twice_example =
    sync_twice backend backend-IsBackend "d1" "d2" completion (world funded) after_completion
      (world-IsCoherent funded) synced

abbrev claimed_world : World (Rows EscrowRecord) (Rows DisputeRecord) (List (Entry Cached))
claimed_world = (mark_auto_release_submitting backend "e1" (world delivered)).1

claimed : mark_auto_release_submitting backend "e1" (world delivered) ≡ (
  ok (
      some (record (sample "e1" delivered) {
        auto_release_submitted_at = some 1000;
        updated_at = 1000;
      })),
  claimed_world,
)
unfolding mark_auto_release_submitting claim_rows after_claim find_by_id cache_get or_fetch find_row
    remember cache_set invalidate cache_key lookup insert delete get get_found set evict_to_capacity
    Memory.row Memory.contains Memory.update_many Memory.set_at
claimed = refl

claim_exclusive_example :
    (mark_auto_release_submitting backend "e1" claimed_world ≡ (err rejected, claimed_world))
    ⊎ ((t : Rows EscrowRecord) × (mark_auto_release_submitting backend "e1" claimed_world
          ≡ (ok none, record claimed_world { escrows = t })))
claim_exclusive_example =
    claim_exclusive backend backend-IsBackend "e1" (world delivered) claimed_world
      (record (sample "e1" delivered) { auto_release_submitted_at = some 1000; updated_at = 1000 })
      (world-IsCoherent delivered) claimed

memory_cache-IsCache_example : IsCache (memory_cache {V = String})
memory_cache-IsCache_example = memory_cache-IsCache {V = String}

get-set_example : (get {V = String} 5000 "k" (set 1000 "k" "v" 60 [])).0 ≡ some "v"
unfolding insert
get-set_example = get-set {V = String} 1000 5000 "k" "v" 60 [] (omega arith) (omega arith)

set-capacity_example :
    IsMap (set {V = String} 1000 "k" "v" 60 [])
    × (length (set {V = String} 1000 "k" "v" 60 []) ≤ 1000)
set-capacity_example = set-capacity {V = String} 1000 "k" "v" 60 [] tt
