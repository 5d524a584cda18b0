-- ===== src/Tests/Polls.antt =====
-- A poll in memory: one event funds the escrow, and another is malformed.
use trust_link_backend.Prelude.{
  String, Option, none, some, List, [], ◌∷◌, ◌≡◌, refl, ap, arith, ◌≤◌, ◌+◌,
}
use trust_link_backend.Exec.{ok, err, rejected}
use trust_link_backend.Database.{TextTable}
use trust_link_backend.Database.Memory
use trust_link_backend.CacheService
use trust_link_backend.Escrow.Repository.{find_by_id}
use trust_link_backend.Database.Memory.{Rows, table}
use trust_link_backend.Backend.{Backend, Cached}
use trust_link_backend.CacheService.{Entry}
use trust_link_backend.Dlq.{FailedTransaction}
use trust_link_backend.Escrow.{EscrowRecord, DisputeRecord, created}
use trust_link_backend.Escrow.Evolves.{Evolves}
use trust_link_backend.Poller.{
  Poller, poll_internal, process_event, on_payload, on_decoded, on_number, on_escrow, is_number,
  on_found, sync_known, after_sync,
}
use trust_link_backend.Poller.Unblocked.{Blocked, start, threw, Blocked-bounded}
use trust_link_backend.Escrow.Sync.{sync_state_from_chain}
use trust_link_backend.Poller.Event.{RpcEvent, Reason}
use trust_link_backend.Poller.Safety.{poll_internal-Evolves, poll_internal-IsBounded, IsBounded}
use trust_link_backend.Tests.{backend, backend-IsBackend, world, world-IsCoherent}

abbrev State : Type 0
State =
    Poller (Rows EscrowRecord) (Rows DisputeRecord) (List (Entry Cached)) (Rows FailedTransaction)
      (Option String)

abbrev cursors : TextTable (Option String)
cursors = record { find_unique = λ _ s. some s; upsert = λ _ v _. some (some v) }

abbrev event : RpcEvent
event = record {
  id = "a";
  paging_token = "1";
  payload = some (record {
    topic0 = some "Escrow";
    topic1 = some "Funded";
    contract_escrow_id = some 7;
    tracking_id = none;
    camel_tracking_id = none;
    tx_hash = none;
    reason = none;
    resolution = none;
  });
}

abbrev batch : List RpcEvent
batch = event ∷ record { id = "b"; paging_token = "2"; payload = none } ∷ []

abbrev start_state : State
start_state = record {
  world = world created;
  letters = record { now = 1000; rows = record { ids = []; at = λ _. none }; submitted = [] };
  retries = λ _. 0;
  cursors = none;
}

abbrev message : Reason → RpcEvent → String
message _ e = e.id

abbrev after_poll : State → State
after_poll =
    poll_internal backend (table (λ r. r.id)) (λ s. s) message (λ _. "d1") (λ _. "f1") cursors none
      (λ _. "ledger:90") (λ _. ok 100) (λ _ _. ok batch)

poll_internal-Evolves_example :
    Evolves backend (world created).escrows (after_poll start_state).world
poll_internal-Evolves_example =
    poll_internal-Evolves backend (table (λ r. r.id)) (λ s. s) message (λ _. "d1") (λ _. "f1")
      cursors none (λ _. "ledger:90") (λ _. ok 100) (λ _ _. ok batch) backend-IsBackend start_state
      (world-IsCoherent created)

poll_internal-IsBounded_example : IsBounded (after_poll start_state)
poll_internal-IsBounded_example =
    poll_internal-IsBounded backend (table (λ r. r.id)) (λ s. s) message (λ _. "d1") (λ _. "f1")
      cursors none (λ _. "ledger:90") (λ _. ok 100) (λ _ _. ok batch) start_state (λ _. refl)

-- A database whose reads by the primary key are rejected.
abbrev broken : Backend (Rows EscrowRecord) (Rows DisputeRecord) (List (Entry Cached))
broken = record backend { escrow_table = record backend.escrow_table { find_unique = λ _ _. none } }

abbrev after_failure : State
after_failure =
    (process_event broken (table (λ r. r.id)) (λ s. s) message (λ _. "d1") (λ _. "f1") event
      start_state).1

fails :
    process_event broken
      (table (λ r. r.id))
      (λ s. s)
      message
      (λ _. "d1")
      (λ _. "f1")
      event
      start_state
    ≡ (err rejected, after_failure)
unfolding process_event on_payload on_decoded on_number on_escrow is_number on_found sync_known
    after_sync sync_state_from_chain Memory.first find_by_id CacheService.get
fails = refl

failed_once :
    Blocked broken
      (table (λ r. r.id))
      (λ s. s)
      message
      (λ _. "d1")
      (λ _. "f1")
      event
      1
      start_state
      after_failure
unfolding process_event on_payload on_decoded on_number on_escrow is_number on_found sync_known
    after_sync sync_state_from_chain Memory.first find_by_id CacheService.get
failed_once = threw start fails (λ e. omega (arith, ap (λ p. p.retries "a") e))

Blocked-bounded_example : (after_failure.retries "a" ≡ 1 + start_state.retries "a") × (1 ≤ 4)
Blocked-bounded_example =
    Blocked-bounded broken (table (λ r. r.id)) (λ s. s) message (λ _. "d1") (λ _. "f1") event 1
      start_state after_failure failed_once
