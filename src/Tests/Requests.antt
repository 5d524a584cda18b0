-- ===== src/Tests/Requests.antt =====
-- Requests on one escrow in memory.
use trust_link_backend.Prelude.{List, [], false, ◌≡◌, refl}
use trust_link_backend.Exec.{Outcome, ok}
use trust_link_backend.Database.Memory
use trust_link_backend.Database.Memory.{Rows}
use trust_link_backend.Escrow.{EscrowRecord, DisputeRecord, funded, disputed, completed}
use trust_link_backend.Escrow.Repository.{
  find_by_id, cache_get, or_fetch, find_row, remember, cache_set, write, update_row, invalidate,
  cache_key, CreateEscrow,
}
use trust_link_backend.Escrow.Service.{cancel_escrow, create_idempotent}
use trust_link_backend.Escrow.Service.Outcome.{
  Answered, cancel_escrow-Answered, looked_up, Repeated, earlier_answer, create_idempotent-once,
}
use trust_link_backend.Escrow.Sync.{create_dispute, resolve_dispute}
use trust_link_backend.Backend.{World, Cached, release}
use trust_link_backend.Backend.Effects.{notify, submit}
use trust_link_backend.CacheService.{
  Entry, lookup, insert, delete, get, get_found, set, evict_to_capacity,
}
use trust_link_backend.Dispute.{
  OpenDispute, opened, open_dispute, open_on, write_dispute, create_opened, is_involved, is_address,
  resolve, resolve_on, resolve_mapped, require_admin, find_pending, resolve_found, finish,
  is_pending,
}
use trust_link_backend.Dispute.Outcome.{Opened, open_dispute-Opened, Resolved, resolve-Resolved}
use trust_link_backend.Tests.{
  backend, backend-IsBackend, world, world-IsCoherent, sample, hash, at_e1,
}

cancel_escrow-Answered_example :
    Answered backend backend-IsBackend "e1" "GVENDOR" false
      (world funded)
      (cancel_escrow backend "e1" "GVENDOR" false (world funded))
cancel_escrow-Answered_example =
    cancel_escrow-Answered backend backend-IsBackend "e1" "GVENDOR" false (world funded)
      (world-IsCoherent funded)

abbrev complaint : OpenDispute
complaint = record { reason = "damaged"; description = "broken on arrival"; evidence_urls = [] }

abbrev after_opening : World (Rows EscrowRecord) (Rows DisputeRecord) (List (Entry Cached))
after_opening = (open_dispute backend "d1" "e1" "GBUYER" complaint (world funded)).1

opens :
    open_dispute backend "d1" "e1" "GBUYER" complaint (world funded)
    ≡ (ok (opened "d1" "e1" complaint 1000), after_opening)
unfolding open_dispute open_on write_dispute create_opened create_dispute is_involved is_address
    notify find_by_id cache_get or_fetch find_row remember cache_set write update_row invalidate
    cache_key lookup insert delete get get_found set evict_to_capacity Memory.row Memory.contains
    Memory.update Memory.set_at Memory.create
opens = refl

open_dispute-Opened_example :
    Opened backend backend-IsBackend "d1" "e1" "GBUYER" complaint (world funded) after_opening
open_dispute-Opened_example =
    open_dispute-Opened backend backend-IsBackend "d1" "e1" "GBUYER" complaint (world funded)
      after_opening (opened "d1" "e1" complaint 1000) (world-IsCoherent funded) opens

abbrev after_release : World (Rows EscrowRecord) (Rows DisputeRecord) (List (Entry Cached))
after_release = (resolve backend "e1" release (world disputed)).1

resolves :
    resolve backend "e1" release (world disputed)
    ≡ (ok (record (sample "e1" completed) { updated_at = 1000 }), after_release)
unfolding resolve resolve_on resolve_mapped require_admin find_pending resolve_found finish
    is_pending resolve_dispute submit notify find_by_id cache_get or_fetch find_row remember
    cache_set write update_row invalidate cache_key lookup insert delete get get_found set
    evict_to_capacity Memory.row Memory.contains Memory.update Memory.set_at Memory.first
resolves = refl

resolve-Resolved_example :
    Resolved backend backend-IsBackend "e1" release (world disputed) after_release
resolve-Resolved_example =
    resolve-Resolved backend backend-IsBackend "e1" release (world disputed) after_release
      (record (sample "e1" completed) { updated_at = 1000 }) (world-IsCoherent disputed) resolves

abbrev second_request : CreateEscrow
second_request = record {
  item_name = (sample "e1" funded).item_name;
  item_ref = (sample "e1" funded).item_ref;
  amount = (sample "e1" funded).amount;
  currency = (sample "e1" funded).currency;
  buyer_address = "GBUYER";
}

create_idempotent-once_example :
    (o : Outcome EscrowRecord) × (create_idempotent backend hash "k" "e2" second_request "GVENDOR"
        (world funded)
      ≡ (
        o,
        record (world funded) {
          cached = (looked_up backend backend-IsBackend "k" "GVENDOR" (world funded)).1;
        },
      ))
    × Repeated backend backend-IsBackend
        (hash second_request)
        "k"
        second_request
        "GVENDOR"
        (world funded)
        (earlier_answer backend backend-IsBackend
          (looked_up backend backend-IsBackend "k" "GVENDOR" (world funded)).0)
        o
create_idempotent-once_example =
    create_idempotent-once backend backend-IsBackend hash "k" "e2" second_request "GVENDOR"
      (world funded) (sample "e1" funded) (at_e1 funded) refl refl
