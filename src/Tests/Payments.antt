-- ===== src/Tests/Payments.antt =====
-- A payment for one escrow in memory.
use trust_link_backend.Prelude.{String, some, List, ◌≡◌, refl, ◌⊎◌, keep}
use trust_link_backend.Exec.{ok, err, rejected}
use trust_link_backend.Database.Memory
use trust_link_backend.Database.Memory.{Rows, table, table-IsTable, empty}
use trust_link_backend.Escrow.{EscrowRecord, DisputeRecord, created}
use trust_link_backend.Escrow.Repository.{find_by_vendor, write, update_row, invalidate, cache_key}
use trust_link_backend.Escrow.Repository.Coherence.{IsCoherent}
use trust_link_backend.Backend.{Cached}
use trust_link_backend.Backend.Effects.{notify}
use trust_link_backend.CacheService.{Entry, delete}
use trust_link_backend.Webhook.{
  Processed, Inbox, received, duplicate, fund_each, pay_vendor, handle_payment, process_event,
  on_world, is_processed, mark_processed, guarded, unless_duplicate, process_operation,
  handle_event,
}
use trust_link_backend.Webhook.Payment.{Paid, handle_payment-Paid}
use trust_link_backend.Webhook.Once.{Authentic, process_twice, handle_event-Authentic}
use trust_link_backend.Tests.{
  key_of, horizon, payment, backend, backend-IsBackend, world, world-IsCoherent,
}

abbrev pub inbox :
    Inbox (Rows EscrowRecord) (Rows DisputeRecord) (List (Entry Cached)) (Rows Processed)
inbox = record { world = world created; processed = empty }

handle_payment-Paid_example :
    IsCoherent backend
      (handle_payment backend horizon payment (world created)).1.cached
      (handle_payment backend horizon payment (world created)).1.escrows
    × ((j : String)
        → Paid backend backend-IsBackend horizon payment "GVENDOR" 1000
            (Memory.row j (world created).escrows)
            (Memory.row j (handle_payment backend horizon payment (world created)).1.escrows))
handle_payment-Paid_example =
    handle_payment-Paid backend backend-IsBackend horizon payment "GVENDOR" (world created) refl
      (world-IsCoherent created)

abbrev pub handled :
    Inbox (Rows EscrowRecord) (Rows DisputeRecord) (List (Entry Cached)) (Rows Processed)
handled = (process_operation backend horizon payment inbox).1

pub handles : process_operation backend horizon payment inbox ≡ (ok received, handled)
unfolding process_operation is_processed unless_duplicate mark_processed guarded on_world
    process_event handle_payment pay_vendor fund_each find_by_vendor keep write update_row
    invalidate cache_key delete notify Memory.row Memory.contains Memory.update Memory.set_at
    Memory.create Memory.select Memory.limit
handles = refl

process_twice_example :
    (process_operation backend horizon payment handled ≡ (ok duplicate, handled))
    ⊎ (process_operation backend horizon payment handled ≡ (err rejected, handled))
process_twice_example =
    process_twice backend horizon (table-IsTable key_of) (λ _. refl) payment payment inbox handled
      refl handles

handle_event-Authentic_example :
    Authentic backend horizon
      (table-IsTable key_of)
      (λ _. refl)
      "body"
      (some "sig")
      payment
      inbox
      (handle_event backend horizon "body" (some "sig") payment inbox)
handle_event-Authentic_example =
    handle_event-Authentic backend horizon (table-IsTable key_of) (λ _. refl) "body" (some "sig")
      payment inbox
