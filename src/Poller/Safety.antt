-- ===== src/Poller/Safety.antt =====
-- src/stellar/soroban-poller.service.ts: the escrows and the retry counts after a poll.
use trust_link_backend.Prelude.{
  ℕ, String, Option, List, false, ◌≡◌, inl, inr, ◌==◌, leb, Bool-cases,
}
use trust_link_backend.Exec.{Outcome}
use trust_link_backend.Database.{Table, TextTable}
use trust_link_backend.Backend.{Backend, IsBackend, World}
use trust_link_backend.Dlq.{FailedTransaction, Queue}
use trust_link_backend.Escrow.Evolves.{Evolves, Evolves-refl, Evolves-trans}
use trust_link_backend.Escrow.Repository.Coherence.{IsCoherent}
use trust_link_backend.Escrow.Sync.{sync_state_from_chain}
use trust_link_backend.Escrow.Sync.Progress.{sync-Evolves}
use trust_link_backend.Poller.{Poller, max_sync_retries, poll_internal}
use trust_link_backend.Poller.Event.{RpcEvent, Reason, chain_event}
use trust_link_backend.Poller.Progress.{poll_internal-keeps}

abbrev pub IsBounded : {R D C Q S : Type 0} → Poller R D C Q S → Type 0
IsBounded p = (id : String) → leb max_sync_retries (p.retries id) ≡ false

module _ {R D C Q S : Type 0} (b : Backend R D C) (L : Table FailedTransaction Q)
    (upper : String → String) (message : Reason → RpcEvent → String)
    (dispute_uuid : World R D C → String) (letter_uuid : Queue Q → String) (K : TextTable S)
    (start : Option ℕ) (ledger_cursor : ℕ → String) (latest_ledger : Poller R D C Q S → Outcome ℕ)
    (fetch : String → Poller R D C Q S → Outcome (List RpcEvent)) where
  -- No poll moves an escrow but along the state machine, and the cache stays coherent, whatever the
  -- RPC node answers and whichever query is rejected.
  pub poll_internal-Evolves :
      IsBackend b
      → (p : Poller R D C Q S) → IsCoherent b p.world.cached p.world.escrows
      → Evolves b p.world.escrows
          (poll_internal b L upper message dispute_uuid letter_uuid K start ledger_cursor
            latest_ledger fetch p).world
  poll_internal-Evolves laws p i =
      poll_internal-keeps b L upper message dispute_uuid letter_uuid
        (λ q. Evolves b p.world.escrows q.world)
        (record {
          letters_free = λ _ _ h. h;
          cursors_free = λ _ _ h. h;
          counted = λ e d name id n q _ h.
              Evolves-trans b p.world.escrows q.world
                (sync_state_from_chain b (dispute_uuid q.world) (chain_event upper e d name id)
                  q.world).1
                h
                (sync-Evolves b laws (dispute_uuid q.world) (chain_event upper e d name id) q.world
                  h.coherent);
        })
        K start ledger_cursor latest_ledger fetch p (Evolves-refl b p.world i)

  -- If before a poll no event's retry count has reached the limit, none has after it.
  pub poll_internal-IsBounded :
      (p : Poller R D C Q S)
      → IsBounded p
      → IsBounded (
          poll_internal b L upper message dispute_uuid letter_uuid K start ledger_cursor
            latest_ledger fetch p)
  poll_internal-IsBounded =
      poll_internal-keeps b L upper message dispute_uuid letter_uuid IsBounded
        (record {
          letters_free = λ _ _ h. h;
          cursors_free = λ _ _ h. h;
          counted = λ e d name id n q y h j. elim (Bool-cases (e.id == j)) [
            | inl z ↦ rw z y
            | inr z ↦ rw z (h j)
          ];
        })
        K start ledger_cursor latest_ledger fetch
