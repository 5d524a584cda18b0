-- ===== src/Poller.antt =====
-- src/stellar/soroban-poller.service.ts: the events of the contract drive `syncStateFromChain`.
-- An event carries what `parseEvent` and the Stellar SDK decode of it. Its RPC requests, the texts
-- of the error messages and the identifiers that are minted are parameters; the trace spans and the
-- timer are left out.
pub mod Event
pub mod Progress
pub mod Safety
pub mod Unblocked
use Prim.Native.String.{◌++◌}
use trust_link_backend.Prelude.{
  ℕ, suc, ◌-◌, String, Option, none, some, List, [], ◌∷◌, Bool, not, ◌||◌, ◌==◌, if◌then◌else◌,
  truthy, or_else, leb, eqb,
}
use trust_link_backend.Exec.{Exec, Outcome, ok, err, Failure, rejected, raise}
use trust_link_backend.Database.{Table, TextTable}
use trust_link_backend.Escrow.{EscrowRecord}
use trust_link_backend.Backend.{Backend, World, Resolution, release, refund}
use trust_link_backend.Escrow.Sync.{
  EventType, escrow_funded, escrow_shipped, escrow_completed, escrow_cancelled, escrow_canceled,
  dispute_raised, dispute_resolved, auto_released, escrow_auto_cancelled, escrow_expired,
  refund_approved, other_event, ChainEvent, SyncResult, sync_state_from_chain,
}
use trust_link_backend.Poller.Event.{
  Decoded, RpcEvent, override, chain_event, Reason, unparsed, bad_topics, no_escrow_id, unmapped,
  sync_failed,
}
use trust_link_backend.Dlq.{FailedTransaction, Queue, Enqueue, enqueue}

-- `MAX_SYNC_RETRIES`
abbrev pub max_sync_retries : ℕ
max_sync_retries = 5

-- The services that the poller drives, the dead letters, and `syncRetryCounts`, where a missing
-- entry counts as 0.
pub record Poller (R D C Q S : Type 0) : Type 0 where
  pub world : World R D C
  pub letters : Queue Q
  pub retries : String → ℕ
  pub cursors : S

-- `SOROBAN_POLLER_KEY`
abbrev listener_key : String
listener_key = "stellar-listener"

-- `Math.max(1, latest - START_LEDGER_MARGIN)`
abbrev behind : ℕ → ℕ
behind l = if leb (l - 10) 1 then 1 else l - 10

-- `syncRetryCounts.set(id, n)`
abbrev pub set_count : String → ℕ → (String → ℕ) → String → ℕ
set_count id n counts j = if id == j then n else counts j

no_submission : List String → FailedTransaction → Outcome String
no_submission _ _ = err rejected

unfoldable pub is_number : ℕ → Option ℕ → Bool
is_number n none = Bool.false
is_number n (some m) = eqb n m

-- `break` where the event threw; `rest` is what the later events do.
stop : {P : Type 0} → Outcome (Unit {0}) → Option String → P → Option String × P → Option String × P
stop (ok _) last p rest = rest
stop (err _) last p rest = (last, p)

-- `CursorService.get` and `set`, which log a rejected query and go on.
module _ {R D C Q S : Type 0} (K : TextTable S) where
  get_cursor : Poller R D C Q S → Option String
  get_cursor p = elim (K.find_unique listener_key p.cursors) [ none ↦ none | some o ↦ o ]

  stored : Option S → Poller R D C Q S → Poller R D C Q S
  stored none p = p
  stored (some s) p = record p { cursors = s }

  set_cursor : String → Poller R D C Q S → Poller R D C Q S
  unfolding stored
  set_cursor v p = stored (K.upsert listener_key v p.cursors) p

module _ {R D C Q S : Type 0} (b : Backend R D C) (L : Table FailedTransaction Q)
    (upper : String → String) (message : Reason → RpcEvent → String)
    (dispute_uuid : World R D C → String) (letter_uuid : Queue Q → String) where
  open b use {escrow_table as T}

  -- `deadLetter`: an error of the queue is logged and passed over.
  unfoldable pub dead_letter :
      RpcEvent → Option String → Reason → Exec (Poller R D C Q S) (Unit {0})
  unfolding no_submission
  dead_letter e escrow why p = (
    ok tt,
    record p {
      letters =
          (enqueue L no_submission (letter_uuid p.letters)
            (record {
              operation = "soroban_event_sync";
              escrow_id = escrow;
              error_message = message why e;
              attempts = none;
            })
            p.letters).1;
    },
  )

  -- The end of the `try` around `syncStateFromChain`, and its `catch`.
  unfoldable pub after_sync :
      RpcEvent → String → Outcome SyncResult × World R D C → Exec (Poller R D C Q S) (Unit {0})
  unfolding dead_letter
  after_sync e id (ok _, w) p =
      (ok tt, record p { world = w; retries = set_count e.id 0 p.retries })
  after_sync e id (err x, w) p =
      let n = suc (p.retries e.id) in
      if leb max_sync_retries n
      then dead_letter e (some id) (sync_failed n)
          (record p { world = w; retries = set_count e.id 0 p.retries })
      else (err x, record p { world = w; retries = set_count e.id n p.retries })

  unfoldable pub sync_known :
      RpcEvent → Decoded → String → String → Exec (Poller R D C Q S) (Unit {0})
  unfolding after_sync
  sync_known e d name id p =
      after_sync e id
        (sync_state_from_chain b (dispute_uuid p.world) (chain_event upper e d name id) p.world) p

  -- What `findIdByContractEscrowId` found.
  unfoldable pub on_found :
      RpcEvent
      → Decoded
      → String
      → Option (Option EscrowRecord)
      → Exec (Poller R D C Q S) (Unit {0})
  unfolding sync_known dead_letter
  on_found e d name none = raise rejected
  on_found e d name (some none) = dead_letter e none unmapped
  on_found e d name (some (some r)) =
      if r.id == "" then dead_letter e none unmapped else sync_known e d name r.id

  unfoldable pub on_escrow : RpcEvent → Decoded → String → ℕ → Exec (Poller R D C Q S) (Unit {0})
  unfolding on_found is_number
  on_escrow e d name n p =
      on_found e d name (T.find_first (λ r. is_number n r.contract_escrow_id) p.world.escrows) p

  unfoldable pub on_number : RpcEvent → Decoded → Option ℕ → Exec (Poller R D C Q S) (Unit {0})
  unfolding on_escrow dead_letter
  on_number e d none = dead_letter e none no_escrow_id
  on_number e d (some n) = on_escrow e d (override (or_else d.topic0 "" ++ or_else d.topic1 "")) n

  unfoldable pub on_decoded : RpcEvent → Decoded → Exec (Poller R D C Q S) (Unit {0})
  unfolding on_number dead_letter
  on_decoded e d =
      if not (truthy d.topic0) || not (truthy d.topic1)
      then dead_letter e none bad_topics
      else on_number e d d.contract_escrow_id

  unfoldable pub on_payload : RpcEvent → Option Decoded → Exec (Poller R D C Q S) (Unit {0})
  unfolding on_decoded dead_letter
  on_payload e none = dead_letter e none unparsed
  on_payload e (some d) = on_decoded e d

  -- `processEventInternal`
  unfoldable pub process_event : RpcEvent → Exec (Poller R D C Q S) (Unit {0})
  unfolding on_payload
  process_event e = on_payload e e.payload

  -- The loop of `pollInternal`: it stops at the first event that throws, and answers the paging
  -- token of the last one before.
  process_events :
      List RpcEvent → Option String → Poller R D C Q S → Option String × Poller R D C Q S
  unfolding process_event stop
  process_events [] last p = (last, p)
  process_events (e ∷ es) last p =
      let (r, p') = process_event e p in
      let rest = process_events es (some e.paging_token) p' in stop r last p' rest

  module _ (K : TextTable S) (start : Option ℕ) (ledger_cursor : ℕ → String)
      (latest_ledger : Poller R D C Q S → Outcome ℕ)
      (fetch : String → Poller R D C Q S → Outcome (List RpcEvent)) where
    -- `if (configured)`: a start of 0 counts as none.
    abbrev configured_start : Option ℕ → Option ℕ
    configured_start none = none
    configured_start (some n) = if eqb n 0 then none else some n

    -- `resolveStartLedger`
    start_ledger : Poller R D C Q S → Outcome ℕ
    start_ledger p = elim (configured_start start) [
      | some n ↦ ok n
      | none ↦ elim (latest_ledger p) [ ok l ↦ ok (behind l) | err x ↦ err x ]
    ]

    -- No event: the cursor is set near the latest ledger, whichever form it had.
    quiet_at : Outcome ℕ → Poller R D C Q S → Poller R D C Q S
    unfolding set_cursor
    quiet_at (err _) p = p
    quiet_at (ok l) p = if eqb l 0 then p else set_cursor K (ledger_cursor (behind l)) p

    quiet : Poller R D C Q S → Poller R D C Q S
    unfolding quiet_at
    quiet p = quiet_at (latest_ledger p) p

    finish_batch : Option String × Poller R D C Q S → Poller R D C Q S
    unfolding set_cursor
    finish_batch (last, p) = if truthy last then set_cursor K (or_else last "") p else p

    on_fetched : Outcome (List RpcEvent) → Poller R D C Q S → Poller R D C Q S
    unfolding quiet finish_batch process_events
    on_fetched (err _) p = p
    on_fetched (ok []) p = quiet p
    on_fetched (ok (e ∷ es)) p = finish_batch (process_events (e ∷ es) none p)

    poll_from : String → Poller R D C Q S → Poller R D C Q S
    unfolding on_fetched
    poll_from cursor p = on_fetched (fetch cursor p) p

    first_poll : Outcome ℕ → Poller R D C Q S → Poller R D C Q S
    unfolding poll_from set_cursor
    first_poll (ok l) p = poll_from (ledger_cursor l) (set_cursor K (ledger_cursor l) p)
    first_poll (err _) p = p

    -- `pollInternal`
    pub poll_internal : Poller R D C Q S → Poller R D C Q S
    unfolding poll_from first_poll get_cursor start_ledger
    poll_internal p =
        if truthy (get_cursor K p)
        then poll_from (or_else (get_cursor K p) "") p
        else first_poll (start_ledger p) p
