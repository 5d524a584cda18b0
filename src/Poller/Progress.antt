-- ===== src/Poller/Progress.antt =====
-- src/stellar/soroban-poller.service.ts: what a poll does to the escrows and the retry counts.
use trust_link_backend.Prelude.{
  ℕ, suc, String, Option, none, some, List, [], ◌∷◌, false, ◌≡◌, refl, inl, inr, not, ◌||◌, ◌==◌,
  truthy, or_else, leb, Bool-cases, eqb,
}
use Prim.Native.String.{◌++◌}
use trust_link_backend.Escrow.{EscrowRecord}
use trust_link_backend.Exec.{Outcome, ok, err}
use trust_link_backend.Database.{Table, TextTable}
use trust_link_backend.Backend.{Backend, World}
use trust_link_backend.Dlq.{FailedTransaction, Queue}
use trust_link_backend.Escrow.Sync.{SyncResult, sync_state_from_chain}
use trust_link_backend.Poller.{
  Poller, max_sync_retries, set_count, is_number, dead_letter, after_sync, sync_known, on_found,
  on_escrow, on_number, on_payload, stop, on_decoded, process_event, process_events, get_cursor,
  set_cursor, stored, start_ledger, quiet, quiet_at, on_fetched, finish_batch, poll_from,
  first_poll, poll_internal,
}
use trust_link_backend.Poller.Event.{RpcEvent, Decoded, Reason, override, chain_event}

module _ {R D C Q S : Type 0} (b : Backend R D C) (L : Table FailedTransaction Q)
    (upper : String → String) (message : Reason → RpcEvent → String)
    (dispute_uuid : World R D C → String) (letter_uuid : Queue Q → String) where
  open b use {escrow_table as T}

  -- What a poll keeps: the world may take a step of `syncStateFromChain`, with the count of the
  -- event that it was for, and dead letters and cursors are free.
  pub record Invariant (P : Poller R D C Q S → Type 0) : Type 0 where
    pub letters_free : (q : Queue Q) (p : Poller R D C Q S) → P p → P (record p { letters = q })
    pub cursors_free : (s : S) (p : Poller R D C Q S) → P p → P (record p { cursors = s })
    pub counted :
        (e : RpcEvent) (d : Decoded) (name id : String) (n : ℕ) (p : Poller R D C Q S)
        → leb max_sync_retries n ≡ false
        → P p
        → P (record p {
          world =
              (sync_state_from_chain b
                (dispute_uuid p.world)
                (chain_event upper e d name id)
                p.world).1;
          retries = set_count e.id n p.retries;
        })

  module _ (P : Poller R D C Q S → Type 0) (inv : Invariant P) where
    sync_known-keeps :
        (e : RpcEvent) (d : Decoded) (name id : String) (p : Poller R D C Q S)
        → P p
        → P (sync_known b L upper message dispute_uuid letter_uuid e d name id p).1
    unfolding sync_known after_sync dead_letter
    sync_known-keeps e d name id p h =
        go (sync_state_from_chain b (dispute_uuid p.world) (chain_event upper e d name id) p.world)
          (λ n. inv.counted e d name id n p)
      where
        go :
            (x : Outcome SyncResult × World R D C)
            → ((n : ℕ)
                → leb max_sync_retries n ≡ false
                → P p
                → P (record p { world = x.1; retries = set_count e.id n p.retries }))
            → P (after_sync b L upper message dispute_uuid letter_uuid e id x p).1
        go (ok _, w) k = k 0 refl h
        go (err x, w) k = elim (Bool-cases (leb max_sync_retries (suc (p.retries e.id)))) [
          | inl y ↦ rw y (inv.letters_free _ _ (k 0 refl h))
          | inr y ↦ rw y (k (suc (p.retries e.id)) y h)
        ]

    on_found-keeps :
        (e : RpcEvent) (d : Decoded) (name : String) (o : Option (Option EscrowRecord))
        (p : Poller R D C Q S)
        → P p
        → P (on_found b L upper message dispute_uuid letter_uuid e d name o p).1
    unfolding on_found dead_letter
    on_found-keeps e d name none p h = h
    on_found-keeps e d name (some none) p h = inv.letters_free _ p h
    on_found-keeps e d name (some (some r)) p h = elim (Bool-cases (r.id == "")) [
      | inl z ↦ rw z (inv.letters_free _ p h)
      | inr z ↦ rw z (sync_known-keeps e d name r.id p h)
    ]

    on_number-keeps :
        (e : RpcEvent) (d : Decoded) (o : Option ℕ) (p : Poller R D C Q S)
        → P p
        → P (on_number b L upper message dispute_uuid letter_uuid e d o p).1
    unfolding on_number on_escrow dead_letter
    on_number-keeps e d none p h = inv.letters_free _ p h
    on_number-keeps e d (some n) p h =
        on_found-keeps e d (override (or_else d.topic0 "" ++ or_else d.topic1 ""))
          (T.find_first (λ r. is_number n r.contract_escrow_id) p.world.escrows) p h

    on_payload-keeps :
        (e : RpcEvent) (o : Option Decoded) (p : Poller R D C Q S)
        → P p
        → P (on_payload b L upper message dispute_uuid letter_uuid e o p).1
    unfolding on_payload on_decoded dead_letter
    on_payload-keeps e none p h = inv.letters_free _ p h
    on_payload-keeps e (some d) p h =
        elim (Bool-cases (not (truthy d.topic0) || not (truthy d.topic1))) [
          | inl z ↦ rw z (inv.letters_free _ p h)
          | inr z ↦ rw z (on_number-keeps e d d.contract_escrow_id p h)
        ]

    process_event-keeps :
        (e : RpcEvent) (p : Poller R D C Q S)
        → P p
        → P (process_event b L upper message dispute_uuid letter_uuid e p).1
    unfolding process_event
    process_event-keeps e p h = on_payload-keeps e e.payload p h

    stop-keeps :
        (r : Outcome (Unit {0})) (last : Option String) (p : Poller R D C Q S)
        (rest : Option String × Poller R D C Q S)
        → P p
        → P rest.1
        → P (stop r last p rest).1
    unfolding stop
    stop-keeps (ok _) last p rest h k = k
    stop-keeps (err _) last p rest h k = h

    process_events-keeps :
        (es : List RpcEvent) (last : Option String) (p : Poller R D C Q S)
        → P p
        → P (process_events b L upper message dispute_uuid letter_uuid es last p).1
    unfolding process_events
    process_events-keeps [] last p h = h
    process_events-keeps (e ∷ es) last p h =
        let (r, p') = process_event b L upper message dispute_uuid letter_uuid e p in
        let h' = process_event-keeps e p h in
        stop-keeps r last p'
          (process_events b L upper message dispute_uuid letter_uuid es (some e.paging_token) p') h'
          (process_events-keeps es (some e.paging_token) p' h')

    module _ (K : TextTable S) (start : Option ℕ) (ledger_cursor : ℕ → String)
        (latest_ledger : Poller R D C Q S → Outcome ℕ)
        (fetch : String → Poller R D C Q S → Outcome (List RpcEvent)) where
      stored-keeps : (o : Option S) (p : Poller R D C Q S) → P p → P (stored K o p)
      unfolding stored
      stored-keeps none p h = h
      stored-keeps (some s) p h = inv.cursors_free s p h

      set_cursor-keeps : (v : String) (p : Poller R D C Q S) → P p → P (set_cursor K v p)
      unfolding set_cursor
      set_cursor-keeps v p h = stored-keeps (K.upsert "stellar-listener" v p.cursors) p h

      quiet_at-keeps :
          (o : Outcome ℕ) (p : Poller R D C Q S)
          → P p
          → P (
              quiet_at b L upper message dispute_uuid letter_uuid K start ledger_cursor
                latest_ledger fetch o p)
      unfolding quiet_at
      quiet_at-keeps (err _) p h = h
      quiet_at-keeps (ok l) p h = elim (Bool-cases (eqb l 0)) [
        | inl y ↦ rw y h
        | inr y ↦ rw y (set_cursor-keeps _ p h)
      ]

      finish_batch-keeps :
          (last : Option String) (p : Poller R D C Q S)
          → P p
          → P (
              finish_batch b L upper message dispute_uuid letter_uuid K start ledger_cursor
                latest_ledger fetch
                (last, p))
      unfolding finish_batch
      finish_batch-keeps last p h = elim (Bool-cases (truthy last)) [
        | inl y ↦ rw y (set_cursor-keeps _ p h)
        | inr y ↦ rw y h
      ]

      on_fetched-keeps :
          (o : Outcome (List RpcEvent)) (p : Poller R D C Q S)
          → P p
          → P (
              on_fetched b L upper message dispute_uuid letter_uuid K start ledger_cursor
                latest_ledger fetch o p)
      unfolding on_fetched quiet
      on_fetched-keeps (err _) p h = h
      on_fetched-keeps (ok []) p h = quiet_at-keeps (latest_ledger p) p h
      on_fetched-keeps (ok (e ∷ es)) p h =
          let (last, p') =
            process_events b L upper message dispute_uuid letter_uuid (e ∷ es) none p in
          finish_batch-keeps last p' (process_events-keeps (e ∷ es) none p h)

      first_poll-keeps :
          (o : Outcome ℕ) (p : Poller R D C Q S)
          → P p
          → P (
              first_poll b L upper message dispute_uuid letter_uuid K start ledger_cursor
                latest_ledger fetch o p)
      unfolding first_poll poll_from
      first_poll-keeps (err _) p h = h
      first_poll-keeps (ok l) p h =
          let p' = set_cursor K (ledger_cursor l) p in
          on_fetched-keeps (fetch (ledger_cursor l) p') p' (set_cursor-keeps (ledger_cursor l) p h)

      pub poll_internal-keeps :
          (p : Poller R D C Q S)
          → P p
          → P (
              poll_internal b L upper message dispute_uuid letter_uuid K start ledger_cursor
                latest_ledger fetch p)
      unfolding poll_internal poll_from
      poll_internal-keeps p h =
          let cursor = get_cursor K p in
          elim (Bool-cases (truthy cursor)) [
            | inl y ↦ rw y (on_fetched-keeps (fetch (or_else cursor "") p) p h)
            | inr y ↦ rw y (
                first_poll-keeps
                  (start_ledger b L upper message dispute_uuid letter_uuid K start ledger_cursor
                    latest_ledger fetch p)
                  p h)
          ]
