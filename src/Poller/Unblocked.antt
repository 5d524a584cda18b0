-- ===== src/Poller/Unblocked.antt =====
-- src/stellar/soroban-poller.service.ts: how long an event that fails can hold up the ones behind it.
use trust_link_backend.Prelude.{
  ℕ, suc, ◌+◌, ◌≤◌, String, Option, none, some, not, ◌||◌, ◌≡◌, refl, ◌∙◌, ◌⊎◌, inl, inr, ◌==◌,
  eq_refl, arith, truthy, or_else, leb, Bool-cases,
}
use mathlib.Core.Path.{subst}
use Prim.Native.String.{◌++◌}
use trust_link_backend.Exec.{Outcome, ok, err, Failure}
use trust_link_backend.Database.{Table}
use trust_link_backend.Escrow.{EscrowRecord}
use trust_link_backend.Escrow.Sync.{SyncResult, sync_state_from_chain}
use trust_link_backend.Backend.{Backend, World}
use trust_link_backend.Dlq.{FailedTransaction, Queue}
use trust_link_backend.Poller.{
  Poller, max_sync_retries, is_number, dead_letter, after_sync, sync_known, on_found, on_escrow,
  on_number, on_decoded, on_payload, process_event,
}
use trust_link_backend.Poller.Event.{RpcEvent, Decoded, Reason, override, chain_event}

module _ {R D C Q S : Type 0} (b : Backend R D C) (L : Table FailedTransaction Q)
    (upper : String → String) (message : Reason → RpcEvent → String)
    (dispute_uuid : World R D C → String) (letter_uuid : Queue Q → String) where
  open b use {escrow_table as T}

  -- How an attempt that throws leaves the poller: as it was, or with one more failure of the event.
  Thrown : RpcEvent → Poller R D C Q S → Outcome (Unit {0}) × Poller R D C Q S → Type 0
  Thrown e p (ok _, p') = Unit
  Thrown e p (err x, p') =
      (p' ≡ p) ⊎ ((p'.retries e.id ≡ suc (p.retries e.id)) × (suc (p.retries e.id) ≤ 4))

  after_sync-Thrown :
      (e : RpcEvent) (id : String) (x : Outcome SyncResult × World R D C) (p : Poller R D C Q S)
      → Thrown e p (after_sync b L upper message dispute_uuid letter_uuid e id x p)
  unfolding after_sync dead_letter Thrown
  after_sync-Thrown e id (ok _, w) p = tt
  after_sync-Thrown e id (err x, w) p =
      elim (Bool-cases (leb max_sync_retries (suc (p.retries e.id)))) [
        | inl y ↦ rw y tt
        | inr y ↦ rw y (inr (rw (eq_refl e.id) refl, ground (arith, y)))
      ]

  on_found-Thrown :
      (e : RpcEvent) (d : Decoded) (name : String) (o : Option (Option EscrowRecord))
      (p : Poller R D C Q S)
      → Thrown e p (on_found b L upper message dispute_uuid letter_uuid e d name o p)
  unfolding on_found dead_letter sync_known Thrown
  on_found-Thrown e d name none p = inl refl
  on_found-Thrown e d name (some none) p = tt
  on_found-Thrown e d name (some (some r)) p = elim (Bool-cases (r.id == "")) [
    | inl z ↦ rw z tt
    | inr z ↦ rw z (
        after_sync-Thrown e r.id
          (sync_state_from_chain b (dispute_uuid p.world) (chain_event upper e d name r.id) p.world)
          p)
  ]

  on_number-Thrown :
      (e : RpcEvent) (d : Decoded) (o : Option ℕ) (p : Poller R D C Q S)
      → Thrown e p (on_number b L upper message dispute_uuid letter_uuid e d o p)
  unfolding on_number on_escrow dead_letter Thrown
  on_number-Thrown e d none p = tt
  on_number-Thrown e d (some n) p =
      on_found-Thrown e d (override (or_else d.topic0 "" ++ or_else d.topic1 ""))
        (T.find_first (λ r. is_number n r.contract_escrow_id) p.world.escrows) p

  on_payload-Thrown :
      (e : RpcEvent) (o : Option Decoded) (p : Poller R D C Q S)
      → Thrown e p (on_payload b L upper message dispute_uuid letter_uuid e o p)
  unfolding on_payload on_decoded dead_letter Thrown
  on_payload-Thrown e none p = tt
  on_payload-Thrown e (some d) p =
      elim (Bool-cases (not (truthy d.topic0) || not (truthy d.topic1))) [
        | inl z ↦ rw z tt
        | inr z ↦ rw z (on_number-Thrown e d d.contract_escrow_id p)
      ]

  -- The event threw `n` times, each time with a failure that changed the poller. Between its attempts
  -- anything may happen that leaves the event's count.
  pub data Blocked (e : RpcEvent) : ℕ → Poller R D C Q S → Poller R D C Q S → Type 0 where
    start : {p : Poller R D C Q S} → Blocked e 0 p p
    meanwhile :
        {n : ℕ} {p q r : Poller R D C Q S}
        → Blocked e n p q
        → r.retries e.id ≡ q.retries e.id
        → Blocked e n p r
    threw :
        {n : ℕ} {p q r : Poller R D C Q S} {x : Failure}
        → Blocked e n p q
        → process_event b L upper message dispute_uuid letter_uuid e q ≡ (err x, r)
        → ¬ (r ≡ q)
        → Blocked e (suc n) p r

  counted :
      (e : RpcEvent) (q r : Poller R D C Q S) (x : Failure)
      → process_event b L upper message dispute_uuid letter_uuid e q ≡ (err x, r)
      → ¬ (r ≡ q)
      → (r.retries e.id ≡ suc (q.retries e.id)) × (suc (q.retries e.id) ≤ 4)
  unfolding process_event Thrown
  counted e q r x h changed = elim (subst (Thrown e q) h (on_payload-Thrown e e.payload q)) [
    | inl same ↦ absurd (changed same)
    | inr c ↦ c
  ]

  Blocked-retries :
      (e : RpcEvent) {n : ℕ} {p q : Poller R D C Q S}
      → Blocked e n p q
      → (q.retries e.id ≡ n + p.retries e.id) × ((n ≡ 0) ⊎ (q.retries e.id ≤ 4))
  Blocked-retries e start = (omega arith, inl refl)
  Blocked-retries e (meanwhile h same) =
      let (count, few) = Blocked-retries e h in
      (same ∙ count, elim few [ inl z ↦ inl z | inr z ↦ inr (omega (arith, z, same)) ])
  Blocked-retries e (threw {q = q} {r = r} {x = x} h t changed) =
      let (count, _) = Blocked-retries e h in
      let (more, few) = counted e q r x t changed in
      (omega (arith, more, count), inr (omega (arith, more, few)))

  -- An event that cannot be applied holds up the events behind it in four attempts at most, each of
  -- which counts, those aside in which its escrow could not be looked up, which leave the poller as it
  -- was.
  pub Blocked-bounded :
      (e : RpcEvent) (n : ℕ) (p q : Poller R D C Q S)
      → Blocked e n p q
      → (q.retries e.id ≡ n + p.retries e.id) × (n ≤ 4)
  Blocked-bounded e n p q h =
      let (count, few) = Blocked-retries e h in
      (count, elim few [ inl z ↦ omega (arith, z) | inr z ↦ omega (arith, z, count) ])
