-- ===== src/Worker/AutoRelease.antt =====
-- src/workers/auto-release.worker.ts: one run over the escrows whose window has passed. The flag
-- `running` keeps the runs of one process apart; each run is one action here.
pub mod Progress
pub mod Safety
use trust_link_backend.Prelude.{
  ℕ, suc, ◌+◌, String, Option, none, some, List, [], ◌∷◌, Bool, true, false, ◌||◌, if◌then◌else◌,
  is_some, truthy, ◌==◌,
}
use trust_link_backend.Exec.{
  Exec, Outcome, ok, err, Failure, rejected, pure, raise, attempt, ◌>>=◌, ◌>>◌,
}
use trust_link_backend.Escrow.{EscrowRecord, is_terminal}
use trust_link_backend.Backend.{Backend, World, submit_auto_release}
use trust_link_backend.Backend.Effects.{submit}
use trust_link_backend.Escrow.Repository.{
  record_auto_release_submission, clear_auto_release_submitting,
}
use trust_link_backend.Escrow.Repository.Claims.{
  find_auto_release_eligible, mark_auto_release_submitting,
}
use trust_link_backend.Escrow.Sync.{find_dispute}

-- `requireAutoReleaseSourceAddress` throws where the address is not configured.
configured : {S : Type 0} → Option String → Exec S String
configured none = raise rejected
configured (some a) = if a == "" then raise rejected else pure a

-- `successCount` and the ids of `failures`
pub record Summary : Type 0 where
  pub successes : ℕ
  pub failures : List String

module _ {R D C : Type 0} (b : Backend R D C) where
  submit_and_record : EscrowRecord → ℕ → Exec (World R D C) Bool
  unfolding configured
  submit_and_record e n = do
    source ← configured b.auto_release_source
    tx ← submit b (submit_auto_release n source)
    record_auto_release_submission b e.id tx
    pure true

  -- Release the claim so that the next run can retry.
  release_claim : EscrowRecord → Failure → Exec (World R D C) Bool
  release_claim e failure = do clear_auto_release_submitting b e.id; raise failure

  if_claimed : EscrowRecord → ℕ → Option EscrowRecord → Exec (World R D C) Bool
  unfolding submit_and_record release_claim
  if_claimed e n none = pure false
  if_claimed e n (some _) = attempt (submit_and_record e n) (release_claim e)

  if_mapped : EscrowRecord → Option ℕ → Exec (World R D C) Bool
  unfolding if_claimed
  if_mapped e none = pure false
  if_mapped e (some n) = do claimed ← mark_auto_release_submitting b e.id; if_claimed e n claimed

  pub process_escrow : EscrowRecord → Exec (World R D C) Bool
  unfolding if_mapped
  process_escrow e = do
    dispute ← find_dispute b e.id
    if is_some dispute
        then pure false
        else if is_terminal e.state || truthy e.auto_release_tx_hash
        then pure false
        else if_mapped e e.contract_escrow_id

  -- The outcome of one escrow, counted; an error of one does not stop the batch.
  abbrev count_outcome : EscrowRecord → Summary → Outcome Bool → Summary
  count_outcome e s (ok true) = record s { successes = suc s.successes }
  count_outcome e s (ok false) = s
  count_outcome e s (err _) = record s { failures = e.id ∷ s.failures }

  process_all : List EscrowRecord → Summary → World R D C → Summary × World R D C
  unfolding process_escrow
  process_all [] s w = (s, w)
  process_all (e ∷ es) s w =
      let (r, w') = process_escrow e w in process_all es (count_outcome e s r) w'

  abbrev process_batch : Outcome (List EscrowRecord) × World R D C → Summary × World R D C
  process_batch (ok es, w) = process_all es (record { successes = 0; failures = [] }) w
  process_batch (err _, w) = (record { successes = 0; failures = [] }, w)

  -- A rejected query ends the run; it is logged and not rethrown.
  pub run_cycle : ℕ → World R D C → Summary × World R D C
  unfolding process_all
  run_cycle reference w = process_batch (find_auto_release_eligible b reference w)
