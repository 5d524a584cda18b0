-- ===== src/Worker/TrackingPoll.antt =====
-- src/workers/tracking-poll.worker.ts. The carrier's client (src/logistics) is a parameter: its
-- answer for a tracking id, or a failure.
pub mod Progress
use trust_link_backend.Prelude.{
  ℕ, String, Option, none, some, List, [], ◌∷◌, Bool, true, false, if◌then◌else◌, truthy, or_else,
  ◌==◌, not,
}
use trust_link_backend.Exec.{
  Exec, Outcome, ok, err, Failure, rejected, pure, raise, lift, attempt, finally, ◌>>=◌, ◌>>◌,
}
use trust_link_backend.Escrow.{EscrowRecord}
use trust_link_backend.Backend.{Backend, World, record_delivery, notify_delivered}
use trust_link_backend.Backend.Effects.{notify, submit}
use trust_link_backend.Escrow.Repository.{
  mark_delivered, mark_tracking_checked, clear_delivery_claim,
}
use trust_link_backend.Escrow.Repository.Claims.{find_shipped_with_tracking, claim_delivery}

-- `TRACKING_POLL_BATCH_SIZE`
abbrev pub batch_size : ℕ
batch_size = 50

-- `requireAdminAddress`
admin : {S : Type 0} → Option String → Exec S String
admin none = raise rejected
admin (some a) = if a == "" then raise rejected else pure a

module _ {R D C : Type 0} (b : Backend R D C) (carrier : String → Outcome String) where
  -- Once the claim is held: record the delivery on chain, then in the table. A notification that
  -- fails is logged.
  record_on_chain : EscrowRecord → ℕ → Exec (World R D C) (Unit {0})
  unfolding admin
  record_on_chain e n = do
    address ← admin b.admin_address
    submit b (record_delivery n address)
    updated ← mark_delivered b e.id
    notify b (notify_delivered updated)
    pure tt

  release_claim : EscrowRecord → Failure → Exec (World R D C) (Unit {0})
  release_claim e failure = do clear_delivery_claim b e.id; raise failure

  if_claimed : EscrowRecord → ℕ → Option EscrowRecord → Exec (World R D C) (Unit {0})
  unfolding record_on_chain release_claim
  if_claimed e n none = pure tt
  if_claimed e n (some _) = attempt (record_on_chain e n) (release_claim e)

  if_delivered : EscrowRecord → ℕ → String → Exec (World R D C) (Unit {0})
  unfolding if_claimed
  if_delivered e n status =
      if not (status == "DELIVERED")
      then pure tt
      else do claimed ← claim_delivery b e.id; if_claimed e n claimed

  check_status : EscrowRecord → Option ℕ → Exec (World R D C) (Unit {0})
  unfolding if_delivered
  check_status e none = pure tt
  check_status e (some n) = do
    status ← lift (carrier (or_else e.tracking_id ""))
    if_delivered e n status

  pub process_shipment : EscrowRecord → Exec (World R D C) (Unit {0})
  unfolding check_status
  process_shipment e =
      finally (if not (truthy e.tracking_id) then pure tt else check_status e e.contract_escrow_id)
        (mark_tracking_checked b e.id)

  -- The items of a batch, one after another; the failure of one is logged.
  process_all : List EscrowRecord → World R D C → World R D C
  unfolding process_shipment
  process_all [] w = w
  process_all (e ∷ es) w = process_all es (process_shipment e w).1

  abbrev process_batch : Outcome (List EscrowRecord) × World R D C → World R D C
  process_batch (ok es, w) = process_all es w
  process_batch (err _, w) = w

  pub run_cycle : World R D C → World R D C
  unfolding process_all
  run_cycle w = process_batch (find_shipped_with_tracking b batch_size w)
