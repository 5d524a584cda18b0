-- ===== src/Webhook.antt =====
-- src/webhooks/stellar-webhook.service.ts and stellar-webhook.repository.ts: payments that Horizon
-- reports, each handled once. HMAC-SHA256, `Number` and `toUpperCase` are parameters.
pub mod Payment
pub mod Progress
pub mod Replay
pub mod Again
pub mod Once
use trust_link_backend.Prelude.{
  ℕ, String, Option, none, some, List, [], ◌∷◌, Bool, true, false, not, if◌then◌else◌, is_some,
  keep, eqb, ◌==◌, or_else, truthy, ◌&&◌,
}
use trust_link_backend.Exec.{
  Exec, Outcome, ok, err, Failure, rejected, unauthorized, bad_request, internal, pure, raise,
  catch_with, ◌>>=◌, ◌>>◌,
}
use trust_link_backend.Database.{Table}
use trust_link_backend.Escrow.{EscrowRecord, Amount, plus, minus, created, funded, is_state}
use trust_link_backend.Escrow.Repository.{find_by_vendor, update_state}
use trust_link_backend.Backend.{Backend, World, notify_funded}
use trust_link_backend.Backend.Effects.{notify}

-- `StellarWebhookDto`, as far as it is read
pub record Event : Type 0 where
  pub id : String
  pub is_payment : Bool
  pub to : Option String
  pub amount : Option String
  pub asset_code : Option String

-- A row of ProcessedWebhookEvent.
pub record Processed : Type 0 where
  pub operation_id : String

pub record Inbox (R D C P : Type 0) : Type 0 where
  pub world : World R D C
  pub processed : P

pub record Horizon (P : Type 0) : Type 0 where
  pub processed_table : Table Processed P
  -- `STELLAR_WEBHOOK_SECRET`
  pub secret : Option String
  -- the HMAC of a body under a secret, and the comparison of a signature with it
  pub hmac : String → String → String
  pub same_digest : String → String → Bool
  -- `Number(text)`: none is NaN
  pub number : String → Option Amount
  pub upper : String → String

-- What the service answers.
pub data Received : Type 0 where
  received duplicate : Received

abbrev pub same_amount : Option Amount → Amount → Bool
same_amount none a = false
same_amount (some (plus m)) (plus n) = eqb m n
same_amount (some (minus m)) (minus n) = eqb m n
same_amount (some _) _ = false

-- `dto.amount !== undefined ? Number(dto.amount) : NaN`
abbrev pub received_amount : (String → Option Amount) → Option String → Option Amount
received_amount number none = none
received_amount number (some s) = number s

module _ {R D C P : Type 0} (b : Backend R D C) (h : Horizon P) where
  open h use {processed_table as PT}

  -- The payment is for this escrow's amount and currency.
  abbrev pub is_exact : Event → EscrowRecord → Bool
  is_exact e r =
      same_amount (received_amount h.number e.amount) r.amount
      && h.upper (or_else e.asset_code "XLM") == h.upper r.currency

  abbrev is_created : EscrowRecord → Bool
  is_created r = is_state r.state created

  -- The loop over the escrows that wait for a payment.
  unfoldable pub fund_each : Event → List EscrowRecord → Exec (World R D C) (Unit {0})
  fund_each e [] w = pure tt w
  fund_each e (r ∷ rs) w =
      let rest = fund_each e rs in
      (if is_exact e r
          then (do updated ← update_state b r.id funded; notify b (notify_funded updated); rest)
          else rest)
        w

  unfoldable pub pay_vendor : Event → Option String → Exec (World R D C) (Unit {0})
  unfolding fund_each
  pay_vendor e none = raise bad_request
  pay_vendor e (some to) =
      if to == ""
      then raise bad_request
      else do escrows ← find_by_vendor b to; fund_each e (keep is_created escrows)

  -- `handlePayment`
  unfoldable pub handle_payment : Event → Exec (World R D C) (Unit {0})
  unfolding pay_vendor
  handle_payment e = pay_vendor e e.to

  unfoldable pub process_event : Event → Exec (World R D C) (Unit {0})
  unfolding handle_payment
  process_event e = if e.is_payment then handle_payment e else pure tt

  unfoldable pub on_world : {A : Type 0} → Exec (World R D C) A → Exec (Inbox R D C P) A
  on_world m i = let (r, w) = m i.world in (r, record i { world = w })

  unfoldable pub is_processed : String → Exec (Inbox R D C P) Bool
  is_processed id i = elim (PT.find_unique id i.processed) [
    | none ↦ (err rejected, i)
    | some o ↦ (ok (is_some o), i)
  ]

  unfoldable pub mark_processed : String → Exec (Inbox R D C P) (Unit {0})
  mark_processed id i = elim (PT.create (record { operation_id = id }) i.processed) [
    | none ↦ (err rejected, i)
    | some t ↦ (ok tt, record i { processed = t })
  ]

  unfoldable pub unmark_processed : String → Exec (Inbox R D C P) (Unit {0})
  unmark_processed id i = elim (PT.delete id i.processed) [
    | none ↦ (err rejected, i)
    | some t ↦ (ok tt, record i { processed = t })
  ]

  unfoldable pub roll_back : Event → Failure → Exec (Inbox R D C P) (Unit {0})
  unfolding unmark_processed
  roll_back e failure = do unmark_processed e.id; raise failure

  -- `try { processEvent } catch { unmarkProcessed; throw }`
  unfoldable pub guarded : Event → Exec (Inbox R D C P) (Unit {0})
  unfolding on_world process_event roll_back
  guarded e i = catch_with (roll_back e) (on_world (process_event e) i)

  unfoldable pub unless_duplicate : Event → Bool → Exec (Inbox R D C P) Received
  unfolding mark_processed guarded
  unless_duplicate e true = pure duplicate
  unless_duplicate e false = do mark_processed e.id; guarded e; pure received

  -- `processOperationDto`, and `handleEvent` after the signature is checked
  unfoldable pub process_operation : Event → Exec (Inbox R D C P) Received
  unfolding is_processed unless_duplicate
  process_operation e = do seen ← is_processed e.id; unless_duplicate e seen

  check_signature : String → Option String → Option String → Exec (Inbox R D C P) (Unit {0})
  check_signature body none signature = raise internal
  check_signature body (some secret) signature =
      if secret == ""
      then raise internal
      else if not (truthy signature)
      then raise unauthorized
      else if h.same_digest (or_else signature "") (h.hmac secret body)
      then pure tt
      else raise unauthorized

  -- `handleEvent`
  pub handle_event : String → Option String → Event → Exec (Inbox R D C P) Received
  unfolding check_signature process_operation
  handle_event body signature e = do check_signature body h.secret signature; process_operation e
