-- ===== src/Notification/Dispatch.antt =====
-- src/notifications/notifications.service.ts and `create` of notification.repository.ts: one message
-- over one channel, tried three times at most, and its row. Tracing spans and logs are left out.

use trust_link_backend.Prelude.{
  ℕ, zero, suc, ◌*◌, ◌^◌, String, Option, none, some, List, ◌∷◌, Bool, true, not, ◌&&◌,
  if◌then◌else◌, leb, ltb, eqb, truthy, or_else, ◌==◌,
}
use Prim.Native.String.{◌++◌}
use trust_link_backend.Exec.{Exec, ok, err, rejected}
use trust_link_backend.Prelude.Text.{trim}
use trust_link_backend.Escrow.{EscrowRecord}

pub data NotificationType : Type 0 where
  funded shipped delivered disputed completed refunded : NotificationType

abbrev pub name : NotificationType → String
name funded = "FUNDED"
name shipped = "SHIPPED"
name delivered = "DELIVERED"
name disputed = "DISPUTED"
name completed = "COMPLETED"
name refunded = "REFUNDED"

pub data Channel : Type 0 where
  email sms : Channel

-- `CreateNotificationInput`, the row that `create` inserts
pub record Row : Type 0 where
  pub escrow_id : String
  pub type : NotificationType
  pub channel : Channel
  pub recipient_address : String
  pub message : String
  pub provider_message_id : Option String
  pub attempt_count : ℕ
  pub last_response_code : Option ℕ

-- The payload of a call of SendGrid or Twilio. The request's id, which is random, is left out.
pub data Message : Type 0 where
  mail :
      (to : String) → (from : Option String) → (template_id escrow_id item_name : String) → Message
  text_message : (to body : String) → (from : Option String) → Message

-- A provider's error, with the numbers that `extractResponseCode` looks for in it.
pub record ProviderError : Type 0 where
  pub code : Option ℕ
  pub status : Option ℕ
  pub response_status_code : Option ℕ
  pub response_status : Option ℕ

-- What a call ends in. The id is the header `x-message-id` of SendGrid's answer or the `sid` of
-- Twilio's, and the code is the `statusCode` of SendGrid's.
pub data Reply : Type 0 where
  accepted : Option String → Option ℕ → Reply
  refused : ProviderError → Reply

-- Every call of a provider, every row, and every delay in milliseconds; newest first.
pub record Outbox : Type 0 where
  pub calls : List Message
  pub rows : List Row
  pub delays : List ℕ

-- The configuration. An absent `ConfigService` is one that holds nothing.
pub record Settings : Type 0 where
  pub from_email : Option String
  pub template : NotificationType → Option String
  pub from_number : Option String
  pub admin_email : Option String
  -- whether the SendGrid client is `noopSendGrid`
  pub unconfigured : Bool

-- The providers, which answer as they like to what they were sent before; the database, which takes
-- a row or rejects the insertion; and `StrKey.isValidEd25519PublicKey`.
pub record Outside : Type 0 where
  pub reply : List Message → Message → Reply
  pub takes : List Row → Row → Bool
  pub is_public_key : String → Bool

-- `MAX_ATTEMPTS`
abbrev pub max_attempts : ℕ
max_attempts = 3

-- `isRetryableProviderError`
abbrev pub is_retryable_provider_error : Option ℕ → Bool
is_retryable_provider_error none = true
is_retryable_provider_error (some code) =
    if eqb code 408 then true else if eqb code 429 then true else not (leb 400 code && ltb code 500)

abbrev first : Option ℕ → Option ℕ → Option ℕ
first none o = o
first (some n) _ = some n

-- `extractResponseCode`
abbrev pub extract_response_code : ProviderError → Option ℕ
extract_response_code e =
    first e.code (first e.status (first e.response_status_code e.response_status))

-- `templateIdFor`
abbrev pub template_id_for : Settings → NotificationType → Option String
template_id_for c type = elim (c.template type) [
  | none ↦ none
  | some value ↦ let trimmed = trim value in if trimmed == "" then none else some trimmed
]

-- What the loop leaves: `providerMessageId`, `attemptCount`, `lastResponseCode`.
pub record Delivery : Type 0 where
  pub provider_message_id : Option String
  pub attempt_count : ℕ
  pub last_response_code : Option ℕ

abbrev pub undelivered : Delivery
undelivered = record { provider_message_id = none; attempt_count = 0; last_response_code = none }

-- Only an email's answer sets the code.
abbrev on_accepted : Channel → Option String → Option ℕ → Delivery → Delivery
on_accepted email id code d = record d { provider_message_id = id; last_response_code = code }
on_accepted sms id code d = record d { provider_message_id = id }

module _ (w : Outside) where
  -- The loop of `dispatchEmail` and `dispatchSms`, with `n` attempts left.
  unfoldable pub attempts_left : ℕ → Channel → Message → Delivery → Outbox → Delivery × Outbox
  attempts_left zero channel m d o = (d, o)
  attempts_left (suc n) channel m d o =
      let d1 = record d { attempt_count = suc d.attempt_count } in
      let o1 = record o { calls = m ∷ o.calls } in
      elim (w.reply o.calls m) [
        | accepted id code ↦ (on_accepted channel id code d1, o1)
        | refused e ↦
            let code = extract_response_code e in
            let d2 = record d1 { last_response_code = code } in
            let delay = 1000 * 2 ^ d.attempt_count in
            let o2 =
              if ltb d2.attempt_count max_attempts
              then record o1 { delays = delay ∷ o1.delays }
              else o1 in
            let rest = attempts_left n channel m d2 o2 in
            if is_retryable_provider_error code then rest else (d2, o1)
      ]

  -- `createNotification`
  unfoldable pub create_notification : Row → Exec Outbox (Unit {0})
  create_notification row o =
      if w.takes o.rows row then (ok tt, record o { rows = row ∷ o.rows }) else (err rejected, o)

  unfoldable pub row_of : NotificationType → EscrowRecord → Channel → String → Delivery → Row
  row_of type escrow channel address d = record {
    escrow_id = escrow.id;
    type = type;
    channel = channel;
    recipient_address = address;
    message = name type ++ ": " ++ escrow.item_name;
    provider_message_id = d.provider_message_id;
    attempt_count = d.attempt_count;
    last_response_code = d.last_response_code;
  }

  -- `recordUndeliverable`, `recordUndeliverableEmail`
  unfoldable pub record_undeliverable :
      NotificationType → EscrowRecord → Channel → String → Exec Outbox (Unit {0})
  unfolding row_of create_notification
  record_undeliverable type escrow channel address =
      create_notification (row_of type escrow channel address undelivered)

  -- The loop, and the row of how it went.
  unfoldable pub attempt_and_record :
      NotificationType → EscrowRecord → Channel → String → Message → Exec Outbox (Unit {0})
  unfolding row_of attempts_left create_notification
  attempt_and_record type escrow channel address m o =
      let (d, o1) = attempts_left max_attempts channel m undelivered o in
      create_notification (row_of type escrow channel address d) o1

  module _ (c : Settings) where
    unfoldable pub dispatch_email :
        NotificationType → EscrowRecord → String → Exec Outbox (Unit {0})
    unfolding record_undeliverable attempt_and_record
    dispatch_email type escrow address =
        let undeliverable = record_undeliverable type escrow email address in
        let template_id = template_id_for c type in
        let sending =
          attempt_and_record type escrow email address
            (mail address c.from_email (or_else template_id "") escrow.id escrow.item_name) in
        if w.is_public_key address
        then undeliverable
        else if not c.unconfigured && not (truthy c.from_email)
        then undeliverable
        else if not c.unconfigured && not (truthy template_id)
        then undeliverable
        else sending

    unfoldable pub dispatch_sms : NotificationType → EscrowRecord → String → Exec Outbox (Unit {0})
    unfolding record_undeliverable attempt_and_record
    dispatch_sms type escrow address =
        let from = if truthy c.from_number then c.from_number else none in
        if w.is_public_key address
        then record_undeliverable type escrow sms address
        else attempt_and_record type escrow sms address
            (text_message address (name type ++ ": " ++ escrow.item_name) from)
