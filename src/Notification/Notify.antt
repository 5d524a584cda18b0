-- ===== src/Notification/Notify.antt =====
-- src/notifications/notifications.service.ts: whom each event of an escrow is told to.
use trust_link_backend.Prelude.{
  String, Option, none, some, List, [], ◌∷◌, Bool, false, not, ◌&&◌, ◌||◌, if◌then◌else◌, truthy,
  or_else, ◌==◌,
}
use trust_link_backend.Exec.{Exec, Outcome, ok, err, pure, ◌>>=◌, ◌>>◌, lift}
use trust_link_backend.Prelude.Text.{trim}
use trust_link_backend.Escrow.{EscrowRecord}
use trust_link_backend.Encryption.{Node, decrypt_contact}
use trust_link_backend.Notification.Dispatch.{
  NotificationType, funded, shipped, delivered, disputed, completed, refunded, email, sms, Outbox,
  Outside, Settings, record_undeliverable, dispatch_email, dispatch_sms,
}

-- What the vendor's profile holds of its contacts.
pub record Contacts : Type 0 where
  pub email : Option String
  pub phone : Option String

-- `findByAddress` and the channels of `findNotificationPreferences`
pub record VendorProfiles : Type 0 where
  pub find_by_address : String → Outcome (Option Contacts)
  pub find_notification_channels : String → Outcome (List String)

abbrev pub default_notification_channels : List String
default_notification_channels = "EMAIL" ∷ []

abbrev pub includes : String → List String → Bool
includes s [] = false
includes s (t ∷ ts) = (t == s) || includes s ts

-- `value?.trim() || null`
abbrev pub trimmed : Option String → Option String
trimmed none = none
trimmed (some s) = let t = trim s in if t == "" then none else some t

-- `if (value) await …`
unfoldable pub when_truthy :
    Option String → (String → Exec Outbox (Unit {0})) → Exec Outbox (Unit {0})
when_truthy value send = if truthy value then send (or_else value "") else pure tt

-- The channels that the vendor chose, and the default where they cannot be read.
unfoldable pub channels_of : Outcome (List String) → List String
channels_of (ok channels) = channels
channels_of (err _) = default_notification_channels

abbrev pub email_of : Option Contacts → Option String
email_of none = none
email_of (some p) = trimmed p.email

abbrev pub phone_of : Option Contacts → Option String
phone_of none = none
phone_of (some p) = trimmed p.phone

module _ {B : Type 0} (n : Node B) (contact_key : Option String) (w : Outside) (c : Settings) where
  -- `tryDecrypt`
  unfoldable pub try_decrypt : Option String → Option String
  try_decrypt stored =
      if not (truthy stored)
      then none
      else elim (decrypt_contact n contact_key (or_else stored "")) [ ok t ↦ some t | err _ ↦ none ]

  unfoldable pub dispatch_to_buyer : NotificationType → EscrowRecord → Exec Outbox (Unit {0})
  unfolding when_truthy
  dispatch_to_buyer type escrow =
      let resolved_email = try_decrypt escrow.buyer_contact_email in
      let resolved_phone = try_decrypt escrow.buyer_contact_phone in
      when_truthy resolved_email (dispatch_email w c type escrow)
      >> when_truthy resolved_phone (dispatch_sms w c type escrow)
      >> (if not (truthy resolved_email) && not (truthy resolved_phone)
          then record_undeliverable w type escrow email escrow.buyer_address
            >> record_undeliverable w type escrow sms escrow.buyer_address
          else pure tt)

  unfoldable pub to_vendor :
      NotificationType → EscrowRecord → Option Contacts → List String → Exec Outbox (Unit {0})
  unfolding when_truthy
  to_vendor type escrow profile channels =
      (if includes "EMAIL" channels
        then when_truthy (email_of profile) (dispatch_email w c type escrow)
        else pure tt)
      >> (if includes "SMS" channels
          then when_truthy (phone_of profile) (dispatch_sms w c type escrow)
          else pure tt)

  unfoldable pub dispatch_to_vendor :
      Option VendorProfiles → NotificationType → EscrowRecord → Exec Outbox (Unit {0})
  unfolding channels_of to_vendor
  dispatch_to_vendor none type escrow =
      record_undeliverable w type escrow email escrow.vendor_address
  dispatch_to_vendor (some profiles) type escrow =
      lift (profiles.find_by_address escrow.vendor_address) >>= (λ profile.
        to_vendor type escrow profile
          (channels_of (profiles.find_notification_channels escrow.vendor_address)))

  unfoldable pub notify_disputed_admin : EscrowRecord → Exec Outbox (Unit {0})
  notify_disputed_admin escrow =
      if truthy c.admin_email
      then dispatch_email w c disputed escrow (or_else c.admin_email "")
      else pure tt

  -- `notifyFunded`, `notifyShipped`, `notifyDelivered`, `notifyDisputed`, `notifyCompleted` and
  -- `notifyRefunded`
  unfoldable pub notify :
      Option VendorProfiles → NotificationType → EscrowRecord → Exec Outbox (Unit {0})
  unfolding dispatch_to_vendor dispatch_to_buyer
  notify profiles funded = dispatch_to_vendor profiles funded
  notify profiles shipped = dispatch_to_buyer shipped
  notify profiles delivered = dispatch_to_buyer delivered
  notify profiles disputed = dispatch_to_vendor profiles disputed
  notify profiles completed = dispatch_to_buyer completed
  notify profiles refunded = dispatch_to_buyer refunded
