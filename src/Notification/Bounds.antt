-- ===== src/Notification/Bounds.antt =====
-- src/notifications/notifications.service.ts: what one notification costs, and whom it reaches.
use trust_link_backend.Prelude.{String, Option, none, some, List, truthy, or_else, arith}
use trust_link_backend.Exec.{Exec, Outcome, ok, err, continue}
use trust_link_backend.Escrow.{EscrowRecord}
use trust_link_backend.Encryption.{Node}
use trust_link_backend.Notification.Dispatch.{
  NotificationType, funded, shipped, delivered, disputed, completed, refunded, email, sms, Outbox,
  Outside, Settings,
}
use trust_link_backend.Notification.Notify.{
  Contacts, VendorProfiles, includes, email_of, phone_of, try_decrypt, when_truthy,
  dispatch_to_buyer, channels_of, to_vendor, dispatch_to_vendor, notify_disputed_admin, notify,
}
use trust_link_backend.Notification.Calls.{
  Accounted, IsAccounted, pure-IsAccounted, weaken, then-IsAccounted, branch,
  record_undeliverable-IsAccounted, dispatch_email-IsAccounted, dispatch_sms-IsAccounted,
}

module _ {B : Type 0} (n : Node B) (contact_key : Option String) (w : Outside) (c : Settings) where
  when_truthy-IsAccounted :
      (value : Option String) (send : String → Exec Outbox (Unit {0}))
      → ((s : String) → IsAccounted w 3 (send s))
      → IsAccounted w 3 (when_truthy value send)
  unfolding when_truthy
  when_truthy-IsAccounted value send h =
      branch w (truthy value) 3 _ _ (λ _. h (or_else value "")) (λ _. pure-IsAccounted w 3)

  dispatch_to_buyer-IsAccounted :
      (type : NotificationType) (escrow : EscrowRecord)
      → IsAccounted w 6 (dispatch_to_buyer n contact_key w c type escrow)
  unfolding dispatch_to_buyer
  dispatch_to_buyer-IsAccounted type escrow =
      let unsent =
        then-IsAccounted w 0 0 _ _
          (record_undeliverable-IsAccounted w type escrow email escrow.buyer_address)
          (record_undeliverable-IsAccounted w type escrow sms escrow.buyer_address) in
      let sent =
        then-IsAccounted w 3 3 _ _
          (when_truthy-IsAccounted (try_decrypt n contact_key w c escrow.buyer_contact_email) _
            (dispatch_email-IsAccounted w c type escrow))
          (when_truthy-IsAccounted (try_decrypt n contact_key w c escrow.buyer_contact_phone) _
            (dispatch_sms-IsAccounted w c type escrow)) in
      then-IsAccounted w 6 0 _ _ sent (branch w _ 0 _ _ (λ _. unsent) (λ _. pure-IsAccounted w 0))

  to_vendor-IsAccounted :
      (type : NotificationType) (escrow : EscrowRecord) (profile : Option Contacts)
      (channels : List String)
      → IsAccounted w 6 (to_vendor n contact_key w c type escrow profile channels)
  unfolding to_vendor
  to_vendor-IsAccounted type escrow profile channels =
      then-IsAccounted w 3 3 _ _
        (branch w (includes "EMAIL" channels) 3 _ _
          (λ _.
            when_truthy-IsAccounted (email_of profile) _
              (dispatch_email-IsAccounted w c type escrow))
          (λ _. pure-IsAccounted w 3))
        (branch w (includes "SMS" channels) 3 _ _
          (λ _.
            when_truthy-IsAccounted (phone_of profile) _ (dispatch_sms-IsAccounted w c type escrow))
          (λ _. pure-IsAccounted w 3))

  dispatch_to_vendor-IsAccounted :
      (profiles : Option VendorProfiles) (type : NotificationType) (escrow : EscrowRecord)
      → IsAccounted w 6 (dispatch_to_vendor n contact_key w c profiles type escrow)
  unfolding dispatch_to_vendor
  dispatch_to_vendor-IsAccounted none type escrow o =
      weaken w 0 6 _ (omega arith)
        (record_undeliverable-IsAccounted w type escrow email escrow.vendor_address) o
  dispatch_to_vendor-IsAccounted (some profiles) type escrow o =
      go (profiles.find_by_address escrow.vendor_address)
    where
      channels : List String
      channels = channels_of (profiles.find_notification_channels escrow.vendor_address)

      go :
          (r : Outcome (Option Contacts))
          → let (r', o') =
              continue
                (λ profile. to_vendor n contact_key w c type escrow profile channels)
                (r, o) in
            Accounted w 6 o r' o'
      go (ok profile) = to_vendor-IsAccounted type escrow profile channels o
      go (err f) = record {
        deliverable = λ h. h;
        bounded = omega arith;
        reported = λ e. absurd (cc);
      }

  told :
      (profiles : Option VendorProfiles) (type : NotificationType) (escrow : EscrowRecord)
      → IsAccounted w 6 (notify n contact_key w c profiles type escrow)
  unfolding notify
  told profiles funded escrow = dispatch_to_vendor-IsAccounted profiles funded escrow
  told profiles shipped escrow = dispatch_to_buyer-IsAccounted shipped escrow
  told profiles delivered escrow = dispatch_to_buyer-IsAccounted delivered escrow
  told profiles disputed escrow = dispatch_to_vendor-IsAccounted profiles disputed escrow
  told profiles completed escrow = dispatch_to_buyer-IsAccounted completed escrow
  told profiles refunded escrow = dispatch_to_buyer-IsAccounted refunded escrow

  admin_told :
      (escrow : EscrowRecord) → IsAccounted w 3 (notify_disputed_admin n contact_key w c escrow)
  unfolding notify_disputed_admin
  admin_told escrow =
      branch w (truthy c.admin_email) 3 _ _
        (λ _. dispatch_email-IsAccounted w c disputed escrow (or_else c.admin_email ""))
        (λ _. pure-IsAccounted w 3)

  -- From any outbox, a notification of any type calls the providers six times at most, and the notice
  -- of a dispute to an administrator three times. Neither has a Stellar public key for a recipient, and
  -- unless it rejects, the attempts in its new rows add up to the calls that it made.
  pub notify-Accounted :
      (profiles : Option VendorProfiles) (type : NotificationType) (escrow : EscrowRecord)
      (o : Outbox)
      → (let (r, o') = notify n contact_key w c profiles type escrow o in Accounted w 6 o r o')
        × (let (r, o') = notify_disputed_admin n contact_key w c escrow o in Accounted w 3 o r o')
  notify-Accounted profiles type escrow o = (told profiles type escrow o, admin_told escrow o)
