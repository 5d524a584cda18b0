-- ===== src/Tests/Outboxes.antt =====
-- A provider that is busy twice, a vendor's escrows, and a request's body.
use trust_link_backend.Prelude.{none, some, List, [], ◌∷◌, true, false, ◌≡◌, refl, ◌==◌}
use trust_link_backend.Escrow.{EscrowRecord, funded, released}
use trust_link_backend.Sanitization.{Json, str, obj, field, end}
use trust_link_backend.Notification.Dispatch.{
  Message, Row, Reply, accepted, refused, Outbox, Outside, delivered,
}
use trust_link_backend.Notification.Dispatch
use trust_link_backend.Notification.Notify.{notify, notify_disputed_admin}
use trust_link_backend.Notification.Calls.{Accounted}
use trust_link_backend.Notification.Bounds.{notify-Accounted}
use trust_link_backend.Analytics.{Group, get_transaction_stats}
use trust_link_backend.Analytics.Groups.{measure, IsGroupBy}
use trust_link_backend.Analytics.Sums.{tally_of, get_transaction_stats-tally}
use trust_link_backend.Tests.{sample}
use trust_link_backend.Tests.Vault.{node}

abbrev reply_to : List Message → Message → Reply
reply_to (_ ∷ _ ∷ _) m = accepted (some "m1") (some 202)
reply_to _ m =
    refused (record {
      code = some 503;
      status = none;
      response_status_code = none;
      response_status = none;
    })

abbrev outside : Outside
outside = record { reply = reply_to; takes = λ _ _. true; is_public_key = λ s. s == "GBUYER" }

abbrev settings : Dispatch.Settings
settings = record {
  from_email = some "escrow@example.com";
  template = λ _. some " t1 ";
  from_number = none;
  admin_email = some "admin@example.com";
  unconfigured = false;
}

abbrev empty_outbox : Outbox
empty_outbox = record { calls = []; rows = []; delays = [] }

abbrev parcel : EscrowRecord
parcel = record (sample "e1" funded) { buyer_contact_email = some "1a:0f:c0ffee" }

notify-Accounted_example :
    (let (r, o') = notify node (some "aa") outside settings none delivered parcel empty_outbox in
      Accounted outside 6 empty_outbox r o')
    × (let (r, o') = notify_disputed_admin node (some "aa") outside settings parcel empty_outbox in
        Accounted outside 3 empty_outbox r o')
notify-Accounted_example =
    notify-Accounted node (some "aa") outside settings none delivered parcel empty_outbox

abbrev sales : List EscrowRecord
sales = sample "e1" funded ∷ sample "e2" released ∷ sample "e3" funded ∷ []

abbrev groups : List Group
groups =
    record { state = funded; count = 2; sum = some 10000000000 }
    ∷ record { state = released; count = 1; sum = some 5000000000 }
    ∷ []

grouped_sales : IsGroupBy "GVENDOR" sales groups
unfolding measure
grouped_sales = record {
  distinct = (refl, (refl, tt));
  exact = (refl, refl, (refl, refl, tt));
  covering = ((λ _. refl), ((λ _. refl), ((λ _. refl), tt)));
}

get_transaction_stats-tally_example :
    (get_transaction_stats groups none).tally ≡ tally_of "GVENDOR" sales
get_transaction_stats-tally_example =
    get_transaction_stats-tally "GVENDOR" sales groups none grouped_sales

abbrev body : Json
body = obj (field "reason" (str "<b>late</b>") end)
