-- ===== src/Vendor/Preferences.antt =====
-- src/vendor/vendor-profile.service.ts and vendor-profile.repository.ts: a vendor's notification
-- preferences, which are defaults until they are set.
use trust_link_backend.Prelude.{
  ℕ, String, Option, none, some, List, Bool, true, false, ◌||◌, if◌then◌else◌, is_some, or_else,
  ◌≡◌, refl, ap, sym, ◌∙◌, inl, inr, arith, Option-cases,
}
use trust_link_backend.Exec.{Exec, ok, err, rejected, bad_request, ◌>>=◌}
use trust_link_backend.Notification.Notify.{default_notification_channels}
use trust_link_backend.Vendor.{Store, IsStore, upserted, Profile, given, find_by_address, found}

-- `VendorTrackingSettings`, with the columns' defaults where a creation gives no value
pub record Preferences : Type 0 where
  pub notify_on_delivery : Bool
  pub notify_on_delay : Bool
  pub notify_on_exception : Bool
  pub notification_channels : List String
  pub webhook_url : Option String
  pub webhook_secret : Option String
  pub enable_tracking : Bool
  pub delay_threshold_hours : ℕ
  pub delivery_confirmation : Bool
  pub tracking_history_retention_days : ℕ

-- `UpdateNotificationPreferencesDto`
pub record UpdatePreferences : Type 0 where
  pub notify_on_delivery : Option Bool
  pub notify_on_delay : Option Bool
  pub notify_on_exception : Option Bool
  pub notification_channels : Option (List String)
  pub webhook_url : Option String
  pub webhook_secret : Option String

abbrev pub default_preferences : Preferences
default_preferences = record {
  notify_on_delivery = true;
  notify_on_delay = true;
  notify_on_exception = true;
  notification_channels = default_notification_channels;
  webhook_url = none;
  webhook_secret = none;
  enable_tracking = true;
  delay_threshold_hours = 24;
  delivery_confirmation = true;
  tracking_history_retention_days = 90;
}

abbrev pub change_preferences : UpdatePreferences → Preferences → Preferences
change_preferences dto p = record p {
  notify_on_delivery = or_else dto.notify_on_delivery p.notify_on_delivery;
  notify_on_delay = or_else dto.notify_on_delay p.notify_on_delay;
  notify_on_exception = or_else dto.notify_on_exception p.notify_on_exception;
  notification_channels = or_else dto.notification_channels p.notification_channels;
  webhook_url = given dto.webhook_url p.webhook_url;
  webhook_secret = given dto.webhook_secret p.webhook_secret;
}

abbrev pub is_empty_update : UpdatePreferences → Bool
is_empty_update dto =
    if is_some dto.notify_on_delivery
      || is_some dto.notify_on_delay
      || is_some dto.notify_on_exception
      || is_some dto.notification_channels
      || is_some dto.webhook_url
      || is_some dto.webhook_secret
    then false
    else true

module _ {Q : Type 0} (K : Store Preferences Q) where
  -- `findNotificationPreferences`
  unfoldable pub find_notification_preferences : String → Exec Q Preferences
  find_notification_preferences address q = elim (K.find_unique address q) [
    | none ↦ (err rejected, q)
    | some o ↦ (ok (or_else o default_preferences), q)
  ]

  -- The `upsert` of the repository: a row that is created has the defaults where nothing is given.
  unfoldable pub write_preferences : String → UpdatePreferences → Exec Q Preferences
  write_preferences address dto q =
      elim (K.upsert address (change_preferences dto default_preferences) (change_preferences dto)
        q) [ none ↦ (err rejected, q) | some (p, q') ↦ (ok p, q') ]

  module _ {S : Type 0} (T : Store Profile S) where
    -- `updateNotificationPreferences`
    unfoldable pub update_notification_preferences :
        String → UpdatePreferences → S → Exec Q Preferences
    unfolding write_preferences
    update_notification_preferences address dto s q =
        if is_empty_update dto
        then (err bad_request, q)
        else elim (((find_by_address T address >>= found T) s).0) [
          | err f ↦ (err f, q)
          | ok _ ↦ write_preferences address dto q
        ]

  -- A read that succeeds answers the row, or the defaults where there is none.
  found-row :
      (laws : IsStore K) (address : String) (q : Q) (p : Preferences)
      → find_notification_preferences address q ≡ (ok p, q)
      → p ≡ or_else (K.row address q) default_preferences
  unfolding find_notification_preferences
  found-row laws address q p h = elim (Option-cases (K.find_unique address q)) [
    | inl z ↦ absurd (ground (arith, z, h))
    | inr (o, z) ↦ ground (arith, z, h, laws.row-find_unique address q o z)
  ]

  upserted-change :
      (dto : UpdatePreferences) (o : Option Preferences)
      → upserted (change_preferences dto default_preferences) (change_preferences dto) o
        ≡ change_preferences dto (or_else o default_preferences)
  upserted-change dto none = refl
  upserted-change dto (some p) = refl

  -- What is read after a change is the change of what was read before.
  write_preferences-find :
      (laws : IsStore K) (address : String) (dto : UpdatePreferences) (q q' : Q)
      (p p' p1 : Preferences)
      → find_notification_preferences address q ≡ (ok p, q)
      → write_preferences address dto q ≡ (ok p', q')
      → find_notification_preferences address q' ≡ (ok p1, q')
      → p1 ≡ change_preferences dto p
  unfolding write_preferences
  write_preferences-find laws address dto q q' p p' p1 before change after =
      elim (Option-cases (
        K.upsert address (change_preferences dto default_preferences) (change_preferences dto) q)) [
          | inl z ↦ absurd (ground (arith, z, change))
          | inr ((r, q2), z) ↦
              let (made, now) =
                laws.row-upsert address (change_preferences dto default_preferences)
                  (change_preferences dto) q q2 r z in
              let ends : q' ≡ q2 = ground (arith, z, change) in
              found-row laws address q' p1 after
              ∙ ap (λ t. or_else (K.row address t) default_preferences) ends
              ∙ ap (λ o. or_else o default_preferences) now
              ∙ made
              ∙ upserted-change dto (K.row address q)
              ∙ ap (change_preferences dto) (sym (found-row laws address q p before))
        ]
