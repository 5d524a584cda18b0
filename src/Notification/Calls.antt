-- ===== src/Notification/Calls.antt =====
-- src/notifications/notifications.service.ts: how often the providers are called, with whom, and
-- what the rows say of it.
use trust_link_backend.Prelude.{
  ℕ, zero, suc, ◌+◌, ◌*◌, ◌^◌, ◌≤◌, String, none, List, [], ◌∷◌, Bool, true, false, not, ◌≡◌, refl,
  ap, ◌∙◌, inl, inr, arith, if◌then◌else◌, ltb, truthy, or_else, ◌&&◌, Bool-cases,
}
use Prim.Native.String.{◌++◌}
use trust_link_backend.Exec.{Exec, Outcome, ok, err, pure, ◌>>◌, continue}
use trust_link_backend.Escrow.{EscrowRecord}
use trust_link_backend.Notification.Dispatch.{
  NotificationType, Channel, email, sms, Row, Message, mail, text_message, Reply, accepted, refused,
  Outbox, Outside, Settings, Delivery, is_retryable_provider_error, extract_response_code,
  max_attempts, name, template_id_for, row_of, undelivered, attempts_left, create_notification,
  record_undeliverable, attempt_and_record, dispatch_email, dispatch_sms,
}

abbrev pub recipient : Message → String
recipient (mail to _ _ _ _) = to
recipient (text_message to _ _) = to

abbrev pub calls_made : List Message → ℕ
calls_made [] = 0
calls_made (_ ∷ ms) = suc (calls_made ms)

-- The attempts that the rows report.
abbrev pub attempts_reported : List Row → ℕ
attempts_reported [] = 0
attempts_reported (r ∷ rs) = r.attempt_count + attempts_reported rs

-- No call has a Stellar public key for its recipient.
abbrev pub IsDeliverable : Outside → List Message → Type 0
IsDeliverable w [] = Unit
IsDeliverable w (m ∷ ms) = (w.is_public_key (recipient m) ≡ false) × IsDeliverable w ms

-- At most `k` more calls are made, none to a Stellar key, and unless it rejects, the new rows report
-- as many attempts as there are new calls.
pub record Accounted (w : Outside) (k : ℕ) (o : Outbox) (r : Outcome (Unit {0})) (o' : Outbox)
    : Type 0 where
  pub deliverable : IsDeliverable w o.calls → IsDeliverable w o'.calls
  pub bounded : calls_made o'.calls ≤ calls_made o.calls + k
  pub reported :
      r ≡ ok tt
      → calls_made o'.calls + attempts_reported o.rows
        ≡ calls_made o.calls + attempts_reported o'.rows

abbrev pub IsAccounted : Outside → ℕ → Exec Outbox (Unit {0}) → Type 0
IsAccounted w k m = (o : Outbox) → let (r, o') = m o in Accounted w k o r o'

module _ (w : Outside) where
  pub pure-IsAccounted : (k : ℕ) → IsAccounted w k (pure tt)
  pure-IsAccounted k o = record {
    deliverable = λ h. h;
    bounded = omega arith;
    reported = λ _. refl;
  }

  pub weaken :
      (j k : ℕ) (m : Exec Outbox (Unit {0})) → j ≤ k → IsAccounted w j m → IsAccounted w k m
  weaken j k m le h o =
      let a = h o in
      record {
        deliverable = a.deliverable;
        bounded = omega (arith, a.bounded, le);
        reported = a.reported;
      }

  pub then-IsAccounted :
      (j k : ℕ) (m m' : Exec Outbox (Unit {0}))
      → IsAccounted w j m
      → IsAccounted w k m'
      → IsAccounted w (j + k) (m >> m')
  then-IsAccounted j k m m' h h' o = go (m o) (h o)
    where
      go :
          (x : Outcome (Unit {0}) × Outbox)
          → Accounted w j o x.0 x.1
          → let (r, o') = continue (λ _. m') x in Accounted w (j + k) o r o'
      go (ok tt, o1) a =
          let a' = h' o1 in
          record {
            deliverable = λ d. a'.deliverable (a.deliverable d);
            bounded = omega (arith, a.bounded, a'.bounded);
            reported = λ e. omega (arith, a.reported refl, a'.reported e);
          }
      go (err f, o1) a = record {
        deliverable = a.deliverable;
        bounded = omega (arith, a.bounded);
        reported = λ e. absurd (cc);
      }

  pub branch :
      (b : Bool) (k : ℕ) (m m' : Exec Outbox (Unit {0}))
      → (b ≡ true → IsAccounted w k m)
      → (b ≡ false → IsAccounted w k m')
      → IsAccounted w k (if b then m else m')
  branch true k m m' h h' = h refl
  branch false k m m' h h' = h' refl

  -- A run of the loop: each attempt is one call, and no row is written.
  record Tried (n : ℕ) (m : Message) (d : Delivery) (o : Outbox) (d' : Delivery) (o' : Outbox)
      : Type 0 where
    counted : calls_made o'.calls + d.attempt_count ≡ calls_made o.calls + d'.attempt_count
    few : d'.attempt_count ≤ d.attempt_count + n
    kept : o'.rows ≡ o.rows
    to_recipient :
        w.is_public_key (recipient m) ≡ false → IsDeliverable w o.calls → IsDeliverable w o'.calls

  Tries : ℕ → Message → Delivery → Outbox → Delivery × Outbox → Type 0
  Tries n m d o (d', o') = Tried n m d o d' o'

  TriesAlways : ℕ → Type 0
  TriesAlways n =
      (channel : Channel) (m : Message) (d : Delivery) (o : Outbox)
      → Tries n m d o (attempts_left w n channel m d o)

  attempted :
      (n : ℕ) (m : Message) (d d' : Delivery) (o o' : Outbox)
      → o'.calls ≡ m ∷ o.calls
      → o'.rows ≡ o.rows
      → d'.attempt_count ≡ suc d.attempt_count
      → Tried (suc n) m d o d' o'
  attempted n m d d' o o' calls rows count = record {
    counted = ground (arith, ap calls_made calls, count);
    few = omega (arith, count);
    kept = rows;
    to_recipient = λ h hs. rw calls (h, hs);
  }

  -- An attempt, and what is tried after it.
  again-Tried :
      (n : ℕ) (m : Message) (d d1 d2 : Delivery) (o o1 o2 : Outbox)
      → o1.calls ≡ m ∷ o.calls
      → o1.rows ≡ o.rows
      → d1.attempt_count ≡ suc d.attempt_count
      → Tried n m d1 o1 d2 o2
      → Tried (suc n) m d o d2 o2
  again-Tried n m d d1 d2 o o1 o2 calls rows count b =
      let a = attempted n m d d1 o o1 calls rows count in
      record {
        counted = omega (arith, a.counted, b.counted);
        few = omega (arith, b.few, count);
        kept = b.kept ∙ a.kept;
        to_recipient = λ h hs. b.to_recipient h (a.to_recipient h hs);
      }

  attempts_left-suc : (n : ℕ) → TriesAlways n → TriesAlways (suc n)
  unfolding attempts_left Tries TriesAlways
  attempts_left-suc n rest channel m d o = go (w.reply o.calls m) refl channel
    where
      d1 : Delivery
      d1 = record d { attempt_count = suc d.attempt_count }

      o1 : Outbox
      o1 = record o { calls = m ∷ o.calls }

      again :
          (d2 : Delivery) (o2 : Outbox) (ch : Channel)
          → o2.calls ≡ m ∷ o.calls
          → o2.rows ≡ o.rows
          → d2.attempt_count ≡ suc d.attempt_count
          → Tries (suc n) m d o (attempts_left w n ch m d2 o2)
      again d2 o2 ch calls rows count =
          let (d3, o3) = attempts_left w n ch m d2 o2 in
          again-Tried n m d d2 d3 o o2 o3 calls rows count (rest ch m d2 o2)

      go :
          (r : Reply)
          → w.reply o.calls m ≡ r
          → (ch : Channel) → Tries (suc n) m d o (attempts_left w (suc n) ch m d o)
      go (accepted id code) e email =
          rw (attempts_left, e)
            (attempted n m d (record d1 { provider_message_id = id; last_response_code = code }) o
              o1 refl refl refl)
      go (accepted id code) e sms =
          rw (attempts_left, e)
            (attempted n m d (record d1 { provider_message_id = id }) o o1 refl refl refl)
      go (refused f) e ch =
          let code = extract_response_code f in
          let d2 = record d1 { last_response_code = code } in
          elim (Bool-cases (is_retryable_provider_error code)) [
            | inr q ↦ rw (attempts_left, e, q) (attempted n m d d2 o o1 refl refl refl)
            | inl q ↦ elim (Bool-cases (ltb (suc d.attempt_count) max_attempts)) [
              | inl z ↦
                  rw (attempts_left, e, q, z)
                    (again d2 (record o1 { delays = 1000 * 2 ^ d.attempt_count ∷ o1.delays }) ch
                      refl refl refl)
              | inr z ↦ rw (attempts_left, e, q, z) (again d2 o1 ch refl refl refl)
            ]
          ]

  attempts_left-Tries : (n : ℕ) → TriesAlways n
  unfolding attempts_left Tries TriesAlways
  attempts_left-Tries zero channel m d o = record {
    counted = refl;
    few = omega arith;
    kept = refl;
    to_recipient = λ _ h. h;
  }
  attempts_left-Tries (suc n) channel m d o =
      attempts_left-suc n (attempts_left-Tries n) channel m d o

  -- The row, which reports `k` attempts of `j` at most.
  create_notification-reports :
      (j k : ℕ) (row : Row) (o o1 : Outbox)
      → k ≤ j
      → row.attempt_count ≡ k
      → o1.rows ≡ o.rows
      → calls_made o1.calls ≡ calls_made o.calls + k
      → (IsDeliverable w o.calls → IsDeliverable w o1.calls)
      → let (r, o') = create_notification w row o1 in Accounted w j o r o'
  unfolding create_notification
  create_notification-reports j k row o o1 few count rows calls keeps =
      elim (Bool-cases (w.takes o1.rows row)) [
        | inl e ↦
            rw (create_notification, e)
              (record {
                deliverable = keeps;
                bounded = omega (arith, calls, few);
                reported = λ _. ground (arith, ap attempts_reported rows, calls, count);
              })
        | inr e ↦
            rw (create_notification, e)
              (record {
                deliverable = keeps;
                bounded = omega (arith, calls, few);
                reported = λ z. absurd (cc);
              })
      ]

  pub record_undeliverable-IsAccounted :
      (type : NotificationType) (escrow : EscrowRecord) (channel : Channel) (address : String)
      → IsAccounted w 0 (record_undeliverable w type escrow channel address)
  unfolding record_undeliverable row_of
  record_undeliverable-IsAccounted type escrow channel address o =
      create_notification-reports 0 0 (row_of w type escrow channel address undelivered) o o
        (omega arith) refl refl (omega arith) (λ h. h)

  attempt_and_record-IsAccounted :
      (type : NotificationType) (escrow : EscrowRecord) (channel : Channel) (address : String)
      (m : Message)
      → w.is_public_key (recipient m) ≡ false
      → IsAccounted w 3 (attempt_and_record w type escrow channel address m)
  unfolding attempt_and_record row_of Tries TriesAlways
  attempt_and_record-IsAccounted type escrow channel address m h o =
      let (d, o1) = attempts_left w max_attempts channel m undelivered o in
      let t = attempts_left-Tries max_attempts channel m undelivered o in
      create_notification-reports 3 d.attempt_count (row_of w type escrow channel address d) o o1
        (omega (arith, t.few)) refl t.kept (omega (arith, t.counted)) (t.to_recipient h)

  module _ (c : Settings) (type : NotificationType) (escrow : EscrowRecord) (address : String) where
    pub dispatch_email-IsAccounted : IsAccounted w 3 (dispatch_email w c type escrow address)
    unfolding dispatch_email
    dispatch_email-IsAccounted =
        let template_id = or_else (template_id_for c type) "" in
        let m = mail address c.from_email template_id escrow.id escrow.item_name in
        let undeliverable =
          weaken 0 3 _ (omega arith) (record_undeliverable-IsAccounted type escrow email address) in
        branch (w.is_public_key address) 3 _ _ (λ _. undeliverable)
          (λ e.
            branch (not c.unconfigured && not (truthy c.from_email)) 3 _ _ (λ _. undeliverable)
              (λ _.
                branch (not c.unconfigured && not (truthy (template_id_for c type))) 3 _ _
                  (λ _. undeliverable)
                  (λ _. attempt_and_record-IsAccounted type escrow email address m e)))

    pub dispatch_sms-IsAccounted : IsAccounted w 3 (dispatch_sms w c type escrow address)
    unfolding dispatch_sms
    dispatch_sms-IsAccounted =
        let from = if truthy c.from_number then c.from_number else none in
        let m = text_message address (name type ++ ": " ++ escrow.item_name) from in
        branch (w.is_public_key address) 3 _ _
          (λ _.
            weaken 0 3 _ (omega arith) (record_undeliverable-IsAccounted type escrow sms address))
          (λ e. attempt_and_record-IsAccounted type escrow sms address m e)
