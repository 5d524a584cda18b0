-- ===== src/Webhook/Once.antt =====
-- src/webhooks/stellar-webhook.service.ts: each operation is handled once, and a failure is undone.
use trust_link_backend.Prelude.{
  String, Option, none, some, Bool, true, false, ◌≡◌, refl, sym, ap, ◌∙◌, ◌⊎◌, inl, inr, ◌==◌,
  eq_refl, arith, Option-cases, Bool-cases, truthy, or_else,
}
use trust_link_backend.Exec.{Outcome, ok, err, rejected, internal, unauthorized, pure, continue}
use trust_link_backend.Database.{IsTable}
use trust_link_backend.Backend.{Backend}
use trust_link_backend.Webhook.{
  Event, Processed, Inbox, Horizon, Received, received, duplicate, is_processed, mark_processed,
  unmark_processed, on_world, roll_back, guarded, unless_duplicate, process_operation,
  check_signature, handle_event,
}

module _ {R D C P : Type 0} (b : Backend R D C) (h : Horizon P) (lawful : IsTable h.processed_table)
    (key : (r : Processed) → h.processed_table.key r ≡ r.operation_id) where
  open h use {processed_table as PT}

  pub seen-duplicate :
      (e : Event) (i : Inbox R D C P) (r : Processed)
      → PT.row e.id i.processed ≡ some r
      → (process_operation b h e i ≡ (ok duplicate, i))
        ⊎ (process_operation b h e i ≡ (err rejected, i))
  unfolding process_operation is_processed unless_duplicate
  seen-duplicate e i r at = elim (Option-cases (PT.find_unique e.id i.processed)) [
    | inl q ↦ inr (ground arith)
    | inr (o, q) ↦
        let there = lawful.row-find_unique e.id i.processed o q in inl (ground (arith, at, there))
  ]

  marked :
      (e : Event) (i : Inbox R D C P) (t : P)
      → PT.create (record { operation_id = e.id }) i.processed ≡ some t
      → PT.row e.id t ≡ some (record { operation_id = e.id })
  marked e i t q =
      lawful.row-create (record { operation_id = e.id }) i.processed t e.id q
      ∙ ground (arith, key (record { operation_id = e.id }), eq_refl e.id)

  guarded-ok :
      (e : Event) (i i' : Inbox R D C P)
      → guarded b h e i ≡ (ok tt, i')
      → i'.processed ≡ i.processed
  unfolding guarded on_world roll_back unmark_processed
  guarded-ok e i i' q = ground (arith, q)

  after_guarded :
      (x : Outcome (Unit {0}) × Inbox R D C P) (i' : Inbox R D C P)
      → continue (λ _. pure received) x ≡ (ok received, i')
      → x ≡ (ok tt, i')
  after_guarded (ok tt, i) i' q = ap (λ y. (ok tt, y.1)) q
  after_guarded (err f, i) i' q = absurd (cc q)

  first_time :
      (e : Event) (i i' : Inbox R D C P) (t : P)
      → PT.create (record { operation_id = e.id }) i.processed ≡ some t
      → unless_duplicate b h e false i ≡ (ok received, i')
      → PT.row e.id i'.processed ≡ some (record { operation_id = e.id })
  unfolding unless_duplicate mark_processed
  first_time e i i' t p q =
      let run : unless_duplicate b h e false i
          ≡ continue (λ _. pure received) (guarded b h e (record i { processed = t })) =
        ground (arith, p) in
      let done = after_guarded (guarded b h e (record i { processed = t })) i' (sym run ∙ q) in
      ap (PT.row e.id) (guarded-ok e (record i { processed = t }) i' done) ∙ marked e i t p

  pub received-marked :
      (e : Event) (i i' : Inbox R D C P)
      → process_operation b h e i ≡ (ok received, i')
      → PT.row e.id i'.processed ≡ some (record { operation_id = e.id })
  unfolding process_operation is_processed unless_duplicate mark_processed
  received-marked e i i' q = elim (Option-cases (PT.find_unique e.id i.processed)) [
    | inl z ↦ absurd (ground (arith, q))
    | inr (some r, z) ↦ absurd (ground (arith, q))
    | inr (none, z) ↦
        let run : process_operation b h e i ≡ unless_duplicate b h e false i = ground (arith, z) in
        elim (Option-cases (PT.create (record { operation_id = e.id }) i.processed)) [
          | inl p ↦ absurd (ground (arith, q, run))
          | inr (t, p) ↦ first_time e i i' t p (sym run ∙ q)
        ]
  ]

  -- An operation that was processed is a duplicate when Horizon sends it again, whatever else the
  -- second report says: nothing is funded, notified or written, though its first query may be
  -- rejected.
  pub process_twice :
      (e e' : Event) (i i' : Inbox R D C P)
      → e'.id ≡ e.id
      → process_operation b h e i ≡ (ok received, i')
      → (process_operation b h e' i' ≡ (ok duplicate, i'))
        ⊎ (process_operation b h e' i' ≡ (err rejected, i'))
  process_twice e e' i i' same q =
      seen-duplicate e' i' (record { operation_id = e.id })
        (ap (λ k. PT.row k i'.processed) same ∙ received-marked e i i' q)

  abbrev digest_fits : String → Option String → String → Bool
  digest_fits body signature secret = h.same_digest (or_else signature "") (h.hmac secret body)

  -- How a delivery is answered: 500 where no secret is configured, or an empty one; 401 where the
  -- signature is missing or is not the body's under the secret; and otherwise as its operation is.
  abbrev pub Authentic :
      String → Option String → Event → Inbox R D C P → Outcome Received × Inbox R D C P → Type 0
  Authentic body signature e i x =
      (truthy h.secret ≡ false) × (x ≡ (err internal, i))
      ⊎ ((secret : String) × (h.secret ≡ some secret)
          × ((secret == "") ≡ false)
          × ((truthy signature ≡ false) × (x ≡ (err unauthorized, i))
              ⊎ (truthy signature ≡ true)
                × (digest_fits body signature secret ≡ false)
                × (x ≡ (err unauthorized, i))
              ⊎ (truthy signature ≡ true)
                × (digest_fits body signature secret ≡ true)
                × (x ≡ process_operation b h e i)))

  -- A delivery is handled exactly if a secret is configured that is not empty and the delivery has the
  -- body's signature under it. Without such a secret it is answered with 500; with one, but without a
  -- signature or with another signature, with 401; and then it changes nothing.
  pub handle_event-Authentic :
      (body : String) (signature : Option String) (e : Event) (i : Inbox R D C P)
      → Authentic body signature e i (handle_event b h body signature e i)
  unfolding handle_event check_signature
  handle_event-Authentic body signature e i = elim (Option-cases h.secret) [
    | inl q ↦ inl (rw q refl, ground (arith, q))
    | inr (secret, q) ↦ elim (Bool-cases (secret == "")) [
      | inl y ↦ inl (rw (q, y) refl, ground (arith, q, y))
      | inr n ↦ inr (
        secret,
        q,
        n,
        elim (Bool-cases (truthy signature)) [
          | inr m ↦ inl (m, rw (q, n, m) refl)
          | inl m ↦ elim (Bool-cases (digest_fits body signature secret)) [
            | inr d ↦ inr (inl (m, d, rw (q, n, m, d) refl))
            | inl d ↦ inr (inr (m, d, rw (q, n, m, d) refl))
          ]
        ],
      )
    ]
  ]
