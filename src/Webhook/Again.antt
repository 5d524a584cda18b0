-- ===== src/Webhook/Again.antt =====
-- src/stellar/event-replay.service.ts: a page of operations that comes again changes nothing.
use trust_link_backend.Prelude.{
  String, Option, none, some, List, [], ◌∷◌, false, ◌≡◌, refl, sym, ap, ◌∙◌, inl, inr, ◌==◌, eq_iff,
  arith, Option-cases, Bool-cases,
}
use trust_link_backend.Prelude.{All}
use trust_link_backend.Exec.{Outcome, ok, err, rejected, continue, pure, catch_with}
use trust_link_backend.Database.{TextTable, IsTable}
use trust_link_backend.Backend.{Backend}
use trust_link_backend.Webhook.{
  Event, Processed, Inbox, Horizon, Received, received, duplicate, is_processed, mark_processed,
  unmark_processed, process_event, on_world, roll_back, guarded, unless_duplicate,
  process_operation,
}
use trust_link_backend.Webhook.Once.{seen-duplicate, received-marked}
use trust_link_backend.Webhook.Replay.{
  Operation, replay_key, last_token, event_of, Replayer, process_records, replay_cursor,
  save_cursor, replay,
}

module _ {R D C P : Type 0} (b : Backend R D C) (h : Horizon P) (lawful : IsTable h.processed_table)
    (key : (r : Processed) → h.processed_table.key r ≡ r.operation_id) where
  open h use {processed_table as PT}

  -- The operation has its row.
  abbrev pub Seen : String → Inbox R D C P → Type 0
  Seen id i = (r : Processed) × (PT.row id i.processed ≡ some r)

  -- The roll back deletes no other operation's row.
  caught-Seen :
      (id : String) (e : Event) (x : Outcome (Unit {0}) × Inbox R D C P)
      → (e.id == id) ≡ false
      → Seen id x.1
      → Seen id (catch_with (roll_back b h e) x).1
  unfolding roll_back unmark_processed
  caught-Seen id e (ok tt, i) n s = s
  caught-Seen id e (err f, i) n (r, at) = elim (Option-cases (PT.delete e.id i.processed)) [
    | inl q ↦
        let end : roll_back b h e f i ≡ (err rejected, i) = ground (arith, q) in
        (r, ap (λ x. PT.row id x.1.processed) end ∙ at)
    | inr (t, q) ↦
        let end : roll_back b h e f i ≡ (err f, record i { processed = t }) = ground (arith, q) in
        let kept = lawful.row-delete e.id i.processed t id q in
        (r, ap (λ x. PT.row id x.1.processed) end ∙ kept ∙ ground (arith, n, at))
  ]

  guarded-Seen :
      (id : String) (e : Event) (i : Inbox R D C P)
      → (e.id == id) ≡ false
      → Seen id i
      → Seen id (guarded b h e i).1
  unfolding guarded on_world
  guarded-Seen id e i n s = caught-Seen id e (on_world b h (process_event b h e) i) n s

  kept_by_pure :
      (x : Outcome (Unit {0}) × Inbox R D C P) → (continue (λ _. pure received) x).1 ≡ x.1
  kept_by_pure (ok tt, i) = refl
  kept_by_pure (err f, i) = refl

  -- The first report of another operation keeps the row.
  first_report-Seen :
      (id : String) (e : Event) (i : Inbox R D C P)
      → (e.id == id) ≡ false
      → Seen id i
      → Seen id (unless_duplicate b h e false i).1
  unfolding unless_duplicate mark_processed
  first_report-Seen id e i n (r, at) =
      let new : Processed = record { operation_id = e.id } in
      elim (Option-cases (PT.create new i.processed)) [
        | inl q ↦ rw (unless_duplicate, mark_processed, q) (r, at)
        | inr (t, q) ↦
            let there : Seen id (record i { processed = t }) =
              (r, lawful.row-create new i.processed t id q ∙ ground (arith, key new, n, at)) in
            rw
              (
                unless_duplicate,
                mark_processed,
                q,
                kept_by_pure (guarded b h e (record i { processed = t })),
              )
              (guarded-Seen id e (record i { processed = t }) n there)
      ]

  process_operation-Seen :
      (id : String) (e : Event) (i : Inbox R D C P)
      → Seen id i
      → Seen id (process_operation b h e i).1
  unfolding process_operation is_processed unless_duplicate
  process_operation-Seen id e i (r, at) = elim (Option-cases (PT.find_unique e.id i.processed)) [
    | inl q ↦ rw (process_operation, is_processed, q) (r, at)
    | inr (some o, q) ↦ rw (process_operation, is_processed, q) (r, at)
    | inr (none, q) ↦ elim (Bool-cases (e.id == id)) [
      | inl same ↦ absurd (
          ground
            (arith, lawful.row-find_unique e.id i.processed none q, (eq_iff e.id id).0 same, at))
      | inr n ↦ rw (process_operation, is_processed, q) (first_report-Seen id e i n (r, at))
    ]
  ]

  process_records-Seen :
      (id : String) (rs : List Operation) (i : Inbox R D C P)
      → Seen id i
      → Seen id (process_records b h rs i)
  unfolding process_records
  process_records-Seen id [] i s = s
  process_records-Seen id (r ∷ rs) i s =
      process_records-Seen id rs (process_operation b h (event_of r) i).1
        (process_operation-Seen id (event_of r) i s)

  -- Every operation of a page was answered without an error.
  abbrev pub AllReceived : List Operation → Inbox R D C P → Type 0
  AllReceived [] i = Unit
  AllReceived (r ∷ rs) i =
      let (x, i') = process_operation b h (event_of r) i in
      ((a : Received) × (x ≡ ok a)) × AllReceived rs i'

  not_duplicate :
      (x : Outcome (Unit {0}) × Inbox R D C P) (i' : Inbox R D C P)
      → ¬ (continue (λ _. pure received) x ≡ (ok duplicate, i'))
  not_duplicate (ok tt, i) i' q = cc
  not_duplicate (err f, i) i' q = cc

  first_report-ne-duplicate :
      (e : Event) (i i' : Inbox R D C P) → ¬ (unless_duplicate b h e false i ≡ (ok duplicate, i'))
  unfolding unless_duplicate mark_processed
  first_report-ne-duplicate e i i' q =
      let new : Processed = record { operation_id = e.id } in
      elim (Option-cases (PT.create new i.processed)) [
        | inl z ↦ absurd (ground (arith, q, z))
        | inr (t, z) ↦
            let run : unless_duplicate b h e false i
                ≡ continue (λ _. pure received) (guarded b h e (record i { processed = t })) =
              ground (arith, z) in
            not_duplicate (guarded b h e (record i { processed = t })) i' (sym run ∙ q)
      ]

  answered-Seen :
      (e : Event) (i i' : Inbox R D C P) (a : Received)
      → process_operation b h e i ≡ (ok a, i')
      → Seen e.id i'
  unfolding process_operation is_processed unless_duplicate
  answered-Seen e i i' received q =
      (record { operation_id = e.id }, received-marked b h lawful key e i i' q)
  answered-Seen e i i' duplicate q = elim (Option-cases (PT.find_unique e.id i.processed)) [
    | inl z ↦ absurd (ground (arith, q, z))
    | inr (some r, z) ↦
        let run : process_operation b h e i ≡ (ok duplicate, i) = ground (arith, z) in
        (
          r,
          ap (λ x. PT.row e.id x.1.processed) (sym q ∙ run)
              ∙ lawful.row-find_unique e.id i.processed (some r) z,
        )
    | inr (none, z) ↦
        let run : process_operation b h e i ≡ unless_duplicate b h e false i = ground (arith, z) in
        absurd (first_report-ne-duplicate e i i' (sym run ∙ q))
  ]

  page-Seen :
      (rs : List Operation) (i : Inbox R D C P)
      → AllReceived rs i
      → All (λ r. Seen (event_of r).id (process_records b h rs i)) rs
  unfolding process_records
  page-Seen [] i a = tt
  page-Seen (r ∷ rs) i ((a, q), rest) =
      let (x, i') = process_operation b h (event_of r) i in
      (
        process_records-Seen (event_of r).id rs i'
            (answered-Seen (event_of r) i i' a (ap (λ y. (y, i')) q)),
        page-Seen rs i' rest,
      )

  process_records-same :
      (rs : List Operation) (i : Inbox R D C P)
      → All (λ r. Seen (event_of r).id i) rs
      → process_records b h rs i ≡ i
  unfolding process_records
  process_records-same [] i a = refl
  process_records-same (r ∷ rs) i ((row, at), rest) =
      let same : (process_operation b h (event_of r) i).1 ≡ i =
        elim (seen-duplicate b h lawful key (event_of r) i row at) [
          | inl q ↦ ap (λ x. x.1) q
          | inr q ↦ ap (λ x. x.1) q
        ] in
      ap (process_records b h rs) same ∙ process_records-same rs i rest

  module _ {S : Type 0} (K : TextTable S) where
    save_cursor-inbox :
        (fetch : Option String → Outcome (List Operation)) (rs : List Operation)
        (p : Replayer R D C P S)
        → (save_cursor b h K fetch rs p).inbox ≡ p.inbox
    unfolding save_cursor
    save_cursor-inbox fetch [] p = refl
    save_cursor-inbox fetch (r ∷ rs) p =
        elim (Option-cases (K.upsert replay_key (last_token r rs) p.cursors)) [
          | inl q ↦ ground (arith, q)
          | inr (s, q) ↦ ground (arith, q)
        ]

    replay-inbox :
        (fetch : Option String → Outcome (List Operation)) (rs : List Operation)
        (p : Replayer R D C P S)
        → fetch (replay_cursor b h K fetch p) ≡ ok rs
        → (replay b h K fetch p).inbox ≡ process_records b h rs p.inbox
    unfolding replay
    replay-inbox fetch rs p e = rw (replay, e) (save_cursor-inbox fetch rs _)

    -- A page of operations that were all answered changes nothing when it comes again: nothing is
    -- funded, notified or written, and only the cursor is set. So a process that stops between the last
    -- operation and the cursor's write, or whose write is rejected, does no harm.
    pub replay_again :
        (fetch fetch' : Option String → Outcome (List Operation)) (p : Replayer R D C P S) (s : S)
        (rs : List Operation)
        → fetch (replay_cursor b h K fetch p) ≡ ok rs
        → AllReceived rs p.inbox
        → fetch' (replay_cursor b h K fetch' (record (replay b h K fetch p) { cursors = s }))
          ≡ ok rs
        → (replay b h K fetch' (record (replay b h K fetch p) { cursors = s })).inbox
          ≡ (replay b h K fetch p).inbox
    replay_again fetch fetch' p s rs e a e' =
        let first = replay-inbox fetch rs p e in
        replay-inbox fetch' rs (record (replay b h K fetch p) { cursors = s }) e'
        ∙ ap (process_records b h rs) first
        ∙ process_records-same rs (process_records b h rs p.inbox) (page-Seen rs p.inbox a)
        ∙ sym first
