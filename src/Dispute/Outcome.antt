-- ===== src/Dispute/Outcome.antt =====
-- What a dispute that was opened or resolved did (src/escrow/buyer-dispute.service.ts,
-- src/admin/dispute/dispute.service.ts).
use trust_link_backend.Prelude.{
  ℕ, String, Option, none, some, ◌∷◌, true, ◌&&◌, ◌≡◌, refl, sym, ap, ◌∙◌, ◌==◌, arith, inl, inr,
  Option-cases, eq_refl,
}
use trust_link_backend.Exec.{Exec, ok, ◌>>=◌, ◌>>◌}
use trust_link_backend.Escrow.{
  EscrowRecord, DisputeRecord, EscrowState, completed, refunded, disputed, resolved, is_state,
  is_disputable,
}
use trust_link_backend.Escrow.Repository.{find_by_id, stamp}
use trust_link_backend.Escrow.Repository.Coherence.{IsCoherent, read_lem, write-cases}
use trust_link_backend.Escrow.Sync.{create_dispute, resolve_dispute}
use trust_link_backend.Backend.{
  Backend, IsBackend, World, Resolution, release, refund, resolve_on_chain,
}
use trust_link_backend.Backend.Effects.{notify, submit}
use trust_link_backend.Dispute.{
  OpenDispute, opened, create_opened, write_dispute, open_on, open_dispute, is_involved,
  require_admin, find_pending, is_pending, resolve_found, finish, resolve_mapped, resolve_on,
  resolve,
}

module _ {R D C : Type 0} (b : Backend R D C) (laws : IsBackend b) where
  open b use {escrow_table as T, dispute_table as Q}

  -- The escrow was disputable and the caller a party or the admin; the escrow is disputed now, and
  -- the dispute is stored under its id.
  pub record Opened (uuid id caller : String) (dto : OpenDispute) (w w' : World R D C)
      : Type 0 where
    pub escrow : EscrowRecord
    pub present : T.row id w.escrows ≡ some escrow
    pub involved : is_involved b.admin_address escrow caller ≡ true
    pub disputable : is_disputable escrow.state ≡ true
    pub marked :
        T.row id w'.escrows ≡ some (stamp w.now (λ r. record r { state = disputed }) escrow)
    pub stored : Q.row uuid w'.disputes ≡ some (opened uuid id dto w.now)

  abbrev Marked : String → String → OpenDispute → World R D C → World R D C → EscrowRecord → Type 0
  Marked uuid id dto w w' r =
      (T.row id w'.escrows ≡ some (stamp w.now (λ x. record x { state = disputed }) r))
      × (Q.row uuid w'.disputes ≡ some (opened uuid id dto w.now))

  write_dispute-Marked :
      (uuid id : String) (dto : OpenDispute) (w w' : World R D C) (d : DisputeRecord)
      (r : EscrowRecord)
      → T.row id w.escrows ≡ some r
      → write_dispute b uuid id dto w ≡ (ok d, w')
      → Marked uuid id dto w w' r
  unfolding write_dispute create_opened create_dispute notify
  write_dispute-Marked uuid id dto w w' d r at e =
      elim (Option-cases (Q.create (opened uuid id dto w.now) w.disputes)) [
        | inl q ↦ absurd (ground (arith, e))
        | inr (t, q) ↦
            elim (write-cases b laws id (λ x. record x { state = disputed })
              (record w { disputes = t })) [
                | inl z ↦ absurd (ground (arith, e, z))
                | inr (old, u, c, found, z, rows, held) ↦
                    let last : (w'.escrows ≡ u) × (w'.disputes ≡ t) =
                      (ground (arith, e, z), ground (arith, e, z)) in
                    let there =
                      laws.disputes_lawful.row-create (opened uuid id dto w.now) w.disputes t uuid
                        q in
                    (
                      ap (T.row id) last.0 ∙ rows id ∙ ground (arith, eq_refl id, sym at ∙ found),
                      ap (Q.row uuid) last.1
                          ∙ ground (
                            arith,
                            there,
                            laws.dispute_key (opened uuid id dto w.now),
                            eq_refl uuid,
                          ),
                    )
              ]
      ]

  -- A dispute is opened only by the buyer, the vendor or the admin, and only on a funded, shipped or
  -- delivered escrow; then the escrow is disputed, and the dispute is stored as requested.
  pub open_dispute-Opened :
      (uuid id caller : String) (dto : OpenDispute) (w w' : World R D C) (d : DisputeRecord)
      → IsCoherent b w.cached w.escrows
      → open_dispute b uuid id caller dto w ≡ (ok d, w')
      → Opened uuid id caller dto w w'
  unfolding open_dispute open_on
  open_dispute-Opened uuid id caller dto w w' d i e =
      let (c, _, read) = read_lem b laws id w i in
      elim read [
        | inl q ↦ absurd (ground (arith, e, q))
        | inr q ↦ elim (Option-cases (T.row id w.escrows)) [
          | inl m ↦ absurd (ground (arith, e, q, m))
          | inr (r, m) ↦
              let run : open_dispute b uuid id caller dto w
                  ≡ open_on b uuid id caller dto (some r) (record w { cached = c }) =
                ground (arith, q, m) in
              let done : open_on b uuid id caller dto (some r) (record w { cached = c })
                  ≡ (ok d, w') =
                sym run ∙ e in
              let (involved, disputable, wrote) =
                guarded uuid id caller dto (record w { cached = c }) w' d r done in
              let (marked, stored) =
                write_dispute-Marked uuid id dto (record w { cached = c }) w' d r m wrote in
              record {
                escrow = r;
                present = m;
                involved = involved;
                disputable = disputable;
                marked = marked;
                stored = stored;
              }
        ]
      ]
    where
      guarded :
          (uuid id caller : String) (dto : OpenDispute) (w w' : World R D C) (d : DisputeRecord)
          (r : EscrowRecord)
          → open_on b uuid id caller dto (some r) w ≡ (ok d, w')
          → (is_involved b.admin_address r caller ≡ true)
            × (is_disputable r.state ≡ true)
            × (write_dispute b uuid id dto w ≡ (ok d, w'))
      guarded uuid id caller dto w w' d r e =
          (ground (arith, e), ground (arith, e), ground (arith, e))

  -- The state that a resolution gives the escrow.
  abbrev pub settled : Resolution → EscrowState
  settled release = completed
  settled refund = refunded

  -- The escrow was disputed; the contract was called once, by the admin, with its contract id; and
  -- the escrow is completed for a release, refunded for a refund.
  pub record Resolved (id : String) (x : Resolution) (w w' : World R D C) : Type 0 where
    pub escrow : EscrowRecord
    pub number : ℕ
    pub resolver : String
    pub present : T.row id w.escrows ≡ some escrow
    pub was_disputed : is_state escrow.state disputed ≡ true
    pub mapped : escrow.contract_escrow_id ≡ some number
    pub known : b.admin_address ≡ some resolver
    pub submitted : w'.calls ≡ resolve_on_chain number x resolver ∷ w.calls
    pub marked :
        T.row id w'.escrows ≡ some (stamp w.now (λ r. record r { state = settled x }) escrow)

  abbrev Finished : String → Resolution → World R D C → World R D C → EscrowRecord → Type 0
  Finished id x w w' r =
      (T.row id w'.escrows ≡ some (stamp w.now (λ y. record y { state = settled x }) r))
      × (w'.calls ≡ w.calls)

  finish-Finished :
      (x : Resolution) (id : String) (w w' : World R D C) (y r : EscrowRecord)
      → T.row id w.escrows ≡ some r
      → finish b id x w ≡ (ok y, w')
      → Finished id x w w' r
  unfolding finish notify
  finish-Finished release id w w' y r at e =
      elim (write-cases b laws id (λ z. record z { state = completed }) w) [
        | inl z ↦ absurd (ground (arith, e, z))
        | inr (old, u, c, found, z, rows, held) ↦
            let last : (w'.escrows ≡ u) × (w'.calls ≡ w.calls) =
              (ground (arith, e, z), ground (arith, e, z)) in
            (ap (T.row id) last.0 ∙ rows id ∙ ground (arith, eq_refl id, sym at ∙ found), last.1)
      ]
  finish-Finished refund id w w' y r at e =
      elim (write-cases b laws id (λ z. record z { state = refunded }) w) [
        | inl z ↦ absurd (ground (arith, e, z))
        | inr (old, u, c, found, z, rows, held) ↦
            let last : (w'.escrows ≡ u) × (w'.calls ≡ w.calls) =
              (ground (arith, e, z), ground (arith, e, z)) in
            (ap (T.row id) last.0 ∙ rows id ∙ ground (arith, eq_refl id, sym at ∙ found), last.1)
      ]

  -- The disputes alone change on the way from the call to the end.
  abbrev close : String → Resolution → Exec (World R D C) EscrowRecord
  close id x = find_pending b id >>= λ o. resolve_found b o >> finish b id x

  resolution : ℕ → DisputeRecord → DisputeRecord
  resolution now d = record d { status = resolved; resolved_at = some now; updated_at = now }

  closed :
      (x : Resolution) (id : String) (w w' : World R D C) (y : EscrowRecord)
      → close id x w ≡ (ok y, w')
      → (t : D) × (finish b id x (record w { disputes = t }) ≡ (ok y, w'))
  unfolding find_pending resolve_found resolve_dispute resolution
  closed x id w w' y e =
      elim (Option-cases
        (Q.find_first (λ d. d.escrow_id == id && is_pending d.status) w.disputes)) [
          | inl q ↦ absurd (ground (arith, e))
          | inr (none, q) ↦ (w.disputes, ground (arith, e))
          | inr (some d, q) ↦ elim (Option-cases (Q.update d.id (resolution w.now) w.disputes)) [
            | inl p ↦ absurd (ground (arith, e))
            | inr ((_, t), p) ↦ (t, ground (arith, e))
          ]
        ]

  close-Finished :
      (x : Resolution) (id : String) (w w' : World R D C) (y r : EscrowRecord)
      → T.row id w.escrows ≡ some r
      → close id x w ≡ (ok y, w')
      → Finished id x w w' r
  close-Finished x id w w' y r at e =
      let (t, f) = closed x id w w' y e in
      finish-Finished x id (record w { disputes = t }) w' y r at f

  -- The call of the contract, and what follows it.
  abbrev Called : String → Resolution → ℕ → World R D C → World R D C → EscrowRecord → Type 0
  Called id x n w w' r =
      (a : String) × (b.admin_address ≡ some a)
      × (w'.calls ≡ resolve_on_chain n x a ∷ w.calls)
      × (T.row id w'.escrows ≡ some (stamp w.now (λ y. record y { state = settled x }) r))

  called :
      (n : ℕ) (x : Resolution) (id a : String) (w w' : World R D C) (y r : EscrowRecord)
      → b.admin_address ≡ some a
      → resolve_mapped b id x (some n) w ≡ (ok y, w')
      → (close id x (record w { calls = resolve_on_chain n x a ∷ w.calls }) ≡ (ok y, w'))
  unfolding resolve_mapped require_admin submit
  called n x id a w w' y r q e = ground (arith, e, q)

  resolve_mapped-Called :
      (n : ℕ) (x : Resolution) (id : String) (w w' : World R D C) (y r : EscrowRecord)
      → T.row id w.escrows ≡ some r
      → resolve_mapped b id x (some n) w ≡ (ok y, w')
      → Called id x n w w' r
  unfolding resolve_mapped require_admin
  resolve_mapped-Called n x id w w' y r at e = elim (Option-cases b.admin_address) [
    | inl q ↦ absurd (ground (arith, e, q))
    | inr (a, q) ↦
        let v = record w { calls = resolve_on_chain n x a ∷ w.calls } in
        let (marked, same) = close-Finished x id v w' y r at (called n x id a w w' y r q e) in
        (a, q, same, marked)
  ]

  resolve_guards :
      (id : String) (x : Resolution) (w w' : World R D C) (y r : EscrowRecord)
      → resolve_on b id x (some r) w ≡ (ok y, w')
      → (is_state r.state disputed ≡ true)
        × (resolve_mapped b id x r.contract_escrow_id w ≡ (ok y, w'))
  unfolding resolve_on
  resolve_guards id x w w' y r e = (ground (arith, e), ground (arith, e))

  mapped_on :
      (o : Option ℕ) (id : String) (x : Resolution) (w w' : World R D C) (y r : EscrowRecord)
      → T.row id w.escrows ≡ some r
      → resolve_mapped b id x o w ≡ (ok y, w')
      → (n : ℕ) × (o ≡ some n) × Called id x n w w' r
  unfolding resolve_mapped
  mapped_on none id x w w' y r at e = absurd (cc e)
  mapped_on (some n) id x w w' y r at e = (n, refl, resolve_mapped-Called n x id w w' y r at e)

  -- A dispute is resolved only on a disputed escrow that is mapped to a contract id, and with an
  -- admin configured; the contract is called exactly once, and the escrow is completed for a release
  -- and refunded for a refund.
  pub resolve-Resolved :
      (id : String) (x : Resolution) (w w' : World R D C) (y : EscrowRecord)
      → IsCoherent b w.cached w.escrows
      → resolve b id x w ≡ (ok y, w')
      → Resolved id x w w'
  unfolding resolve resolve_on
  resolve-Resolved id x w w' y i e =
      let (c, _, read) = read_lem b laws id w i in
      elim read [
        | inl q ↦ absurd (ground (arith, e, q))
        | inr q ↦ elim (Option-cases (T.row id w.escrows)) [
          | inl m ↦ absurd (missing (record w { cached = c }) (sym (run q m) ∙ e))
          | inr (r, m) ↦
              let (was, ran) =
                resolve_guards id x (record w { cached = c }) w' y r (sym (run q m) ∙ e) in
              let (n, mapped, called) =
                mapped_on r.contract_escrow_id id x (record w { cached = c }) w' y r m ran in
              let (a, known, submitted, marked) = called in
              record {
                escrow = r;
                number = n;
                resolver = a;
                present = m;
                was_disputed = was;
                mapped = mapped;
                known = known;
                submitted = submitted;
                marked = marked;
              }
        ]
      ]
    where
      missing : (v : World R D C) → resolve_on b id x none v ≡ (ok y, w') → ⊥
      missing v p = ground (arith, p)

      run :
          {c : C} {o : Option EscrowRecord}
          → find_by_id b id w ≡ (ok (T.row id w.escrows), record w { cached = c })
          → T.row id w.escrows ≡ o
          → resolve b id x w ≡ resolve_on b id x o (record w { cached = c })
      run q m = ground (arith, q, m)
