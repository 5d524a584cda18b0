-- ===== src/Escrow/Service/Outcome.antt =====
-- src/escrow/escrow.service.ts: what `cancelEscrow` and the creation of an escrow answer.
use trust_link_backend.Prelude.{
  ◌==◌, String, none, some, Bool, true, false, ◌≡◌, refl, sym, ap, ◌∙◌, ◌⊎◌, inl, inr, arith,
  Bool-cases, Option-cases, eq_refl,
}
use mathlib.Core.Option.{Option, some-injective}
use trust_link_backend.Exec.{
  Outcome, Failure, ok, err, rejected, internal, not_found, forbidden, conflict, unprocessable,
}
use trust_link_backend.Escrow.{EscrowRecord, funded, cancelled, is_state}
use trust_link_backend.Escrow.Repository.{
  CreateEscrow, stamp, write, find_by_id, or_fetch, remember,
}
use trust_link_backend.Escrow.Repository.Coherence.{IsCoherent, write-cases}
use trust_link_backend.Backend.{
  Cached, escrow_entry, idempotency_entry, tracking_entry, Backend, IsBackend, World,
}
use trust_link_backend.Escrow.Service.{
  create_idempotent, get_entry, replay_or_create, create_and_cache, idempotency_key, is_stranger,
  cancel_loaded, cancel_escrow, load, or_not_found, hide,
}
use trust_link_backend.Escrow.Service.Declined.{Declined, create_escrow-Declined}
use trust_link_backend.Escrow.Service.Progress.{load_lem}

module _ {R D C : Type 0} (b : Backend R D C) (laws : IsBackend b) where
  open b use {escrow_table as T}

  abbrev pub cancellation : World R D C → EscrowRecord → EscrowRecord
  cancellation w r = record r { state = cancelled; cancelled_at = some w.now }

  -- Nothing was written: the table, the disputes, the notices and the calls are as they were.
  abbrev pub Unchanged : World R D C → World R D C → Type 0
  Unchanged w w' =
      (w'.escrows ≡ w.escrows)
      × (w'.disputes ≡ w.disputes)
      × (w'.notices ≡ w.notices)
      × (w'.calls ≡ w.calls)

  -- The request failed in this way, and changed nothing.
  abbrev pub Fails : Failure → World R D C → Outcome EscrowRecord × World R D C → Type 0
  Fails f w (o, w') = (o ≡ err f) × Unchanged w w'

  -- The answer for an escrow that is there: a 403 for a stranger, a 409 unless it is funded, the
  -- error of the update if the table rejects that, and otherwise the cancelled row, which is then in
  -- the table.
  abbrev pub Decided :
      String
      → String
      → Bool
      → EscrowRecord
      → World R D C
      → Outcome EscrowRecord × World R D C
      → Type 0
  Decided id caller is_admin r w (o, w') =
      ((is_stranger r caller is_admin ≡ true) × Fails forbidden w (o, w'))
      ⊎ (is_stranger r caller is_admin ≡ false)
        × (is_state r.state funded ≡ false)
        × Fails conflict w (o, w')
      ⊎ (is_stranger r caller is_admin ≡ false)
        × (is_state r.state funded ≡ true)
        × (T.update id (stamp w.now (cancellation w)) w.escrows ≡ none)
        × Fails rejected w (o, w')
      ⊎ (is_stranger r caller is_admin ≡ false)
        × (is_state r.state funded ≡ true)
        × (o ≡ ok (stamp w.now (cancellation w) r))
        × (T.row id w'.escrows ≡ some (stamp w.now (cancellation w) r))

  -- A 500 where the table rejects the query for the row, a 404 where there is no row, and otherwise
  -- the answer for the row of the table.
  abbrev pub Answered :
      String → String → Bool → World R D C → Outcome EscrowRecord × World R D C → Type 0
  Answered id caller is_admin w x =
      (T.find_unique id w.escrows ≡ none) × Fails internal w x
      ⊎ (T.row id w.escrows ≡ none) × Fails not_found w x
      ⊎ ((r : EscrowRecord) × (T.row id w.escrows ≡ some r) × Decided id caller is_admin r w x)

  write-rejected :
      (id : String) (f : EscrowRecord → EscrowRecord) (w : World R D C)
      → write b id f w ≡ (err rejected, w)
      → T.update id (stamp w.now f) w.escrows ≡ none
  unfolding write
  write-rejected id f w h = elim (Option-cases (T.update id (stamp w.now f) w.escrows)) [
    | inl e ↦ e
    | inr (_, e) ↦ absurd (ground (arith, e, h))
  ]

  -- The service answers with a 500 only where the table rejected the query.
  load-internal :
      (id : String) (w w' : World R D C)
      → load b id w ≡ (err internal, w')
      → T.find_unique id w.escrows ≡ none
  unfolding load find_by_id or_fetch remember or_not_found hide
  load-internal id w w' h = elim (Option-cases (T.find_unique id w.escrows)) [
    | inl e ↦ e
    | inr (o, e) ↦ absurd (ground (arith, e, h))
  ]

  decided :
      (id caller : String) (is_admin : Bool) (r : EscrowRecord) (w : World R D C)
      → T.row id w.escrows ≡ some r
      → Decided id caller is_admin r w (cancel_loaded b id caller is_admin r w)
  unfolding cancel_loaded
  decided id caller is_admin r w at = elim (Bool-cases (is_stranger r caller is_admin)) [
    | inl s ↦ inl (s, rw s (refl, (refl, refl, refl, refl)))
    | inr s ↦ elim (Bool-cases (is_state r.state funded)) [
      | inr f ↦ inr (inl (s, f, rw (s, f) (refl, (refl, refl, refl, refl))))
      | inl f ↦ elim (write-cases b laws id (cancellation w) w) [
        | inl z ↦
            let none_updated = write-rejected id (cancellation w) w z in
            inr (inr (inl (s, f, none_updated, rw (s, f, z) (refl, (refl, refl, refl, refl)))))
        | inr (old, t, c, found, z, rows, held) ↦
            let same : stamp w.now (cancellation w) old ≡ stamp w.now (cancellation w) r =
              ap (stamp w.now (cancellation w)) (some-injective _ _ (sym found ∙ at)) in
            let here : T.row id t ≡ some (stamp w.now (cancellation w) old) =
              rows id ∙ ground (arith, eq_refl id) in
            inr (inr (inr (s, f, rw (s, f, z) (ap ok same), rw (s, f, z) (here ∙ ap some same))))
      ]
    ]
  ]

  -- `cancelEscrow` answers on every branch as the row of the table asks, though it reads the row
  -- through the cache: 404 without a row, 403 for a stranger, 409 unless the escrow is funded, and
  -- otherwise the cancelled escrow, which is then the row. Only where the table rejects the query is
  -- the answer 500, and only where it rejects the update is that error passed on. Where it fails, it
  -- changes no row, dispute, notice or call.
  pub cancel_escrow-Answered :
      (id caller : String) (is_admin : Bool) (w : World R D C)
      → IsCoherent b w.cached w.escrows
      → Answered id caller is_admin w (cancel_escrow b id caller is_admin w)
  unfolding cancel_escrow
  cancel_escrow-Answered id caller is_admin w i =
      let (c, i', loaded) = load_lem b laws id w i in
      elim loaded [
        | inl e ↦ inl (load-internal id w _ e, rw e (refl, (refl, refl, refl, refl)))
        | inr (inl (m, e)) ↦ inr (inl (m, rw e (refl, (refl, refl, refl, refl))))
        | inr (inr (r, m, e)) ↦
            let d = decided id caller is_admin r (record w { cached = c }) m in
            inr (inr (r, m, rw e d))
      ]

  -- What the cache holds under the key of the request: the hash of the body of an earlier request,
  -- and its answer.
  abbrev pub earlier_answer : Option Cached → Option (String × EscrowRecord)
  earlier_answer (some (idempotency_entry earlier x)) = some (earlier, x)
  earlier_answer (some (escrow_entry _)) = none
  earlier_answer (some (tracking_entry _)) = none
  earlier_answer none = none

  abbrev pub looked_up : String → String → World R D C → Option Cached × C
  looked_up key vendor w = b.cache.get w.now (idempotency_key vendor key) w.cached

  -- The answer of the request, by what the cache holds: the earlier answer if it was to the same
  -- body, 422 if it was to another, and without an earlier answer the request is declined.
  abbrev pub Repeated :
      String
      → String
      → CreateEscrow
      → String
      → World R D C
      → Option (String × EscrowRecord)
      → Outcome EscrowRecord
      → Type 0
  Repeated hashed key dto vendor w (some (earlier, x)) o =
      ((earlier == hashed) ≡ true) × (o ≡ ok x)
      ⊎ ((earlier == hashed) ≡ false) × (o ≡ err unprocessable)
  Repeated hashed key dto vendor w none o = Declined b laws dto vendor w o

  -- A vendor who has an escrow for an item gets no second one, whatever the idempotency key and the
  -- cache say. Where the cache has an answer under the key, that is the answer again if it was to the
  -- same body, and 422 if it was to another. Otherwise the request fails: with 400 if it is not
  -- valid, with the error of the query if that is rejected, and else with 409. In each case nothing
  -- is changed but the cache, by that lookup.
  pub create_idempotent-once :
      (hash : CreateEscrow → String) (key uuid : String) (dto : CreateEscrow) (vendor : String)
      (w : World R D C) (r : EscrowRecord)
      → T.row r.id w.escrows ≡ some r
      → (r.vendor_address == vendor) ≡ true
      → (r.item_ref == dto.item_ref) ≡ true
      → (o : Outcome EscrowRecord) × (create_idempotent b hash key uuid dto vendor w
          ≡ (o, record w { cached = (looked_up key vendor w).1 }))
        × Repeated (hash dto) key dto vendor w (earlier_answer (looked_up key vendor w).0) o
  unfolding create_idempotent get_entry replay_or_create create_and_cache
  create_idempotent-once hash key uuid dto vendor w r at v m = go (looked_up key vendor w).0
    where
      after : World R D C
      after = record w { cached = (looked_up key vendor w).1 }

      again : Option Cached → Outcome EscrowRecord × World R D C
      again v = replay_or_create b (idempotency_key vendor key) (hash dto) uuid dto vendor v after

      Answers : Option Cached → Type 0
      Answers v =
          (o : Outcome EscrowRecord) × (again v ≡ (o, after))
          × Repeated (hash dto) key dto vendor w (earlier_answer v) o

      declined :
          (o : Outcome EscrowRecord × World R D C)
          → o ≡ create_and_cache b (idempotency_key vendor key) (hash dto) uuid dto vendor after
          → (a : Outcome EscrowRecord) × (o ≡ (a, after)) × Declined b laws dto vendor w a
      declined o q =
          let (f, e, d) = create_escrow-Declined b laws uuid dto vendor after r at v m in
          (err f, q ∙ rw e refl, d)

      go : (v : Option Cached) → Answers v
      go (some (idempotency_entry earlier x)) = elim (Bool-cases (earlier == hash dto)) [
        | inl y ↦ (ok x, rw y refl, inl (y, refl))
        | inr y ↦ (err unprocessable, rw y refl, inr (y, refl))
      ]
      go (some (escrow_entry x)) = declined _ refl
      go (some (tracking_entry x)) = declined _ refl
      go none = declined _ refl
