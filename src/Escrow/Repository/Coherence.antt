-- ===== src/Escrow/Repository/Coherence.antt =====
-- The cache in front of the escrow table (src/escrow/escrow.repository.ts): what a read returns and
-- what a write leaves, under the invariant that a cached escrow is the row in the table.
use trust_link_backend.Prelude.{
  ℕ, String, Option, none, some, false, ◌≡◌, refl, ◌∙◌, ◌⊎◌, inl, inr, ◌==◌, eq_iff, arith,
  if◌then◌else◌, Option-cases,
}
use trust_link_backend.Exec.{ok, err, rejected}
use trust_link_backend.Escrow.{EscrowRecord}
use trust_link_backend.Backend.{
  Backend, IsBackend, World, Cached, escrow_entry, idempotency_entry, tracking_entry,
}
use trust_link_backend.Escrow.Repository.{
  cache_key, cache_key_inj, stamp, find_by_id, write, as_escrow, escrow_cache_ttl,
}

module _ {R D C : Type 0} (b : Backend R D C) where
  open b use {escrow_table as T, cache as K}

  pub record IsCoherent (c : C) (t : R) : Type 0 where
    -- A cached escrow is the row at its id.
    pub fresh :
        (k : String) (r : EscrowRecord)
        → K.held (cache_key k) c ≡ some (escrow_entry r)
        → T.row k t ≡ some r
    -- A row stands at its own id.
    pub keyed : (k : String) (r : EscrowRecord) → T.row k t ≡ some r → r.id ≡ k

  -- What a call of `write` did: nothing, or the row at the id was changed and nothing else but the
  -- cache.
  abbrev pub Written : String → (EscrowRecord → EscrowRecord) → World R D C → Type 0
  Written id f w =
      (old : EscrowRecord) × (t : R) × (c : C) × (T.row id w.escrows ≡ some old)
      × (write b id f w ≡ (ok (stamp w.now f old), record w { escrows = t; cached = c }))
      × ((j : String)
          → T.row j t ≡ (if id == j then some (stamp w.now f old) else T.row j w.escrows))
      × ((j : String) (r : EscrowRecord)
          → K.held (cache_key j) c ≡ some (escrow_entry r)
          → ((id == j) ≡ false) × (K.held (cache_key j) w.cached ≡ some (escrow_entry r)))

  module _ (laws : IsBackend b) where
    open laws use {escrows_lawful, cache_lawful}

    evicted :
        (id j : String) (c : C) (r : EscrowRecord)
        → K.held (cache_key j) (K.del (cache_key id) c) ≡ some (escrow_entry r)
        → ((id == j) ≡ false) × (K.held (cache_key j) c ≡ some (escrow_entry r))
    evicted id j c r h = ground (
      arith,
      cache_lawful.held-del (cache_key id) (cache_key j) c,
      eq_iff id j,
      eq_iff (cache_key id) (cache_key j),
    )

    write_done :
        (id : String) (f : EscrowRecord → EscrowRecord) (w : World R D C) (r : EscrowRecord) (t : R)
        → T.update id (stamp w.now f) w.escrows ≡ some (r, t)
        → Written id f w
    unfolding write
    write_done id f w r t e =
        let (old, found, made) = escrows_lawful.update_found id (stamp w.now f) w.escrows t r e in
        (
          old,
          t,
          K.del (cache_key id) w.cached,
          found,
          ground arith,
          λ j.
              escrows_lawful.row-update id (stamp w.now f) w.escrows t r j e
              ∙ ground (arith, found),
          λ j r' h. evicted id j w.cached r' h,
        )

    pub write-cases :
        (id : String) (f : EscrowRecord → EscrowRecord) (w : World R D C)
        → (write b id f w ≡ (err rejected, w)) ⊎ Written id f w
    unfolding write
    write-cases id f w = elim (Option-cases (T.update id (stamp w.now f) w.escrows)) [
      | inl e ↦ inl (ground arith)
      | inr ((r, t), e) ↦ inr (write_done id f w r t e)
    ]

    pub IsCoherent-get :
        (k : String) (w : World R D C)
        → IsCoherent w.cached w.escrows
        → IsCoherent (K.get w.now k w.cached).1 w.escrows
    IsCoherent-get k w i = record {
      fresh = λ j r h.
          i.fresh j r (cache_lawful.held-get w.now k (cache_key j) w.cached (escrow_entry r) h);
      keyed = i.keyed;
    }

    IsCoherent-set :
        (id : String) (r : EscrowRecord) (ttl : ℕ) (w : World R D C)
        → IsCoherent w.cached w.escrows
        → T.row id w.escrows ≡ some r
        → IsCoherent (K.set w.now (cache_key id) (escrow_entry r) ttl w.cached) w.escrows
    IsCoherent-set id r ttl w i e = record {
      fresh = λ j s h. ground (
        arith,
        cache_lawful.held-set w.now (cache_key id) (cache_key j) (escrow_entry r) (escrow_entry s)
            ttl w.cached h,
        i.fresh j s,
        eq_iff (cache_key id) (cache_key j),
        cache_key_inj id j,
      );
      keyed = i.keyed;
    }

    -- An entry that is no escrow replaces none that is.
    pub IsCoherent-set_other :
        (k : String) (v : Cached) (ttl : ℕ) (w : World R D C)
        → as_escrow (some v) ≡ none
        → IsCoherent w.cached w.escrows
        → IsCoherent (K.set w.now k v ttl w.cached) w.escrows
    IsCoherent-set_other k v ttl w other i = record {
      fresh = λ j s h. ground (
        arith,
        cache_lawful.held-set w.now k (cache_key j) v (escrow_entry s) ttl w.cached h,
        i.fresh j s,
      );
      keyed = i.keyed;
    }

    -- A row that is created stands at its id, where none stood before.
    pub IsCoherent-create :
        (r : EscrowRecord) (w : World R D C) (t : R)
        → T.create r w.escrows ≡ some t
        → IsCoherent w.cached w.escrows
        → IsCoherent w.cached t
    IsCoherent-create r w t e i = record {
      fresh = λ j s h. ground (
        arith,
        escrows_lawful.row-create r w.escrows t j e,
        escrows_lawful.create_fresh r w.escrows t e,
        i.fresh j s h,
        eq_iff (T.key r) j,
      );
      keyed = λ j s h. ground (
        arith,
        escrows_lawful.row-create r w.escrows t j e,
        i.keyed j s,
        eq_iff (T.key r) j,
        laws.escrow_key r,
      );
    }

    pub IsCoherent-del :
        (k : String) (w : World R D C)
        → IsCoherent w.cached w.escrows
        → IsCoherent (K.del k w.cached) w.escrows
    IsCoherent-del k w i = record {
      fresh = λ j r h. ground (arith, cache_lawful.held-del k (cache_key j) w.cached, i.fresh j r);
      keyed = i.keyed;
    }

    -- A write keeps the invariant, if it leaves the id.
    pub IsCoherent-write :
        (id : String) (f : EscrowRecord → EscrowRecord) (w : World R D C)
        → ((r : EscrowRecord) → (f r).id ≡ r.id)
        → IsCoherent w.cached w.escrows
        → IsCoherent (write b id f w).1.cached (write b id f w).1.escrows
    IsCoherent-write id f w same i = elim (write-cases id f w) [
      | inl e ↦ rw e i
      | inr (old, t, c, found, e, rows, held) ↦ rw e (record {
        fresh = λ j r h. ground (arith, held j r h, rows j, i.fresh j r);
        keyed = λ j r h. ground (arith, rows j, i.keyed j r, i.keyed id old, same old, eq_iff id j);
      })
    ]

    -- A read returns the row that the table holds, whether it comes from the cache or the table,
    -- unless the query is rejected; and it changes nothing but the cache.
    abbrev pub Read : String → World R D C → Type 0
    Read id w =
        (c : C) × IsCoherent c w.escrows
        × ((find_by_id b id w ≡ (err rejected, record w { cached = c }))
            ⊎ (find_by_id b id w ≡ (ok (T.row id w.escrows), record w { cached = c })))

    Read-hit :
        (id : String) (w : World R D C) (r : EscrowRecord)
        → IsCoherent w.cached w.escrows
        → (K.get w.now (cache_key id) w.cached).0 ≡ some (escrow_entry r)
        → Read id w
    unfolding find_by_id
    Read-hit id w r i e = (
      (K.get w.now (cache_key id) w.cached).1,
      IsCoherent-get (cache_key id) w i,
      inr (
          ground (
            arith,
            i.fresh id r (cache_lawful.get-held w.now (cache_key id) w.cached (escrow_entry r) e),
          )),
    )

    Read-miss :
        (id : String) (w : World R D C)
        → IsCoherent w.cached w.escrows
        → as_escrow (K.get w.now (cache_key id) w.cached).0 ≡ none
        → (o : Option (Option EscrowRecord)) → T.find_unique id w.escrows ≡ o
        → Read id w
    unfolding find_by_id
    Read-miss id w i e none q = (
      (K.get w.now (cache_key id) w.cached).1,
      IsCoherent-get (cache_key id) w i,
      inl (ground arith),
    )
    Read-miss id w i e (some none) q = (
      (K.get w.now (cache_key id) w.cached).1,
      IsCoherent-get (cache_key id) w i,
      inr (ground (arith, escrows_lawful.row-find_unique id w.escrows none q)),
    )
    Read-miss id w i e (some (some r)) q =
        let here = escrows_lawful.row-find_unique id w.escrows (some r) q in
        let c = (K.get w.now (cache_key id) w.cached).1 in
        (
          K.set w.now (cache_key id) (escrow_entry r) escrow_cache_ttl c,
          IsCoherent-set id r escrow_cache_ttl (record w { cached = c })
              (IsCoherent-get (cache_key id) w i) here,
          inr (ground (arith, here)),
        )

    Read-by_hit :
        (id : String) (w : World R D C)
        → IsCoherent w.cached w.escrows
        → (v : Option Cached) → (K.get w.now (cache_key id) w.cached).0 ≡ v
        → Read id w
    Read-by_hit id w i (some (escrow_entry r)) e = Read-hit id w r i e
    Read-by_hit id w i none e = Read-miss id w i (rw e) (T.find_unique id w.escrows) refl
    Read-by_hit id w i (some (idempotency_entry h r)) e =
        Read-miss id w i (rw e) (T.find_unique id w.escrows) refl
    Read-by_hit id w i (some (tracking_entry s)) e =
        Read-miss id w i (rw e) (T.find_unique id w.escrows) refl

    pub read_lem : (id : String) (w : World R D C) → IsCoherent w.cached w.escrows → Read id w
    read_lem id w i = Read-by_hit id w i (K.get w.now (cache_key id) w.cached).0 refl
