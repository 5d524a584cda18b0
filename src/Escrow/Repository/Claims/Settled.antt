-- ===== src/Escrow/Repository/Claims/Settled.antt =====
-- src/escrow/escrow.repository.ts: the read of one escrow, and its eviction, that end a claim.
use trust_link_backend.Prelude.{
  ℕ, String, Option, none, some, false, ◌≡◌, refl, arith, ◌==◌, eq_iff,
}
use trust_link_backend.Exec.{Outcome, ok, err, rejected}
use trust_link_backend.Escrow.{EscrowRecord}
use trust_link_backend.Backend.{
  Backend, IsBackend, World, Cached, escrow_entry, idempotency_entry, tracking_entry,
}
use trust_link_backend.Escrow.Repository.{
  cache_key, cache_key_inj, find_by_id, invalidate, as_escrow, escrow_cache_ttl,
}
use trust_link_backend.Escrow.Repository.Coherence.{IsCoherent}
use trust_link_backend.Escrow.Repository.Claims.{after_claim}

module _ {R D C : Type 0} (b : Backend R D C) (laws : IsBackend b) where
  open b use {escrow_table as T, cache as K}
  open laws use {escrows_lawful, cache_lawful}

  -- Coherent, except for what the cache holds of one escrow.
  pub record CoherentBut (id : String) (c : C) (t : R) : Type 0 where
    pub fresh :
        (k : String) (r : EscrowRecord)
        → (id == k) ≡ false
        → K.held (cache_key k) c ≡ some (escrow_entry r)
        → T.row k t ≡ some r
    pub keyed : (k : String) (r : EscrowRecord) → T.row k t ≡ some r → r.id ≡ k

  but_evicted :
      (id : String) (c : C) (t : R) → CoherentBut id c t → IsCoherent b (K.del (cache_key id) c) t
  but_evicted id c t i = record {
    fresh = λ j r h. ground (
      arith,
      cache_lawful.held-del (cache_key id) (cache_key j) c,
      i.fresh j r,
      eq_iff id j,
      eq_iff (cache_key id) (cache_key j),
    );
    keyed = i.keyed;
  }

  but_missing :
      (id : String) (c : C) (t : R)
      → CoherentBut id c t
      → K.held (cache_key id) c ≡ none
      → IsCoherent b c t
  but_missing id c t i m = record {
    fresh = λ j r h. ground (arith, i.fresh j r, eq_iff id j);
    keyed = i.keyed;
  }

  but_get :
      (id : String) (now : ℕ) (k : String) (c : C) (t : R)
      → CoherentBut id c t
      → CoherentBut id (K.get now k c).1 t
  but_get id now k c t i = record {
    fresh =
        λ j r n h. i.fresh j r n (cache_lawful.held-get now k (cache_key j) c (escrow_entry r) h);
    keyed = i.keyed;
  }

  but_set :
      (id : String) (now : ℕ) (v : Cached) (ttl : ℕ) (c : C) (t : R)
      → CoherentBut id c t
      → CoherentBut id (K.set now (cache_key id) v ttl c) t
  but_set id now v ttl c t i = record {
    fresh = λ j r n h. ground (
      arith,
      cache_lawful.held-set now (cache_key id) (cache_key j) v (escrow_entry r) ttl c h,
      i.fresh j r,
      eq_iff id j,
      eq_iff (cache_key id) (cache_key j),
      cache_key_inj id j,
    );
    keyed = i.keyed;
  }

  -- A read of the one escrow, and its eviction, make the cache coherent again.
  abbrev pub Settled : String → World R D C → Type 0
  Settled id w =
      (c : C) × (x : Outcome (Option EscrowRecord)) × IsCoherent b c w.escrows
      × (after_claim b id 1 w ≡ (x, record w { cached = c }))

  Settled-hit :
      (id : String) (w : World R D C) (r : EscrowRecord)
      → CoherentBut id w.cached w.escrows
      → (K.get w.now (cache_key id) w.cached).0 ≡ some (escrow_entry r)
      → Settled id w
  unfolding after_claim find_by_id invalidate
  Settled-hit id w r i e =
      let c = (K.get w.now (cache_key id) w.cached).1 in
      (
        K.del (cache_key id) c,
        ok (some r),
        but_evicted id c w.escrows (but_get id w.now (cache_key id) w.cached w.escrows i),
        ground arith,
      )

  Settled-miss :
      (id : String) (w : World R D C)
      → CoherentBut id w.cached w.escrows
      → as_escrow (K.get w.now (cache_key id) w.cached).0 ≡ none
      → IsCoherent b (K.get w.now (cache_key id) w.cached).1 w.escrows
      → (o : Option (Option EscrowRecord)) → T.find_unique id w.escrows ≡ o
      → Settled id w
  unfolding after_claim find_by_id invalidate
  Settled-miss id w i e m none q =
      ((K.get w.now (cache_key id) w.cached).1, err rejected, m, ground arith)
  Settled-miss id w i e m (some none) q =
      let c = (K.get w.now (cache_key id) w.cached).1 in
      (
        K.del (cache_key id) c,
        ok none,
        but_evicted id c w.escrows (but_get id w.now (cache_key id) w.cached w.escrows i),
        ground arith,
      )
  Settled-miss id w i e m (some (some r)) q =
      let c = (K.get w.now (cache_key id) w.cached).1 in
      let c' = K.set w.now (cache_key id) (escrow_entry r) escrow_cache_ttl c in
      (
        K.del (cache_key id) c',
        ok (some r),
        but_evicted id c' w.escrows (
            but_set id w.now (escrow_entry r) escrow_cache_ttl c w.escrows
              (but_get id w.now (cache_key id) w.cached w.escrows i)),
        ground arith,
      )

  missing_other :
      (id : String) (w : World R D C) (v : Cached)
      → CoherentBut id w.cached w.escrows
      → (K.get w.now (cache_key id) w.cached).0 ≡ some v
      → as_escrow (some v) ≡ none
      → IsCoherent b (K.get w.now (cache_key id) w.cached).1 w.escrows
  missing_other id w v i e n = record {
    fresh = λ j r h. ground (
      arith,
      i.fresh j r,
      cache_lawful.held-get w.now (cache_key id) (cache_key j) w.cached (escrow_entry r) h,
      cache_lawful.get-held w.now (cache_key id) w.cached v e,
      eq_iff id j,
    );
    keyed = i.keyed;
  }

  pub Settled-by :
      (id : String) (w : World R D C)
      → CoherentBut id w.cached w.escrows
      → (v : Option Cached) → (K.get w.now (cache_key id) w.cached).0 ≡ v
      → Settled id w
  Settled-by id w i (some (escrow_entry r)) e = Settled-hit id w r i e
  Settled-by id w i none e =
      Settled-miss id w i (rw e)
        (but_missing id (K.get w.now (cache_key id) w.cached).1 w.escrows
          (but_get id w.now (cache_key id) w.cached w.escrows i)
          (cache_lawful.get_miss w.now (cache_key id) w.cached e))
        (T.find_unique id w.escrows) refl
  Settled-by id w i (some (idempotency_entry h r)) e =
      Settled-miss id w i (rw e) (missing_other id w (idempotency_entry h r) i e refl)
        (T.find_unique id w.escrows) refl
  Settled-by id w i (some (tracking_entry s)) e =
      Settled-miss id w i (rw e) (missing_other id w (tracking_entry s) i e refl)
        (T.find_unique id w.escrows) refl
