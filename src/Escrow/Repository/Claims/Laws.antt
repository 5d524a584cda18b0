-- ===== src/Escrow/Repository/Claims/Laws.antt =====
-- What the claims of src/escrow/escrow.repository.ts do to the table and the cache.
use mathlib.Core.Path.{subst}
use trust_link_backend.Prelude.{
  ℕ, zero, suc, String, Option, none, some, Bool, true, ◌≡◌, refl, sym, ap, ◌∙◌, ◌⊎◌, inl, inr,
  arith, if◌then◌else◌, ◌==◌, eq_iff, eq_refl, Option-cases,
}
use trust_link_backend.Exec.{Outcome, ok, err, rejected}
use trust_link_backend.Escrow.{EscrowRecord}
use trust_link_backend.Database.{update_if, matched}
use trust_link_backend.Backend.{Backend, IsBackend, World}
use trust_link_backend.Escrow.Repository.{cache_key}
use trust_link_backend.Escrow.Repository.Coherence.{IsCoherent}
use trust_link_backend.Escrow.Repository.Claims.Settled.{Settled-by}
use trust_link_backend.Escrow.Repository.Claims.{
  unclaimed, claimed_at, claim_rows, after_claim, mark_auto_release_submitting,
}

module _ {R D C : Type 0} (b : Backend R D C) (laws : IsBackend b) where
  open b use {escrow_table as T, cache as K}
  open laws use {escrows_lawful}

  -- The three ways out of a claim.
  abbrev pub Lost : String → World R D C → Type 0
  Lost id w =
      (t : R) × IsCoherent b w.cached t
      × ((j : String) → T.row j t ≡ T.row j w.escrows)
      × (matched unclaimed (T.row id w.escrows) ≡ 0)
      × (mark_auto_release_submitting b id w ≡ (ok none, record w { escrows = t }))

  abbrev pub Won : String → World R D C → Type 0
  Won id w =
      (old : EscrowRecord) × (t : R) × (c : C) × (x : Outcome (Option EscrowRecord)) × (T.row id
          w.escrows
        ≡ some old)
      × (unclaimed old ≡ true)
      × ((j : String)
          → T.row j t ≡ (if id == j then some (claimed_at w.now old) else T.row j w.escrows))
      × IsCoherent b c t
      × (mark_auto_release_submitting b id w ≡ (x, record w { escrows = t; cached = c }))

  update_if_none :
      (p : EscrowRecord → Bool) (f : EscrowRecord → EscrowRecord) (o : Option EscrowRecord)
      → matched p o ≡ 0
      → update_if p f o ≡ o
  update_if_none p f none h = refl
  update_if_none p f (some r) h = ground arith

  lost_same :
      (id : String) (w : World R D C) (t : R) (j : String)
      → T.update_many id unclaimed (claimed_at w.now) w.escrows ≡ some (0, t)
      → T.row j t ≡ T.row j w.escrows
  lost_same id w t j e = ground (
    arith,
    escrows_lawful.row-update_many id unclaimed (claimed_at w.now) w.escrows t 0 j e,
    update_if_none unclaimed (claimed_at w.now) (T.row id w.escrows)
        (sym (escrows_lawful.update_many_count id unclaimed (claimed_at w.now) w.escrows t 0 e)),
    eq_iff id j,
  )

  lost :
      (id : String) (w : World R D C) (t : R)
      → T.update_many id unclaimed (claimed_at w.now) w.escrows ≡ some (0, t)
      → IsCoherent b w.cached w.escrows
      → Lost id w
  unfolding mark_auto_release_submitting claim_rows after_claim
  lost id w t e i = (
    t,
    record {
      fresh = λ j r h. lost_same id w t j e ∙ i.fresh j r h;
      keyed = λ j r h. i.keyed j r (sym (lost_same id w t j e) ∙ h);
    },
    λ j. lost_same id w t j e,
    sym (escrows_lawful.update_many_count id unclaimed (claimed_at w.now) w.escrows t 0 e),
    ground arith,
  )

  claimed_row :
      (id : String) (w : World R D C) (n : ℕ) (t : R)
      → T.update_many id unclaimed (claimed_at w.now) w.escrows ≡ some (suc n, t)
      → (o : Option EscrowRecord) → T.row id w.escrows ≡ o
      → (old : EscrowRecord) × (T.row id w.escrows ≡ some old) × (unclaimed old ≡ true) × (n ≡ 0)
  claimed_row id w n t e none q = absurd (
      ground (
        arith,
        escrows_lawful.update_many_count id unclaimed (claimed_at w.now) w.escrows t (suc n) e,
      ))
  claimed_row id w n t e (some old) q =
      let count =
        escrows_lawful.update_many_count id unclaimed (claimed_at w.now) w.escrows t (suc n) e in
      (old, q, ground (arith, count), ground (arith, count))

  won_rows :
      (id : String) (w : World R D C) (n : ℕ) (t : R) (old : EscrowRecord)
      → T.update_many id unclaimed (claimed_at w.now) w.escrows ≡ some (n, t)
      → T.row id w.escrows ≡ some old
      → unclaimed old ≡ true
      → (j : String)
      → T.row j t ≡ (if id == j then some (claimed_at w.now old) else T.row j w.escrows)
  won_rows id w n t old e q h j =
      escrows_lawful.row-update_many id unclaimed (claimed_at w.now) w.escrows t n j e
      ∙ ground (arith, q, h)

  claim_after :
      (id : String) (w : World R D C) (n : ℕ) (t : R)
      → T.update_many id unclaimed (claimed_at w.now) w.escrows ≡ some (n, t)
      → mark_auto_release_submitting b id w ≡ after_claim b id n (record w { escrows = t })
  unfolding mark_auto_release_submitting claim_rows
  claim_after id w n t e = ground arith

  won :
      (id : String) (w : World R D C) (t : R) (old : EscrowRecord)
      → T.update_many id unclaimed (claimed_at w.now) w.escrows ≡ some (1, t)
      → T.row id w.escrows ≡ some old
      → unclaimed old ≡ true
      → IsCoherent b w.cached w.escrows
      → Won id w
  won id w t old e q h i =
      let rows = won_rows id w 1 t old e q h in
      let w' = record w { escrows = t } in
      let (c, x, i', run) =
        Settled-by b laws id w'
          (record {
            fresh = λ j r n held. ground (arith, rows j, i.fresh j r held);
            keyed = λ j r here. ground (arith, rows j, i.keyed j r, i.keyed id old, eq_iff id j);
          })
          (K.get w'.now (cache_key id) w'.cached).0 refl in
      (old, t, c, x, q, h, rows, i', claim_after id w 1 t e ∙ run)

  pub claim-cases :
      (id : String) (w : World R D C)
      → IsCoherent b w.cached w.escrows
      → (mark_auto_release_submitting b id w ≡ (err rejected, w)) ⊎ Lost id w ⊎ Won id w
  unfolding mark_auto_release_submitting claim_rows
  claim-cases id w i =
      elim (Option-cases (T.update_many id unclaimed (claimed_at w.now) w.escrows)) [
        | inl e ↦ inl (ground arith)
        | inr ((zero, t), e) ↦ inr (inl (lost id w t e i))
        | inr ((suc n, t), e) ↦
            let (old, q, h, z) = claimed_row id w n t e (T.row id w.escrows) refl in
            inr (inr (won id w t old (e ∙ ap (λ m. some (suc m, t)) z) q h i))
      ]

  -- Once a claim is won, the next one is lost or rejected.
  pub claim_exclusive :
      (id : String) (w w' : World R D C) (r : EscrowRecord)
      → IsCoherent b w.cached w.escrows
      → mark_auto_release_submitting b id w ≡ (ok (some r), w')
      → (mark_auto_release_submitting b id w' ≡ (err rejected, w'))
        ⊎ ((t : R) × (mark_auto_release_submitting b id w' ≡ (ok none, record w' { escrows = t })))
  claim_exclusive id w w' r i e = elim (claim-cases id w i) [
    | inl q ↦ absurd (cc (q, e))
    | inr (inl (t, _, _, _, q)) ↦ absurd (cc (q, e))
    | inr (inr (old, t, c, x, at, h, rows, i', q)) ↦
        let now_at : w' ≡ record w { escrows = t; cached = c } = ap (λ y. y.1) (sym e ∙ q) in
        let held : T.row id w'.escrows ≡ some (claimed_at w.now old) =
          ap (λ y. T.row id y.escrows) now_at ∙ rows id ∙ ground (arith, eq_refl id) in
        elim (claim-cases id w' (subst (λ y. IsCoherent b y.cached y.escrows) (sym now_at) i')) [
          | inl l ↦ inl l
          | inr (inl (t', _, _, _, l)) ↦ inr (t', l)
          | inr (inr (old', _, _, _, at', h', _, _, _)) ↦ absurd (ground (arith, held, at', h'))
        ]
  ]
