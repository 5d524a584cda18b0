-- ===== src/Worker/AutoRelease/Progress.antt =====
-- src/workers/auto-release.worker.ts: what a whole run does to the table and the cache.
use mathlib.Core.Path.{subst}
use trust_link_backend.Prelude.{
  ℕ, String, Option, none, some, List, [], ◌∷◌, Bool, true, false, ◌||◌, ◌≡◌, refl, sym, ap, ◌∙◌,
  inl, inr, if◌then◌else◌, ◌==◌, eq_iff, arith, Bool-cases, is_some, truthy,
}
use trust_link_backend.Exec.{Outcome, ok, err, pure, raise, catch_with}
use trust_link_backend.Escrow.{EscrowRecord, is_terminal}
use trust_link_backend.Escrow.Lifecycle.{Follows, Moves, Moves-refl, here}
use trust_link_backend.Escrow.Evolves.{
  Evolves, Evolves-refl, Evolves-trans, Evolves-kept, Evolves-bind, Evolves-Frame, Frame,
  Evolves-if,
}
use trust_link_backend.Backend.{Backend, IsBackend, World, submit_auto_release}
use trust_link_backend.Backend.Effects.{submit}
use trust_link_backend.Escrow.Repository.{
  record_auto_release_submission, clear_auto_release_submitting,
}
use trust_link_backend.Escrow.Repository.Coherence.{IsCoherent}
use trust_link_backend.Escrow.Repository.Claims.{
  claimed_at, mark_auto_release_submitting, find_auto_release_eligible,
}
use trust_link_backend.Escrow.Repository.Claims.Laws.{claim-cases}
use trust_link_backend.Escrow.Sync.{find_dispute}
use trust_link_backend.Worker.AutoRelease.{
  configured, submit_and_record, release_claim, if_claimed, if_mapped, process_escrow, process_all,
  process_batch, run_cycle, count_outcome, Summary,
}

module _ {R D C : Type 0} (b : Backend R D C) (laws : IsBackend b) where
  open b use {escrow_table as T}

  Moves-claimed :
      (x : Bool) (o : Option EscrowRecord) (old n : EscrowRecord)
      → (x ≡ true → o ≡ some old)
      → Follows old n
      → Moves o (if x then some n else o)
  Moves-claimed true o old n h f = rw (h refl) f
  Moves-claimed false o old n h f = Moves-refl o

  claim-Evolves :
      (id : String) (w : World R D C)
      → IsCoherent b w.cached w.escrows
      → Evolves b w.escrows (mark_auto_release_submitting b id w).1
  claim-Evolves id w i = elim (claim-cases b laws id w i) [
    | inl q ↦ rw q (Evolves-refl b w i)
    | inr (inl (t, i', same, _, q)) ↦
        rw q (record { coherent = i'; moves = λ j. rw (same j) (Moves-refl (T.row j w.escrows)) })
    | inr (inr (old, t, c, x, at, free, rows, i', q)) ↦ rw q (record {
      coherent = i';
      moves = λ j. rw (rows j) (
          Moves-claimed (id == j) (T.row j w.escrows) old (claimed_at w.now old)
            (λ x. ap (λ k. T.row k w.escrows) (sym ((eq_iff id j).0 x)) ∙ at)
            (record { path = here; same = refl }));
    })
  ]

  configured-Frame : (o : Option String) (w : World R D C) → Frame b laws (configured o) w
  unfolding configured
  configured-Frame none w = (refl, refl)
  configured-Frame (some a) w = elim (Bool-cases (a == "")) [
    | inl h ↦ rw h (refl, refl)
    | inr h ↦ rw h (refl, refl)
  ]

  find_dispute-Frame : (id : String) (w : World R D C) → Frame b laws (find_dispute b id) w
  unfolding find_dispute
  find_dispute-Frame id w = ground arith

  submit_and_record-Evolves :
      (e : EscrowRecord) (n : ℕ) (w : World R D C)
      → IsCoherent b w.cached w.escrows
      → Evolves b w.escrows (submit_and_record b e n w).1
  unfolding submit_and_record submit
  submit_and_record-Evolves e n w i =
      Evolves-Frame b laws (configured b.auto_release_source) _ w
        (configured-Frame b.auto_release_source w) i
        λ a w1 _ i1.
          Evolves-Frame b laws (submit b (submit_auto_release n a)) _ w1 (refl, refl) i1
            λ tx w2 _ i2.
              Evolves-bind b laws w2.escrows (record_auto_release_submission b e.id tx)
                (λ _. pure true) w2
                (Evolves-kept b laws e.id _ w2 (λ x. record { path = here; same = refl })
                  (λ _. refl) i2)
                (λ _ w3 _ i3. Evolves-refl b w3 i3)

  if_claimed-Evolves :
      (e : EscrowRecord) (n : ℕ) (o : Option EscrowRecord) (w : World R D C)
      → IsCoherent b w.cached w.escrows
      → Evolves b w.escrows (if_claimed b e n o w).1
  unfolding if_claimed release_claim
  if_claimed-Evolves e n none w i = Evolves-refl b w i
  if_claimed-Evolves e n (some _) w i =
      go (submit_and_record b e n w) (submit_and_record-Evolves e n w i)
    where
      go :
          (x : Outcome Bool × World R D C)
          → Evolves b w.escrows x.1
          → Evolves b w.escrows (catch_with (release_claim b e) x).1
      go (ok a, w') p = p
      go (err f, w') p = Evolves-trans b w.escrows w' (release_claim b e f w').1 p (
          Evolves-bind b laws w'.escrows (clear_auto_release_submitting b e.id) (λ _. raise f) w'
            (Evolves-kept b laws e.id _ w' (λ x. record { path = here; same = refl }) (λ _. refl)
              p.coherent)
            (λ _ w3 _ i3. Evolves-refl b w3 i3))

  if_mapped-Evolves :
      (e : EscrowRecord) (o : Option ℕ) (w : World R D C)
      → IsCoherent b w.cached w.escrows
      → Evolves b w.escrows (if_mapped b e o w).1
  unfolding if_mapped
  if_mapped-Evolves e none w i = Evolves-refl b w i
  if_mapped-Evolves e (some n) w i =
      Evolves-bind b laws w.escrows (mark_auto_release_submitting b e.id) (if_claimed b e n) w
        (claim-Evolves e.id w i) (λ o w' _ i'. if_claimed-Evolves e n o w' i')

  process_escrow-Evolves :
      (e : EscrowRecord) (w : World R D C)
      → IsCoherent b w.cached w.escrows
      → Evolves b w.escrows (process_escrow b e w).1
  unfolding process_escrow
  process_escrow-Evolves e w i =
      Evolves-Frame b laws (find_dispute b e.id) _ w (find_dispute-Frame e.id w) i λ d w' _ i'.
        Evolves-if b laws w'.escrows (is_some d) _ _ w' (λ _. Evolves-refl b w' i')
          λ _.
            Evolves-if b laws w'.escrows (is_terminal e.state || truthy e.auto_release_tx_hash) _ _
              w' (λ _. Evolves-refl b w' i') (λ _. if_mapped-Evolves e e.contract_escrow_id w' i')

  process_all-Evolves :
      (es : List EscrowRecord) (s : Summary) (w : World R D C)
      → IsCoherent b w.cached w.escrows
      → Evolves b w.escrows (process_all b es s w).1
  unfolding process_all
  process_all-Evolves [] s w i = Evolves-refl b w i
  process_all-Evolves (e ∷ es) s w i =
      let first = process_escrow-Evolves e w i in
      Evolves-trans b w.escrows (process_escrow b e w).1
        (process_all b es (count_outcome b e s (process_escrow b e w).0) (process_escrow b e w).1).1
        first
        (process_all-Evolves es (count_outcome b e s (process_escrow b e w).0)
          (process_escrow b e w).1 first.coherent)

  eligible-Frame :
      (reference : ℕ) (w : World R D C) → Frame b laws (find_auto_release_eligible b reference) w
  unfolding find_auto_release_eligible
  eligible-Frame reference w = ground arith

  -- A run moves no escrow but along the state machine, keeps its deal and the cache coherent,
  -- whatever fails in it.
  pub run_cycle-Evolves :
      (reference : ℕ) (w : World R D C)
      → IsCoherent b w.cached w.escrows
      → Evolves b w.escrows (run_cycle b reference w).1
  unfolding run_cycle
  run_cycle-Evolves reference w i =
      let (same, kept) = eligible-Frame reference w in
      go (find_auto_release_eligible b reference w) same kept
    where
      go :
          (x : Outcome (List EscrowRecord) × World R D C)
          → x.1.escrows ≡ w.escrows
          → x.1.cached ≡ w.cached
          → Evolves b w.escrows (process_batch b x).1
      go (ok es, w') p q =
          subst (λ t. Evolves b t (process_batch b (ok es, w')).1) p
            (process_all-Evolves es (record { successes = 0; failures = [] }) w' (rw (p, q) i))
      go (err _, w') p q = rw (p, q) (Evolves-refl b w i)
