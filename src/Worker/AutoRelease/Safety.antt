-- ===== src/Worker/AutoRelease/Safety.antt =====
-- src/workers/auto-release.worker.ts: what one escrow of a run may submit, and to which rows.
use mathlib.Core.Path.{subst}
use trust_link_backend.Prelude.{
  ℕ, String, Option, none, some, List, ◌∷◌, Bool, true, false, ◌||◌, ◌≡◌, refl, sym, ap, ◌∙◌, ◌⊎◌,
  inl, inr, ◌==◌, arith, Option-cases, Bool-cases, truthy,
}
use trust_link_backend.Exec.{Exec, Outcome, ok, err, pure, raise, catch_with, continue, ◌>>=◌, ◌>>◌}
use trust_link_backend.Escrow.{EscrowRecord, DisputeRecord, is_terminal}
use trust_link_backend.Database.{matched}
use trust_link_backend.Backend.{Backend, IsBackend, World, submit_auto_release, ChainCall}
use trust_link_backend.Backend.Effects.{submit}
use trust_link_backend.Escrow.Repository.{
  write, record_auto_release_submission, clear_auto_release_submitting,
}
use trust_link_backend.Escrow.Repository.Coherence.{IsCoherent, write-cases}
use trust_link_backend.Escrow.Repository.Claims.{unclaimed}
use trust_link_backend.Escrow.Repository.Claims.Laws.{claim-cases}
use trust_link_backend.Escrow.Sync.{find_dispute}
use trust_link_backend.Worker.AutoRelease.{
  configured, submit_and_record, release_claim, if_claimed, if_mapped, process_escrow,
}

module _ {R D C : Type 0} (b : Backend R D C) (laws : IsBackend b) where
  open b use {escrow_table as T, dispute_table as Q}

  write-calls :
      (id : String) (f : EscrowRecord → EscrowRecord) (w : World R D C)
      → (write b id f w).1.calls ≡ w.calls
  write-calls id f w = elim (write-cases b laws id f w) [
    | inl e ↦ ap (λ x. x.1.calls) e
    | inr (_, _, _, _, e, _, _) ↦ ap (λ x. x.1.calls) e
  ]

  -- No call, or the one that releases contract escrow `n`, from the configured account.
  abbrev pub OneCall : ℕ → List ChainCall → List ChainCall → Type 0
  OneCall n before later =
      (later ≡ before)
      ⊎ ((a : String) × (b.auto_release_source ≡ some a)
          × (later ≡ submit_auto_release n a ∷ before))

  quiet_bind :
      {A B : Type 0} (m : Exec (World R D C) A) (k : A → Exec (World R D C) B) (w : World R D C)
      (cs : List ChainCall)
      → (m w).1.calls ≡ cs
      → ((a : A) (w' : World R D C) → (k a w').1.calls ≡ w'.calls)
      → ((m >>= k) w).1.calls ≡ cs
  quiet_bind {A = A} {B = B} m k w cs e quiet = go (m w) e
    where
      go : (x : Outcome A × World R D C) → x.1.calls ≡ cs → (continue k x).1.calls ≡ cs
      go (ok a, w') p = quiet a w' ∙ p
      go (err _, w') p = p

  abbrev after_source : EscrowRecord → ℕ → String → Exec (World R D C) Bool
  after_source e n a = do
    tx ← submit b (submit_auto_release n a)
    record_auto_release_submission b e.id tx
    pure true

  after_source-calls :
      (e : EscrowRecord) (n : ℕ) (a : String) (w : World R D C)
      → (after_source e n a w).1.calls ≡ submit_auto_release n a ∷ w.calls
  unfolding submit
  after_source-calls e n a w =
      quiet_bind (submit b (submit_auto_release n a))
        (λ tx. record_auto_release_submission b e.id tx >>= λ _. pure true) w _ refl
        (λ tx w'.
          quiet_bind (record_auto_release_submission b e.id tx) (λ _. pure true) w' _
            (write-calls e.id _ w') (λ _ _. refl))

  submit_and_record-calls :
      (e : EscrowRecord) (n : ℕ) (w : World R D C)
      → OneCall n w.calls (submit_and_record b e n w).1.calls
  unfolding submit_and_record configured
  submit_and_record-calls e n w = elim (Option-cases b.auto_release_source) [
    | inl q ↦ inl (ground arith)
    | inr (a, q) ↦ elim (Bool-cases (a == "")) [
      | inl h ↦ inl (ground arith)
      | inr h ↦ inr (a, q, ground (arith, after_source-calls e n a w))
    ]
  ]

  -- The handler writes and submits nothing.
  guarded-calls :
      (e : EscrowRecord) (n : ℕ) (o : Option EscrowRecord) (w : World R D C)
      → OneCall n w.calls (if_claimed b e n o w).1.calls
  unfolding if_claimed release_claim
  guarded-calls e n none w = inl refl
  guarded-calls e n (some _) w = go (submit_and_record b e n w) (submit_and_record-calls e n w)
    where
      go :
          (x : Outcome Bool × World R D C)
          → OneCall n w.calls x.1.calls
          → OneCall n w.calls (catch_with (release_claim b e) x).1.calls
      go (ok a, w') p = p
      go (err f, w') p =
          rw
            (quiet_bind (clear_auto_release_submitting b e.id) (λ _. raise f) w' w'.calls
              (write-calls e.id _ w') (λ _ _. refl))
            p

  -- What holds of an escrow whose release is submitted, when it is submitted.
  pub record Cleared (e : EscrowRecord) (n : ℕ) (w : World R D C) : Type 0 where
    pub mapped : e.contract_escrow_id ≡ some n
    pub open_state : is_terminal e.state ≡ false
    pub unreleased : truthy e.auto_release_tx_hash ≡ false
    pub undisputed :
        (d : DisputeRecord) → Q.row d.id w.disputes ≡ some d → (d.escrow_id == e.id) ≡ false
    pub claimed : matched unclaimed (T.row e.id w.escrows) ≡ 1

  abbrev pub Submits : EscrowRecord → World R D C → List ChainCall → Type 0
  Submits e w later = (later ≡ w.calls) ⊎ ((n : ℕ) × Cleared e n w × OneCall n w.calls later)

  if_mapped-Submits :
      (e : EscrowRecord) (o : Option ℕ) (w : World R D C)
      → e.contract_escrow_id ≡ o
      → IsCoherent b w.cached w.escrows
      → is_terminal e.state ≡ false
      → truthy e.auto_release_tx_hash ≡ false
      → ((d : DisputeRecord) → Q.row d.id w.disputes ≡ some d → (d.escrow_id == e.id) ≡ false)
      → Submits e w (if_mapped b e o w).1.calls
  unfolding if_mapped
  if_mapped-Submits e none w m i s h u = inl refl
  if_mapped-Submits e (some n) w m i s h u = elim (claim-cases b laws e.id w i) [
    | inl q ↦ inl (rw q refl)
    | inr (inl (t, _, _, _, q)) ↦ inl (rw (q, if_claimed) refl)
    | inr (inr (old, t, c, x, at, free, _, _, q)) ↦ rw q (
        go x (record w { escrows = t; cached = c }) refl
          (record {
            mapped = m;
            open_state = s;
            unreleased = h;
            undisputed = u;
            claimed = ground (arith, at, free);
          }))
  ]
    where
      go :
          (x : Outcome (Option EscrowRecord)) (w' : World R D C)
          → w'.calls ≡ w.calls
          → Cleared e n w
          → Submits e w (continue (if_claimed b e n) (x, w')).1.calls
      go (ok o) w' p c = inr (
        n,
        c,
        subst (λ cs. OneCall n cs (if_claimed b e n o w').1.calls) p (guarded-calls e n o w'),
      )
      go (err _) w' p c = inl p

  -- A run submits at most one call for an escrow: its release from the configured account. It is
  -- submitted only if the escrow maps to a contract id, is in no terminal state, has no
  -- transaction hash and no dispute, and only by the run that took the claim.
  pub process_escrow-Submits :
      (e : EscrowRecord) (w : World R D C)
      → IsCoherent b w.cached w.escrows
      → Submits e w (process_escrow b e w).1.calls
  unfolding process_escrow find_dispute
  process_escrow-Submits e w i =
      elim (Option-cases (Q.find_first (λ d. d.escrow_id == e.id) w.disputes)) [
        | inl q ↦ inl (ground arith)
        | inr (some d, q) ↦ inl (ground arith)
        | inr (none, q) ↦ elim (Bool-cases (is_terminal e.state || truthy e.auto_release_tx_hash)) [
          | inl h ↦ inl (ground arith)
          | inr h ↦
              let run : process_escrow b e w ≡ if_mapped b e e.contract_escrow_id w =
                ground arith in
              subst (λ x. Submits e w x.1.calls) (sym run)
                (if_mapped-Submits e e.contract_escrow_id w refl i (ground arith) (ground arith)
                  (λ d at.
                    laws.disputes_lawful.row-find_first_none (λ x. x.escrow_id == e.id) w.disputes
                      d.id d q at (laws.dispute_key d)))
        ]
      ]
