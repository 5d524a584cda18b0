-- ===== src/Dlq/Safety.antt =====
-- src/dlq: a dead letter that was replayed or abandoned stays so.
use mathlib.Core.Path.{subst}
use mathlib.Core.Option
use mathlib.Core.Option.{some-injective}
use trust_link_backend.Prelude.{
  ℕ, String, Option, none, some, List, ◌∷◌, Bool, true, false, ◌≡◌, refl, sym, ap, ◌∙◌, inl, inr,
  ◌==◌, if◌then◌else◌, eq_iff, eq_refl, eqb, arith, Bool-cases, Option-cases,
}
use trust_link_backend.Exec.{Exec, Outcome, ok, err, Failure, raise, continue, ◌>>=◌, ◌>>◌}
use trust_link_backend.Database.{Table, IsTable, update_if}
use trust_link_backend.Dlq.{
  Status, replayed, abandoned, FailedTransaction, Queue, is_claimable, touch, to_replaying,
  to_pending, bumped, to_replayed, to_abandoned, to_reviewed, find_by_id, update, claim, read_back,
  claim_for_replay, mark_abandoned, release_claim, increment_attempts, mark_replayed, or_missing,
  get, or_conflict, give_back, finish_replay, run_replay, replay_claimed, replay_loaded, replay,
  abandon_loaded, abandon, mark_reviewed,
}

abbrev pub is_settled : Status → Bool
is_settled replayed = true
is_settled abandoned = true
is_settled _ = false

-- What a settled row keeps.
abbrev pub outcome : FailedTransaction → Status × Option String × ℕ
outcome r = (r.status, r.last_replay_tx_hash, r.attempts)

-- A settled row keeps its outcome, and no row is lost.
abbrev pub Kept : Option FailedTransaction → Option FailedTransaction → Type 0
Kept none o = Unit
Kept (some r) none = ⊥
Kept (some r) (some r') = is_settled r.status ≡ true → outcome r' ≡ outcome r

pub Kept-refl : (o : Option FailedTransaction) → Kept o o
Kept-refl none = tt
Kept-refl (some r) = λ _. refl

pub Kept-trans : (o p q : Option FailedTransaction) → Kept o p → Kept p q → Kept o q
Kept-trans none p q f g = tt
Kept-trans (some o) none q f g = absurd f
Kept-trans (some o) (some p) none f g = absurd g
Kept-trans (some o) (some p) (some q) f g = λ h. g (ap (λ x. is_settled x.0) (f h) ∙ h) ∙ f h

pub Kept-if :
    (x : Bool) (o n : Option FailedTransaction)
    → (x ≡ true → Kept o n)
    → Kept o (if x then n else o)
Kept-if true o n h = h refl
Kept-if false o n h = Kept-refl o

Kept-update_if :
    (now : ℕ) (f : FailedTransaction → FailedTransaction) (o : Option FailedTransaction)
    → Kept o (update_if (is_claimable now) f o)
Kept-update_if now f none = tt
Kept-update_if now f (some r) = elim (Bool-cases (is_claimable now r)) [
  | inl h ↦ rw h (λ s. absurd (ground (arith, h, s)))
  | inr h ↦ rw h (λ _. refl)
]

module _ {R : Type 0} (T : Table FailedTransaction R) (laws : IsTable T)
    (submit : List String → FailedTransaction → Outcome String) where
  -- Every row, from one table to another.
  abbrev pub Keeps : R → R → Type 0
  Keeps t t' = (j : String) → Kept (T.row j t) (T.row j t')

  Keeps-trans : (t u v : R) → Keeps t u → Keeps u v → Keeps t v
  Keeps-trans t u v f g j = Kept-trans (T.row j t) (T.row j u) (T.row j v) (f j) (g j)

  Keeps-bind :
      {A B : Type 0} (t : R) (m : Exec (Queue R) A) (k : A → Exec (Queue R) B) (q : Queue R)
      → Keeps t (m q).1.rows
      → ((a : A) (q' : Queue R) → m q ≡ (ok a, q') → Keeps q'.rows (k a q').1.rows)
      → Keeps t ((m >>= k) q).1.rows
  Keeps-bind {A = A} t m k q e rest = go (m q) refl e
    where
      go : (x : Outcome A × Queue R) → m q ≡ x → Keeps t x.1.rows → Keeps t (continue k x).1.rows
      go (ok a, q') p e' = Keeps-trans t q'.rows (k a q').1.rows e' (rest a q' p)
      go (err x, q') p e' = e'

  -- An update is harmless if its row is not settled, or if it leaves the outcome.
  update_rows :
      (id : String) (f : FailedTransaction → FailedTransaction) (q : Queue R)
      (r : FailedTransaction) (t : R)
      → T.update id (touch q.now f) q.rows ≡ some (r, t)
      → ((x : FailedTransaction)
          → T.row id q.rows ≡ some x
          → is_settled x.status ≡ true
          → outcome (f x) ≡ outcome x)
      → Keeps q.rows t
  update_rows id f q r t e safe j =
      let (old, found, _) = laws.update_found id (touch q.now f) q.rows t r e in
      subst (Kept (T.row j q.rows)) (sym (laws.row-update id (touch q.now f) q.rows t r j e)) (
        Kept-if (id == j) (T.row j q.rows) (Option.map (touch q.now f) (T.row id q.rows)) (λ x.
          subst (λ k. Kept (T.row k q.rows) (Option.map (touch q.now f) (T.row id q.rows)))
            ((eq_iff id j).0 x) (rw found (safe old found))))

  update-Keeps :
      (id : String) (f : FailedTransaction → FailedTransaction) (q : Queue R)
      → ((x : FailedTransaction)
          → T.row id q.rows ≡ some x
          → is_settled x.status ≡ true
          → outcome (f x) ≡ outcome x)
      → Keeps q.rows (update T submit id f q).1.rows
  unfolding update
  update-Keeps id f q safe = go (T.update id (touch q.now f) q.rows) refl
    where
      go :
          (o : Option (FailedTransaction × R))
          → T.update id (touch q.now f) q.rows ≡ o
          → Keeps q.rows (update T submit id f q).1.rows
      go none e = rw (e, update) (λ j. Kept-refl (T.row j q.rows))
      go (some (r, t)) e = rw (e, update) (update_rows id f q r t e safe)

  claim-Keeps :
      (id : String) (f : FailedTransaction → FailedTransaction) (q : Queue R)
      → Keeps q.rows (claim T submit id f q).1.rows
  unfolding claim
  claim-Keeps id f q = go (T.update_many id (is_claimable q.now) (touch q.now f) q.rows) refl
    where
      go :
          (o : Option (ℕ × R))
          → T.update_many id (is_claimable q.now) (touch q.now f) q.rows ≡ o
          → Keeps q.rows (claim T submit id f q).1.rows
      go none e = rw (e, claim) (λ j. Kept-refl (T.row j q.rows))
      go (some (n, t)) e =
          rw (e, claim)
            (λ j.
              subst (Kept (T.row j q.rows))
                (sym (laws.row-update_many id (is_claimable q.now) (touch q.now f) q.rows t n j e))
                (Kept-if (id == j) (T.row j q.rows) _ (λ x.
                  subst
                    (λ k.
                      Kept (T.row k q.rows)
                        (update_if (is_claimable q.now) (touch q.now f) (T.row id q.rows)))
                    ((eq_iff id j).0 x) (Kept-update_if q.now (touch q.now f) (T.row id q.rows)))))

  find-rows : (id : String) (q : Queue R) → (find_by_id T submit id q).1 ≡ q
  unfolding find_by_id
  find-rows id q = ground arith

  read_back-rows : (id : String) (n : ℕ) (q : Queue R) → (read_back T submit id n q).1 ≡ q
  unfolding read_back
  read_back-rows id n q = elim (Bool-cases (eqb n 0)) [
    | inl h ↦ rw h refl
    | inr h ↦ rw h (find-rows id q)
  ]

  Keeps-same : (t : R) (q : Queue R) → q.rows ≡ t → Keeps t q.rows
  Keeps-same t q e j = rw e (Kept-refl (T.row j t))

  -- The row at the id, if there is one, is not settled.
  abbrev Unsettled : String → R → Type 0
  Unsettled id t = (x : FailedTransaction) → T.row id t ≡ some x → is_settled x.status ≡ false

  claimed-Unsettled :
      (id : String) (now n : ℕ) (t t' : R)
      → T.update_many id (is_claimable now) (touch now to_replaying) t ≡ some (n, t')
      → eqb n 0 ≡ false
      → Unsettled id t'
  claimed-Unsettled id now n t t' e h x at = elim (Option-cases (T.row id t)) [
    | inl m ↦ absurd (
        ground (
          arith,
          m,
          laws.update_many_count id (is_claimable now) (touch now to_replaying) t t' n e,
        ))
    | inr (old, m) ↦ ground (
      arith,
      m,
      at,
      eq_refl id,
      laws.update_many_count id (is_claimable now) (touch now to_replaying) t t' n e,
      laws.row-update_many id (is_claimable now) (touch now to_replaying) t t' n id e,
    )
  ]

  claim_for_replay-Unsettled :
      (id : String) (q q' : Queue R) (r : FailedTransaction)
      → claim_for_replay T submit id q ≡ (ok (some r), q')
      → Unsettled id q'.rows
  unfolding claim_for_replay claim read_back
  claim_for_replay-Unsettled id q q' r e =
      go (T.update_many id (is_claimable q.now) (touch q.now to_replaying) q.rows) refl
    where
      go :
          (o : Option (ℕ × R))
          → T.update_many id (is_claimable q.now) (touch q.now to_replaying) q.rows ≡ o
          → Unsettled id q'.rows
      go none p = absurd (ground (arith, e))
      go (some (n, t)) p =
          let run : claim_for_replay T submit id q
              ≡ read_back T submit id n (record q { rows = t }) =
            ground arith in
          let same : q'.rows ≡ t =
            ap (λ x. x.1.rows) (sym e ∙ run)
            ∙ ap (λ x. x.rows) (read_back-rows id n (record q { rows = t })) in
          elim (Bool-cases (eqb n 0)) [
            | inl h ↦ absurd (ground (arith, run, e))
            | inr h ↦ subst (Unsettled id) (sym same) (claimed-Unsettled id q.now n q.rows t p h)
          ]

  claim_for_replay-Keeps :
      (id : String) (q : Queue R) → Keeps q.rows (claim_for_replay T submit id q).1.rows
  unfolding claim_for_replay
  claim_for_replay-Keeps id q =
      Keeps-bind q.rows (claim T submit id to_replaying) (read_back T submit id) q
        (claim-Keeps id to_replaying q)
        (λ n q' _.
          Keeps-same q'.rows (read_back T submit id n q').1
            (ap (λ x. x.rows) (read_back-rows id n q')))

  -- A write to a row that is not settled.
  Unsettled-Keeps :
      (id : String) (f : FailedTransaction → FailedTransaction) (q : Queue R)
      → Unsettled id q.rows
      → Keeps q.rows (update T submit id f q).1.rows
  Unsettled-Keeps id f q u = update-Keeps id f q (λ x at h. absurd (cc (u x at, h)))

  update-Unsettled :
      (id : String) (f : FailedTransaction → FailedTransaction) (q q' : Queue R)
      (r : FailedTransaction)
      → ((x : FailedTransaction) → is_settled (f x).status ≡ false)
      → update T submit id f q ≡ (ok r, q')
      → Unsettled id q'.rows
  unfolding update
  update-Unsettled id f q q' r h e = go (T.update id (touch q.now f) q.rows) refl
    where
      go :
          (o : Option (FailedTransaction × R))
          → T.update id (touch q.now f) q.rows ≡ o
          → Unsettled id q'.rows
      go none p = λ x at. absurd (ground (arith, e))
      go (some (y, t)) p = λ x at.
          let (old, found, _) = laws.update_found id (touch q.now f) q.rows t y p in
          let same : q'.rows ≡ t = ground (arith, e) in
          let here : some x ≡ some (touch q.now f old) =
            sym at
            ∙ ap (T.row id) same
            ∙ laws.row-update id (touch q.now f) q.rows t y id p
            ∙ ground (arith, found, eq_refl id) in
          ap (λ z. is_settled z.status) (some-injective _ _ here) ∙ h old

  give_back-Keeps :
      (id message : String) (failure : Failure) (q : Queue R)
      → Unsettled id q.rows
      → Keeps q.rows (give_back T submit id message failure q).1.rows
  unfolding give_back release_claim increment_attempts
  give_back-Keeps id message failure q u =
      Keeps-bind q.rows (release_claim T submit id)
        (λ _. increment_attempts T submit id message >> raise failure) q
        (Unsettled-Keeps id to_pending q u)
        (λ r q1 e.
          Keeps-bind q1.rows (increment_attempts T submit id message) (λ _. raise failure) q1
            (Unsettled-Keeps id (bumped message) q1
              (update-Unsettled id to_pending q q1 r (λ _. refl) e))
            (λ _ q2 _. Keeps-same q2.rows q2 refl))

  run_replay-Keeps :
      (id message : String) (r : FailedTransaction) (q : Queue R)
      → Unsettled id q.rows
      → Keeps q.rows (run_replay T submit id message r q).1.rows
  unfolding run_replay finish_replay mark_replayed
  run_replay-Keeps id message r q u = go (submit q.submitted r)
    where
      go :
          (o : Outcome String)
          → Keeps q.rows
              (finish_replay T submit id message o
                (record q { submitted = id ∷ q.submitted })).1.rows
      go (ok tx) =
          Unsettled-Keeps id (to_replayed q.now tx) (record q { submitted = id ∷ q.submitted }) u
      go (err f) = give_back-Keeps id message f (record q { submitted = id ∷ q.submitted }) u

  after_claim-Keeps :
      (id message : String) (o : Option FailedTransaction) (q : Queue R)
      → ((r : FailedTransaction) → o ≡ some r → Unsettled id q.rows)
      → Keeps q.rows ((or_conflict T submit o >>= run_replay T submit id message) q).1.rows
  unfolding or_conflict
  after_claim-Keeps id message none q u = Keeps-same q.rows q refl
  after_claim-Keeps id message (some r) q u = run_replay-Keeps id message r q (u r refl)

  get-rows : (id : String) (q : Queue R) → (get T submit id q).1 ≡ q
  unfolding get or_missing find_by_id
  get-rows id q = ground arith

  get-Keeps : (id : String) (q : Queue R) → Keeps q.rows (get T submit id q).1.rows
  get-Keeps id q = Keeps-same q.rows (get T submit id q).1 (ap (λ x. x.rows) (get-rows id q))

  replay_claimed-Keeps :
      (id message : String) (q : Queue R)
      → Keeps q.rows (replay_claimed T submit id message q).1.rows
  unfolding replay_claimed
  replay_claimed-Keeps id message q =
      Keeps-bind q.rows (claim_for_replay T submit id)
        (λ o. or_conflict T submit o >>= run_replay T submit id message) q
        (claim_for_replay-Keeps id q)
        (λ o q' e.
          after_claim-Keeps id message o q'
            (λ r p. claim_for_replay-Unsettled id q q' r (e ∙ ap (λ x. (ok x, q')) p)))

  replay_loaded-Keeps :
      (id message : String) (r : FailedTransaction) (q : Queue R)
      → Keeps q.rows (replay_loaded T submit id message r q).1.rows
  unfolding replay_loaded
  replay_loaded-Keeps id message r q = elim (Bool-cases (is_claimable q.now r)) [
    | inl h ↦ rw h (replay_claimed-Keeps id message q)
    | inr h ↦ rw h (Keeps-same q.rows q refl)
  ]

  -- Replaying any id loses no row, and leaves the status, the transaction hash and the attempts of
  -- each row that was replayed or abandoned before.
  pub replay-Keeps :
      (id message : String) (q : Queue R) → Keeps q.rows (replay T submit id message q).1.rows
  unfolding replay
  replay-Keeps id message q =
      Keeps-bind q.rows (get T submit id) (replay_loaded T submit id message) q (get-Keeps id q)
        (λ r q' _. replay_loaded-Keeps id message r q')

  conflict-rows :
      (o : Option FailedTransaction) (q : Queue R) → (or_conflict T submit o q).1.rows ≡ q.rows
  unfolding or_conflict
  conflict-rows none q = refl
  conflict-rows (some r) q = refl

  mark_abandoned-Keeps :
      (id : String) (q : Queue R)
      → Keeps q.rows ((mark_abandoned T submit id >>= or_conflict T submit) q).1.rows
  unfolding mark_abandoned or_conflict
  mark_abandoned-Keeps id q =
      Keeps-bind q.rows (mark_abandoned T submit id) (or_conflict T submit) q
        (Keeps-bind q.rows (claim T submit id (to_abandoned q.now)) (read_back T submit id) q
          (claim-Keeps id (to_abandoned q.now) q)
          (λ n q' _.
            Keeps-same q'.rows (read_back T submit id n q').1
              (ap (λ x. x.rows) (read_back-rows id n q'))))
        (λ o q' _. Keeps-same q'.rows (or_conflict T submit o q').1 (conflict-rows o q'))

  -- Abandoning any id loses no row, and leaves the outcome of each row settled before.
  pub abandon-Keeps : (id : String) (q : Queue R) → Keeps q.rows (abandon T submit id q).1.rows
  unfolding abandon abandon_loaded
  abandon-Keeps id q =
      Keeps-bind q.rows (get T submit id) (abandon_loaded T submit id) q (get-Keeps id q) (λ r q' _.
        elim (Bool-cases (is_claimable q'.now r)) [
          | inl h ↦ rw h (mark_abandoned-Keeps id q')
          | inr h ↦ rw h (Keeps-same q'.rows q' refl)
        ])

  -- Marking a row reviewed leaves its outcome.
  pub mark_reviewed-Keeps :
      (id : String) (q : Queue R) → Keeps q.rows (mark_reviewed T submit id q).1.rows
  unfolding mark_reviewed
  mark_reviewed-Keeps id q =
      Keeps-bind q.rows (get T submit id) (λ _. update T submit id (to_reviewed q.now)) q
        (get-Keeps id q) (λ r q' _. update-Keeps id (to_reviewed q.now) q' (λ x _ _. refl))
