-- ===== src/Dlq/Submission.antt =====
-- src/dlq: which operations are submitted again, and which requests are refused.
use trust_link_backend.Prelude.{
  String, Option, none, some, List, ◌∷◌, true, false, ◌≡◌, refl, ap, ◌∙◌, ◌⊎◌, inl, inr, arith,
  Bool-cases, Option-cases,
}
use trust_link_backend.Exec.{
  Exec, Outcome, ok, err, rejected, not_found, conflict, raise, continue, ◌>>=◌,
}
use trust_link_backend.Database.{Table, IsTable}
use trust_link_backend.Dlq.{
  FailedTransaction, Queue, is_claimable, to_pending, bumped, to_replayed, find_by_id, update,
  claim, read_back, claim_for_replay, release_claim, increment_attempts, mark_replayed, or_missing,
  get, or_conflict, give_back, finish_replay, run_replay, replay_claimed, replay_loaded, replay,
  abandon_loaded, abandon,
}

module _ {R : Type 0} (T : Table FailedTransaction R) (laws : IsTable T)
    (submit : List String → FailedTransaction → Outcome String) where
  -- A request that is refused: its query is rejected, or there is no row, or one that cannot be
  -- claimed.
  abbrev pub Refused : String → Exec (Queue R) FailedTransaction → Queue R → Type 0
  Refused id m q =
      (T.find_unique id q.rows ≡ none) × (m q ≡ (err rejected, q))
      ⊎ (T.row id q.rows ≡ none) × (m q ≡ (err not_found, q))
      ⊎ ((r : FailedTransaction) × (T.row id q.rows ≡ some r) × (m q ≡ (err conflict, q)))

  -- Where no row at the id is pending review or stuck in a replay, a replay or an abandonment of it
  -- is refused: with the error of the query if that is rejected, with 404 if there is no row, and
  -- with 409 if there is one; and nothing is written or submitted.
  pub refused :
      (id message : String) (q : Queue R)
      → ((r : FailedTransaction) → T.row id q.rows ≡ some r → is_claimable q.now r ≡ false)
      → Refused id (replay T submit id message) q × Refused id (abandon T submit id) q
  unfolding replay replay_loaded abandon abandon_loaded get find_by_id or_missing
  refused id message q h = elim (Option-cases (T.find_unique id q.rows)) [
    | inl e ↦ (inl (e, ground arith), inl (e, ground arith))
    | inr (none, e) ↦
        let missing = laws.row-find_unique id q.rows none e in
        (inr (inl (missing, ground arith)), inr (inl (missing, ground arith)))
    | inr (some r, e) ↦
        let at = laws.row-find_unique id q.rows (some r) e in
        let shut = h r at in (inr (inr (r, at, ground arith)), inr (inr (r, at, ground arith)))
  ]

  update-submitted :
      (id : String) (f : FailedTransaction → FailedTransaction) (q : Queue R)
      → (update T submit id f q).1.submitted ≡ q.submitted
  unfolding update
  update-submitted id f q = ground arith

  bind-submitted :
      {A B : Type 0} (m : Exec (Queue R) A) (k : A → Exec (Queue R) B) (q : Queue R)
      (s : List String)
      → (m q).1.submitted ≡ s
      → ((a : A) (q' : Queue R) → (k a q').1.submitted ≡ q'.submitted)
      → ((m >>= k) q).1.submitted ≡ s
  bind-submitted {A = A} m k q s e rest = go (m q) e
    where
      go : (x : Outcome A × Queue R) → x.1.submitted ≡ s → (continue k x).1.submitted ≡ s
      go (ok a, q') p = rest a q' ∙ p
      go (err _, q') p = p

  finish_replay-submitted :
      (o : Outcome String) (id message : String) (q : Queue R)
      → (finish_replay T submit id message o q).1.submitted ≡ q.submitted
  unfolding finish_replay give_back mark_replayed release_claim increment_attempts
  finish_replay-submitted (ok tx) id message q = update-submitted id (to_replayed q.now tx) q
  finish_replay-submitted (err f) id message q =
      bind-submitted (release_claim T submit id)
        (λ _. increment_attempts T submit id message >>= λ _. raise f) q q.submitted
        (update-submitted id to_pending q)
        (λ _ q'.
          bind-submitted (increment_attempts T submit id message) (λ _. raise f) q' q'.submitted
            (update-submitted id (bumped message) q') (λ _ _. refl))

  claim_for_replay-submitted :
      (id : String) (q : Queue R) → (claim_for_replay T submit id q).1.submitted ≡ q.submitted
  unfolding claim_for_replay claim read_back find_by_id
  claim_for_replay-submitted id q = ground arith

  -- Nothing, or this operation once.
  abbrev Once : String → List String → List String → Type 0
  Once id before later = (later ≡ before) ⊎ (later ≡ id ∷ before)

  replay_claimed-Once :
      (id message : String) (q : Queue R)
      → Once id q.submitted (replay_claimed T submit id message q).1.submitted
  unfolding replay_claimed or_conflict run_replay
  replay_claimed-Once id message q =
      go (claim_for_replay T submit id q) (claim_for_replay-submitted id q)
    where
      go :
          (x : Outcome (Option FailedTransaction) × Queue R)
          → x.1.submitted ≡ q.submitted
          → Once id q.submitted
              (continue
                (λ o. or_conflict T submit o >>= run_replay T submit id message)
                x).1.submitted
      go (err _, q') p = inl p
      go (ok none, q') p = inl p
      go (ok (some r), q') p = inr (
          finish_replay-submitted (submit q'.submitted r) id message
            (record q' { submitted = id ∷ q'.submitted })
          ∙ ap (λ s. id ∷ s) p)

  -- A replay submits the operation at most once, and only if its row was pending review, or stuck in
  -- a replay for five minutes.
  pub replay_once :
      (id message : String) (q : Queue R)
      → ((replay T submit id message q).1.submitted ≡ q.submitted)
        ⊎ ((r : FailedTransaction) × (T.row id q.rows ≡ some r)
            × (is_claimable q.now r ≡ true)
            × ((replay T submit id message q).1.submitted ≡ id ∷ q.submitted))
  unfolding replay replay_loaded get find_by_id or_missing
  replay_once id message q = elim (Option-cases (T.find_unique id q.rows)) [
    | inl e ↦ inl (ground arith)
    | inr (none, e) ↦ inl (ground arith)
    | inr (some r, e) ↦ elim (Bool-cases (is_claimable q.now r)) [
      | inr h ↦ inl (ground arith)
      | inl h ↦ elim (replay_claimed-Once id message q) [
        | inl s ↦ inl (ground arith)
        | inr s ↦ inr (r, laws.row-find_unique id q.rows (some r) e, h, ground arith)
      ]
    ]
  ]
