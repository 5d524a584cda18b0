-- ===== src/Dlq/Run.antt =====
-- src/dlq: any sequence of the queue's operations.
use trust_link_backend.Prelude.{
  ℕ, ◌+◌, String, Option, none, some, List, [], ◌∷◌, true, ◌≡◌, refl, sym, ap, ◌∙◌, ◌==◌, eq_iff,
}
use mathlib.Core.Path.{subst}
use trust_link_backend.Exec.{Outcome, ok}
use trust_link_backend.Database.{Table, IsTable}
use trust_link_backend.Dlq.{
  FailedTransaction, Queue, Enqueue, enqueued, enqueue, replay, abandon, mark_reviewed,
}
use trust_link_backend.Dlq.Safety.{
  is_settled, outcome, Kept, Kept-refl, Kept-if, Kept-trans, replay-Keeps, abandon-Keeps,
  mark_reviewed-Keeps,
}

pub data Operation : Type 0 where
  enqueue_op : String → Enqueue → Operation
  -- The submission's answer may differ from one replay to the next.
  replay_op : (List String → FailedTransaction → Outcome String) → String → String → Operation
  abandon_op mark_reviewed_op : String → Operation
  tick_op : ℕ → Operation

module _ {R : Type 0} (T : Table FailedTransaction R) where
  perform : Operation → Queue R → Queue R
  perform (enqueue_op uuid input) q = (enqueue T (λ _ _. ok "") uuid input q).1
  perform (replay_op submit id message) q = (replay T submit id message q).1
  perform (abandon_op id) q = (abandon T (λ _ _. ok "") id q).1
  perform (mark_reviewed_op id) q = (mark_reviewed T (λ _ _. ok "") id q).1
  perform (tick_op n) q = record q { now = q.now + n }

  pub run : List Operation → Queue R → Queue R
  unfolding perform
  run [] q = q
  run (o ∷ os) q = run os (perform o q)

  module _ (laws : IsTable T) where
    created-Keeps :
        (r : FailedTransaction) (t t' : R)
        → T.create r t ≡ some t'
        → (j : String) → Kept (T.row j t) (T.row j t')
    created-Keeps r t t' e j = subst (Kept (T.row j t)) (sym (laws.row-create r t t' j e)) (
        Kept-if (T.key r == j) (T.row j t) (some r) (λ x.
          subst (λ o. Kept o (some r))
            (sym
              (ap (λ k. T.row k t) (sym ((eq_iff (T.key r) j).0 x)) ∙ laws.create_fresh r t t' e))
            tt))

    perform-Keeps :
        (o : Operation) (q : Queue R) (j : String)
        → Kept (T.row j q.rows) (T.row j (perform o q).rows)
    unfolding perform enqueue
    perform-Keeps (enqueue_op uuid input) q j =
        go (T.create (enqueued uuid input q.now) q.rows) refl
      where
        go :
            (o : Option R)
            → T.create (enqueued uuid input q.now) q.rows ≡ o
            → Kept (T.row j q.rows) (T.row j (enqueue T (λ _ _. ok "") uuid input q).1.rows)
        go none e = rw (e, enqueue) (Kept-refl (T.row j q.rows))
        go (some t) e = rw (e, enqueue) (created-Keeps (enqueued uuid input q.now) q.rows t e j)
    perform-Keeps (replay_op submit id message) q j = replay-Keeps T laws submit id message q j
    perform-Keeps (abandon_op id) q j = abandon-Keeps T laws (λ _ _. ok "") id q j
    perform-Keeps (mark_reviewed_op id) q j = mark_reviewed-Keeps T laws (λ _ _. ok "") id q j
    perform-Keeps (tick_op n) q j = Kept-refl (T.row j q.rows)

    run-Keeps :
        (os : List Operation) (q : Queue R) (j : String)
        → Kept (T.row j q.rows) (T.row j (run os q).rows)
    unfolding run
    run-Keeps [] q j = Kept-refl (T.row j q.rows)
    run-Keeps (o ∷ os) q j =
        Kept-trans (T.row j q.rows) (T.row j (perform o q).rows)
          (T.row j (run os (perform o q)).rows) (perform-Keeps o q j) (run-Keeps os (perform o q) j)

    Kept-row :
        (r : FailedTransaction) (o : Option FailedTransaction)
        → Kept (some r) o
        → is_settled r.status ≡ true
        → (r' : FailedTransaction) × (o ≡ some r') × (outcome r' ≡ outcome r)
    Kept-row r none k h = absurd k
    Kept-row r (some r') k h = (r', refl, k h)

    -- A dead letter that was replayed or abandoned is never lost or reopened: after any sequence of
    -- operations its status, its transaction hash and its attempts are what they were, whichever
    -- queries and submissions fail.
    pub run-settled :
        (os : List Operation) (q : Queue R) (id : String) (r : FailedTransaction)
        → T.row id q.rows ≡ some r
        → is_settled r.status ≡ true
        → (r' : FailedTransaction) × (T.row id (run os q).rows ≡ some r') × (outcome r' ≡ outcome r)
    run-settled os q id r at h =
        Kept-row r (T.row id (run os q).rows)
          (subst (λ o. Kept o (T.row id (run os q).rows)) at (run-Keeps os q id)) h
