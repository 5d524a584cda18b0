-- ===== src/Dlq.antt =====
-- src/dlq: the dead-letter queue of failed contract submissions (dlq.service.ts and
-- failed-transaction.repository.ts). The free-form ledger feedback of a row is not modelled, nor is
-- the paginated list.
pub mod Safety
pub mod Submission
pub mod Run
use trust_link_backend.Prelude.{
  ℕ, ◌+◌, ◌*◌, suc, String, Option, none, some, List, ◌∷◌, Bool, not, ◌&&◌, ◌||◌, if◌then◌else◌,
  leb, eqb,
}
use trust_link_backend.Exec.{
  Exec, Outcome, ok, err, Failure, rejected, not_found, conflict, pure, raise, continue, ◌>>=◌,
  ◌>>◌,
}
use trust_link_backend.Database.{Table}

pub data Status : Type 0 where
  pending_review replaying replayed abandoned : Status

pub record FailedTransaction : Type 0 where
  pub id : String
  pub operation : String
  pub escrow_id : Option String
  pub error_message : String
  pub attempts : ℕ
  pub status : Status
  pub last_replay_tx_hash : Option String
  pub reviewed_at : Option ℕ
  pub replayed_at : Option ℕ
  pub created_at : ℕ
  pub updated_at : ℕ

-- `REPLAYING_STALE_THRESHOLD_MS`
abbrev pub stale_threshold : ℕ
stale_threshold = 5 * 60 * 1000

abbrev pub is_pending : Status → Bool
is_pending pending_review = Bool.true
is_pending _ = Bool.false

abbrev pub is_replaying : Status → Bool
is_replaying replaying = Bool.true
is_replaying _ = Bool.false

-- `updatedAt <= now - threshold`, the condition of the service and, in the `where` of both claims,
-- of the database
abbrev pub is_claimable : ℕ → FailedTransaction → Bool
is_claimable now r =
    is_pending r.status || (is_replaying r.status && leb (r.updated_at + stale_threshold) now)

-- The rows, and the ids whose operation was submitted again, newest first.
pub record Queue (R : Type 0) : Type 0 where
  pub now : ℕ
  pub rows : R
  pub submitted : List String

pub record Enqueue : Type 0 where
  pub operation : String
  pub escrow_id : Option String
  pub error_message : String
  pub attempts : Option ℕ

abbrev pub enqueued : String → Enqueue → ℕ → FailedTransaction
enqueued uuid input now = record {
  id = uuid;
  operation = input.operation;
  escrow_id = input.escrow_id;
  error_message = input.error_message;
  attempts = elim input.attempts [ none ↦ 1 | some n ↦ n ];
  status = pending_review;
  last_replay_tx_hash = none;
  reviewed_at = none;
  replayed_at = none;
  created_at = now;
  updated_at = now;
}

-- Prisma stamps `@updatedAt` on each write.
abbrev pub touch :
    ℕ → (FailedTransaction → FailedTransaction) → FailedTransaction → FailedTransaction
touch now f r = record (f r) { updated_at = now }

-- The `data` of each write.
abbrev pub to_replaying : FailedTransaction → FailedTransaction
to_replaying r = record r { status = replaying }

abbrev pub to_pending : FailedTransaction → FailedTransaction
to_pending r = record r { status = pending_review }

abbrev pub bumped : String → FailedTransaction → FailedTransaction
bumped message r = record r { attempts = suc r.attempts; error_message = message }

abbrev pub to_replayed : ℕ → String → FailedTransaction → FailedTransaction
to_replayed now tx r = record r {
  status = replayed;
  replayed_at = some now;
  last_replay_tx_hash = some tx;
}

abbrev pub to_abandoned : ℕ → FailedTransaction → FailedTransaction
to_abandoned now r = record r { status = abandoned; reviewed_at = some now }

abbrev pub to_reviewed : ℕ → FailedTransaction → FailedTransaction
to_reviewed now r = record r { reviewed_at = some now }

-- `replay` is the `ReplayFn`: what the submission returns, given the ids submitted so far.
module _ {R : Type 0} (T : Table FailedTransaction R)
    (submit : List String → FailedTransaction → Outcome String) where
  pub enqueue : String → Enqueue → Exec (Queue R) FailedTransaction
  enqueue uuid input q = elim (T.create (enqueued uuid input q.now) q.rows) [
    | none ↦ (err rejected, q)
    | some t ↦ (ok (enqueued uuid input q.now), record q { rows = t })
  ]

  find_by_id : String → Exec (Queue R) (Option FailedTransaction)
  find_by_id id q = elim (T.find_unique id q.rows) [ none ↦ (err rejected, q) | some o ↦ (ok o, q) ]

  update : String → (FailedTransaction → FailedTransaction) → Exec (Queue R) FailedTransaction
  update id f q = elim (T.update id (touch q.now f) q.rows) [
    | none ↦ (err rejected, q)
    | some (r, t) ↦ (ok r, record q { rows = t })
  ]

  -- `updateMany` on one claimable row
  claim : String → (FailedTransaction → FailedTransaction) → Exec (Queue R) ℕ
  claim id f q = elim (T.update_many id (is_claimable q.now) (touch q.now f) q.rows) [
    | none ↦ (err rejected, q)
    | some (n, t) ↦ (ok n, record q { rows = t })
  ]

  read_back : String → ℕ → Exec (Queue R) (Option FailedTransaction)
  unfolding find_by_id
  read_back id n = if eqb n 0 then pure none else find_by_id id

  claim_for_replay : String → Exec (Queue R) (Option FailedTransaction)
  unfolding claim read_back
  claim_for_replay id = do n ← claim id to_replaying; read_back id n

  mark_abandoned : String → Exec (Queue R) (Option FailedTransaction)
  unfolding claim read_back
  mark_abandoned id q = (do n ← claim id (to_abandoned q.now); read_back id n) q

  release_claim : String → Exec (Queue R) FailedTransaction
  unfolding update
  release_claim id = update id to_pending

  increment_attempts : String → String → Exec (Queue R) FailedTransaction
  unfolding update
  increment_attempts id message = update id (bumped message)

  mark_replayed : String → String → Exec (Queue R) FailedTransaction
  unfolding update
  mark_replayed id tx q = update id (to_replayed q.now tx) q

  or_missing : Option FailedTransaction → Exec (Queue R) FailedTransaction
  or_missing none = raise not_found
  or_missing (some r) = pure r

  -- `get`, and `requireRecord`
  pub get : String → Exec (Queue R) FailedTransaction
  unfolding find_by_id or_missing
  get id = do found ← find_by_id id; or_missing found

  or_conflict : Option FailedTransaction → Exec (Queue R) FailedTransaction
  or_conflict none = raise conflict
  or_conflict (some r) = pure r

  -- `message` stands for the text of the error.
  give_back : String → String → Failure → Exec (Queue R) FailedTransaction
  unfolding release_claim increment_attempts
  give_back id message failure = do release_claim id; increment_attempts id message; raise failure

  finish_replay : String → String → Outcome String → Exec (Queue R) FailedTransaction
  unfolding give_back mark_replayed
  finish_replay id message (ok tx) = mark_replayed id tx
  finish_replay id message (err failure) = give_back id message failure

  run_replay : String → String → FailedTransaction → Exec (Queue R) FailedTransaction
  unfolding finish_replay
  run_replay id message r q =
      finish_replay id message (submit q.submitted r) (record q { submitted = id ∷ q.submitted })

  replay_claimed : String → String → Exec (Queue R) FailedTransaction
  unfolding claim_for_replay or_conflict run_replay
  replay_claimed id message = do
    found ← claim_for_replay id
    r ← or_conflict found
    run_replay id message r

  replay_loaded : String → String → FailedTransaction → Exec (Queue R) FailedTransaction
  unfolding replay_claimed
  replay_loaded id message r q =
      (if is_claimable q.now r then replay_claimed id message else raise conflict) q

  pub replay : String → String → Exec (Queue R) FailedTransaction
  unfolding replay_loaded
  replay id message = do r ← get id; replay_loaded id message r

  abandon_loaded : String → FailedTransaction → Exec (Queue R) FailedTransaction
  unfolding mark_abandoned or_conflict
  abandon_loaded id r q =
      (if is_claimable q.now r
          then (do found ← mark_abandoned id; or_conflict found)
          else raise conflict)
        q

  pub abandon : String → Exec (Queue R) FailedTransaction
  unfolding abandon_loaded
  abandon id = do r ← get id; abandon_loaded id r

  pub mark_reviewed : String → Exec (Queue R) FailedTransaction
  unfolding update
  mark_reviewed id q = (do get id; update id (to_reviewed q.now)) q
