-- ===== src/Tests/DeadLetters.antt =====
-- A dead-letter queue in memory.
use trust_link_backend.Prelude.{
  String, none, some, List, [], ◌∷◌, true, false, ◌≡◌, refl, ◌⊎◌, ◌==◌, if◌then◌else◌, arith,
}
use trust_link_backend.Exec.{Outcome, ok}
use trust_link_backend.Database.Memory
use trust_link_backend.Database.Memory.{Rows, table, table-IsTable}
use trust_link_backend.Dlq.{
  Status, pending_review, abandoned, FailedTransaction, Queue, is_claimable, replay, abandon,
}
use trust_link_backend.Dlq.Safety.{outcome}
use trust_link_backend.Dlq.Submission.{Refused, refused, replay_once}
use trust_link_backend.Dlq.Run.{Operation, replay_op, abandon_op, tick_op, run, run-settled}

abbrev letter : Status → FailedTransaction
letter s = record {
  id = "f1";
  operation = "submitAutoRelease";
  escrow_id = some "e1";
  error_message = "timeout";
  attempts = 1;
  status = s;
  last_replay_tx_hash = none;
  reviewed_at = none;
  replayed_at = none;
  created_at = 1;
  updated_at = 1;
}

abbrev queue : Status → Queue (Rows FailedTransaction)
queue s = record {
  now = 1000;
  rows = record { ids = "f1" ∷ []; at = λ j. if "f1" == j then some (letter s) else none };
  submitted = [];
}

abbrev rows : (r : FailedTransaction) → String
rows r = r.id

abbrev submission : List String → FailedTransaction → Outcome String
submission _ _ = ok "tx"

at_f1 : (s : Status) → Memory.row "f1" (queue s).rows ≡ some (letter s)
unfolding Memory.row Memory.contains
at_f1 s = ground arith

abbrev week : List Operation
week = replay_op submission "f1" "timeout" ∷ tick_op 600000 ∷ abandon_op "f1" ∷ []

run-settled_example :
    (r' : FailedTransaction) × (Memory.row "f1" (run (table rows) week (queue abandoned)).rows
      ≡ some r')
    × (outcome r' ≡ outcome (letter abandoned))
run-settled_example =
    run-settled (table rows) (table-IsTable rows) week (queue abandoned) "f1" (letter abandoned)
      (at_f1 abandoned) refl

replay_once_example :
    ((replay (table rows) submission "f1" "timeout" (queue pending_review)).1.submitted ≡ [])
    ⊎ ((r : FailedTransaction) × (Memory.row "f1" (queue pending_review).rows ≡ some r)
        × (is_claimable 1000 r ≡ true)
        × ((replay (table rows) submission "f1" "timeout" (queue pending_review)).1.submitted
            ≡ "f1" ∷ []))
replay_once_example =
    replay_once (table rows) (table-IsTable rows) submission "f1" "timeout" (queue pending_review)

shut :
    (r : FailedTransaction)
    → Memory.row "f1" (queue abandoned).rows ≡ some r
    → is_claimable 1000 r ≡ false
unfolding Memory.row Memory.contains
shut r h = ground (arith, h)

refused_example :
    Refused
      (table rows)
      (table-IsTable rows)
      submission
      "f1"
      (replay (table rows) submission "f1" "timeout")
      (queue abandoned)
    × Refused
        (table rows)
        (table-IsTable rows)
        submission
        "f1"
        (abandon (table rows) submission "f1")
        (queue abandoned)
refused_example =
    refused (table rows) (table-IsTable rows) submission "f1" "timeout" (queue abandoned) shut
