-- ===== src/Notification.antt =====
-- src/notifications/notification-retry-queue.service.ts and notification-retry-queue.types.ts: the
-- retries that run in the process when Redis is not configured. `Math.random()` is `sample / scale`,
-- and the arithmetic on it is exact where JavaScript's is floating point.
pub mod Retry
pub mod Dispatch
pub mod Notify
pub mod Calls
pub mod Bounds
use trust_link_backend.Prelude.{
  ℕ, zero, suc, ◌+◌, ◌-◌, ◌*◌, ◌/◌, ◌^◌, String, Option, none, some, List, ◌∷◌, Bool, true, false,
  if◌then◌else◌, leb, ltb,
}
use trust_link_backend.Exec.{Outcome, ok, err}

-- `NotificationRetryBackoff`
pub record Backoff : Type 0 where
  pub attempts : ℕ
  pub delay : ℕ
  pub max_delay : Option ℕ

abbrev at_most : ℕ → Option ℕ → ℕ
at_most raw none = raw
at_most raw (some m) = if leb raw m then raw else m

-- `computeBackoffDelay`: `round(capped + capped * 0.25 * (sample / scale * 2 - 1))`
pub compute_backoff_delay : ℕ → Backoff → ℕ → ℕ → ℕ
compute_backoff_delay attempt backoff sample scale =
    if leb attempt 1
    then 0
    else let capped = at_most (backoff.delay * 2 ^ (attempt - 2)) backoff.max_delay in
      (2 * capped * (3 * scale + 2 * sample) + 4 * scale) / (8 * scale)

-- The updates of the notification's row, which are logged if they fail.
pub data Mark : Type 0 where
  sent attempt_failed : ℕ → Mark
  failed : Mark

-- What a job did: how often it was dispatched, its marks, the delays that it slept, and the dead
-- letters with the attempts they exhausted; all newest first.
pub record Progress : Type 0 where
  pub dispatches : ℕ
  pub marks : List Mark
  pub delays : List ℕ
  pub dead_letters : List ℕ

-- `dispatch` is the dispatcher's answer at each attempt, `stored` whether the job has a notification's
-- row, `sample` the random numbers.
module _ (backoff : Backoff) (dispatch : ℕ → Outcome (Unit {0})) (stored : Bool) (sample : ℕ → ℕ)
    (scale : ℕ) where
  mark : Mark → Progress → Progress
  mark m p = if stored then record p { marks = m ∷ p.marks } else p

  -- `sleep(computeBackoffDelay(attempt + 1))`, unless it was the last attempt
  pause : ℕ → Progress → Progress
  unfolding compute_backoff_delay
  pause attempt p = if leb backoff.attempts attempt then p else record p {
    delays = compute_backoff_delay (suc attempt) backoff (sample attempt) scale ∷ p.delays;
  }

  -- `recordDeadLetter`
  record_dead_letter : Progress → Progress
  unfolding mark
  record_dead_letter p =
      let q = mark failed p in record q { dead_letters = backoff.attempts ∷ q.dead_letters }

  -- The loop, with `n` attempts left.
  attempts_left : ℕ → Progress → Progress
  unfolding mark pause record_dead_letter
  attempts_left zero p = record_dead_letter p
  attempts_left (suc n) p =
      let attempt = backoff.attempts - n in
      let q = record p { dispatches = suc p.dispatches } in
      elim (dispatch attempt) [
        | ok _ ↦ mark (sent (attempt - 1)) q
        | err _ ↦ attempts_left n (pause attempt (mark (attempt_failed attempt) q))
      ]

  -- `processInProcess`, for a channel with a dispatcher
  pub process_in_process : Progress → Progress
  unfolding attempts_left
  process_in_process = attempts_left backoff.attempts
