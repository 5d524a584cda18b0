-- ===== src/Notification/Retry.antt =====
-- src/notifications/notification-retry-queue.service.ts: how a job ends.
use trust_link_backend.Prelude.{ℕ, ◌+◌, ◌-◌, ◌≤◌, ◌<◌, ◌∷◌, Bool, true, false, ◌≡◌, ◌⊎◌}
use trust_link_backend.Exec.{Outcome, ok, err}
use trust_link_backend.Notification.{Backoff, Progress}

abbrev is_ok : Outcome (Unit {0}) → Bool
is_ok (ok _) = true
is_ok (err _) = false

module _ (backoff : Backoff) (dispatch : ℕ → Outcome (Unit {0})) (stored : Bool) (random : ℕ → ℕ)
    (scale : ℕ) where
  -- Every attempt after `from` and up to `to` failed.
  abbrev pub Failed : ℕ → ℕ → Type 0
  Failed from to = (k : ℕ) → from < k → k ≤ to → is_ok (dispatch k) ≡ false

  -- The attempt `k` succeeded, the first after `from`: it was the last dispatch, without dead letter.
  abbrev pub Delivered : ℕ → Progress → Progress → Type 0
  Delivered from p p' =
      (k : ℕ) × (from < k)
      × (k ≤ backoff.attempts)
      × Failed from (k - 1)
      × (is_ok (dispatch k) ≡ true)
      × (p'.dispatches + from ≡ p.dispatches + k)
      × (p'.dead_letters ≡ p.dead_letters)

  -- All attempts after `from` failed, each was dispatched once, and one dead letter says so.
  abbrev pub Exhausted : ℕ → Progress → Progress → Type 0
  Exhausted from p p' =
      Failed from backoff.attempts
      × (p'.dispatches + from ≡ p.dispatches + backoff.attempts)
      × (p'.dead_letters ≡ backoff.attempts ∷ p.dead_letters)

  abbrev Ends : ℕ → Progress → Progress → Type 0
  Ends from p p' = Delivered from p p' ⊎ Exhausted from p p'
