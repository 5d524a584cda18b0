-- ===== src/Tests/Retries.antt =====
-- A notification that fails twice.
use trust_link_backend.Prelude.{ℕ, some, [], leb, if◌then◌else◌}
use trust_link_backend.Exec.{Outcome, ok, err, rejected}
use trust_link_backend.Notification.{Backoff, Progress}

abbrev backoff : Backoff
backoff = record { attempts = 5; delay = 1000; max_delay = some 300000 }

abbrev third_time : ℕ → Outcome (Unit {0})
third_time k = if leb 3 k then ok tt else err rejected

abbrev idle : Progress
idle = record { dispatches = 0; marks = []; delays = []; dead_letters = [] }
