-- ===== src/Analytics.antt =====
-- src/vendor/analytics/analytics.service.ts and analytics.repository.ts: a vendor's statistics. The
-- query's groups are a parameter. Sums are in the smallest unit and exact, as `Prisma.Decimal` keeps
-- them; a rate is kept as its fraction, where the response has the number that it is near.
pub mod Groups
pub mod Totals
pub mod Sums
use trust_link_backend.Prelude.{
  ℕ, ◌+◌, ◌*◌, String, Option, none, some, List, [], ◌∷◌, Bool, true, false, ◌||◌, if◌then◌else◌,
  ltb, or_else,
}
use trust_link_backend.Escrow.{
  EscrowState, created, funded, shipped, delivered, completed, released, disputed, cancelled,
  is_state,
}
use trust_link_backend.Notification.Notify.{default_notification_channels, includes}

-- `AnalyticsEscrowStateGroup`, with the count and the sum of `amount`
pub record Group : Type 0 where
  pub state : EscrowState
  pub count : ℕ
  pub sum : Option ℕ

-- The accumulators of `getTransactionStats`
pub record Tally : Type 0 where
  pub total_volume : ℕ
  pub active_volume : ℕ
  pub total_transactions : ℕ
  pub active_transactions : ℕ
  pub completed_transactions : ℕ
  pub disputed_transactions : ℕ
  pub cancelled_transactions : ℕ

pub record Ratio : Type 0 where
  pub top : ℕ
  pub bottom : ℕ

pub record Stats : Type 0 where
  pub tally : Tally
  pub completion_rate : Ratio
  pub dispute_rate : Ratio
  pub average_transaction_value : Ratio
  pub email_enabled : Bool
  pub sms_enabled : Bool

-- `activeStates`
abbrev pub is_active : EscrowState → Bool
is_active s = is_state created s || is_state funded s || is_state shipped s || is_state delivered s

abbrev pub is_completed : EscrowState → Bool
is_completed s = is_state completed s || is_state released s

-- `decimalAdd`
abbrev pub decimal_add : ℕ → Option ℕ → ℕ
decimal_add total none = total
decimal_add total (some n) = total + n

-- `if (test) { counter += count }`
abbrev pub add_if : Bool → ℕ → ℕ → ℕ
add_if test total n = if test then total + n else total

-- The body of the loop.
unfoldable pub add_group : Group → Tally → Tally
add_group g t = record {
  total_volume = decimal_add t.total_volume g.sum;
  active_volume = if is_active g.state then decimal_add t.active_volume g.sum else t.active_volume;
  total_transactions = t.total_transactions + g.count;
  active_transactions = add_if (is_active g.state) t.active_transactions g.count;
  completed_transactions = add_if (is_completed g.state) t.completed_transactions g.count;
  disputed_transactions = add_if (is_state disputed g.state) t.disputed_transactions g.count;
  cancelled_transactions = add_if (is_state cancelled g.state) t.cancelled_transactions g.count;
}

unfoldable pub add_groups : List Group → Tally → Tally
unfolding add_group
add_groups [] t = t
add_groups (g ∷ gs) t = add_groups gs (add_group g t)

abbrev pub empty_tally : Tally
empty_tally = record {
  total_volume = 0;
  active_volume = 0;
  total_transactions = 0;
  active_transactions = 0;
  completed_transactions = 0;
  disputed_transactions = 0;
  cancelled_transactions = 0;
}

-- A quotient, and 0 where there are no transactions.
abbrev pub rate : ℕ → ℕ → Ratio
rate top total =
    if ltb 0 total then record { top = top; bottom = total } else record { top = 0; bottom = 1 }

-- `getTransactionStats`, of the groups and the channels that the repository read
unfoldable pub get_transaction_stats : List Group → Option (List String) → Stats
unfolding add_groups
get_transaction_stats groups channels =
    let t = add_groups groups empty_tally in
    let chosen = or_else channels default_notification_channels in
    record {
      tally = t;
      completion_rate = rate (t.completed_transactions * 100) t.total_transactions;
      dispute_rate = rate (t.disputed_transactions * 100) t.total_transactions;
      average_transaction_value = rate t.total_volume t.total_transactions;
      email_enabled = includes "EMAIL" chosen;
      sms_enabled = includes "SMS" chosen;
    }
