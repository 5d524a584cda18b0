-- ===== src/Analytics/Sums.antt =====
-- src/vendor/analytics/analytics.service.ts: the statistics are those of all the vendor's escrows.
use trust_link_backend.Prelude.{
  ℕ, ◌+◌, String, Option, none, some, List, [], ◌∷◌, Bool, true, false, ◌&&◌, if◌then◌else◌,
  or_else, ◌==◌, ◌≡◌, refl, ◌∙◌, arith,
}
use trust_link_backend.Escrow.{
  EscrowState, created, funded, shipped, delivered, completed, released, disputed, refunded,
  cancelled, EscrowRecord, is_state,
}
use trust_link_backend.Analytics.{
  Group, Tally, is_active, is_completed, decimal_add, add_if, add_group, add_groups, empty_tally,
  get_transaction_stats,
}
use trust_link_backend.Analytics.Totals.{grouped}
use trust_link_backend.Analytics.Groups.{units, one, when, measure, total, owned, IsGroupBy}

-- The counts and sums of the vendor's rows in each state, and of all of them.
abbrev pub tally_of : String → List EscrowRecord → Tally
tally_of vendor rows =
    let count : EscrowState → ℕ = λ s. measure one (owned vendor (is_state s)) rows in
    let sum : EscrowState → ℕ = λ s. measure units (owned vendor (is_state s)) rows in
    record {
      total_volume = measure units (owned vendor (λ _. true)) rows;
      active_volume = sum created + sum funded + sum shipped + sum delivered;
      total_transactions = measure one (owned vendor (λ _. true)) rows;
      active_transactions = count created + count funded + count shipped + count delivered;
      completed_transactions = count completed + count released;
      disputed_transactions = count disputed;
      cancelled_transactions = count cancelled;
    }

module _ (weight : EscrowRecord → ℕ) (vendor : String) where
  abbrev in_state : EscrowState → List EscrowRecord → ℕ
  in_state s rows = measure weight (owned vendor (is_state s)) rows

  measure-is_active :
      (rows : List EscrowRecord)
      → measure weight (owned vendor is_active) rows
        ≡ in_state created rows
          + in_state funded rows
          + in_state shipped rows
          + in_state delivered rows
  unfolding measure
  measure-is_active [] = refl
  measure-is_active (e ∷ es) =
      omega (arith, share (e.vendor_address == vendor) e.state (weight e), measure-is_active es)
    where
      share :
          (b : Bool) (s : EscrowState) (n : ℕ)
          → when (b && is_active s) n
            ≡ when (b && is_state created s) n
              + when (b && is_state funded s) n
              + when (b && is_state shipped s) n
              + when (b && is_state delivered s) n
      share false s n = refl
      share true created n = omega arith
      share true funded n = omega arith
      share true shipped n = omega arith
      share true delivered n = omega arith
      share true completed n = refl
      share true released n = refl
      share true disputed n = refl
      share true refunded n = refl
      share true cancelled n = refl

  measure-is_completed :
      (rows : List EscrowRecord)
      → measure weight (owned vendor is_completed) rows
        ≡ in_state completed rows + in_state released rows
  unfolding measure
  measure-is_completed [] = refl
  measure-is_completed (e ∷ es) =
      omega (arith, share (e.vendor_address == vendor) e.state (weight e), measure-is_completed es)
    where
      share :
          (b : Bool) (s : EscrowState) (n : ℕ)
          → when (b && is_completed s) n
            ≡ when (b && is_state completed s) n + when (b && is_state released s) n
      share false s n = refl
      share true created n = refl
      share true funded n = refl
      share true shipped n = refl
      share true delivered n = refl
      share true completed n = omega arith
      share true released n = omega arith
      share true disputed n = refl
      share true refunded n = refl
      share true cancelled n = refl

-- The loop adds the groups' totals to what it starts from.
abbrev sum_of : Group → ℕ
sum_of g = or_else g.sum 0

abbrev count_of : Group → ℕ
count_of g = g.count

decimal_add-sum : (t : ℕ) (o : Option ℕ) → decimal_add t o ≡ t + or_else o 0
decimal_add-sum t none = omega arith
decimal_add-sum t (some n) = refl

add_if-when : (b : Bool) (t n : ℕ) → add_if b t n ≡ t + when b n
add_if-when true t n = refl
add_if-when false t n = omega arith

add_sum_if :
    (b : Bool) (t : ℕ) (o : Option ℕ)
    → (if b then decimal_add t o else t) ≡ t + when b (or_else o 0)
add_sum_if true t o = decimal_add-sum t o
add_sum_if false t o = omega arith

record Added (gs : List Group) (t t' : Tally) : Type 0 where
  total_volume : t'.total_volume ≡ t.total_volume + total sum_of (λ _. true) gs
  active_volume : t'.active_volume ≡ t.active_volume + total sum_of is_active gs
  total_transactions : t'.total_transactions ≡ t.total_transactions + total count_of (λ _. true) gs
  active_transactions : t'.active_transactions ≡ t.active_transactions + total count_of is_active gs
  completed_transactions :
      t'.completed_transactions ≡ t.completed_transactions + total count_of is_completed gs
  disputed_transactions :
      t'.disputed_transactions ≡ t.disputed_transactions + total count_of (is_state disputed) gs
  cancelled_transactions :
      t'.cancelled_transactions ≡ t.cancelled_transactions + total count_of (is_state cancelled) gs

add_groups-Added : (gs : List Group) (t : Tally) → Added gs t (add_groups gs t)
unfolding add_groups
add_groups-Added [] t = record {
  total_volume = omega arith;
  active_volume = omega arith;
  total_transactions = omega arith;
  active_transactions = omega arith;
  completed_transactions = omega arith;
  disputed_transactions = omega arith;
  cancelled_transactions = omega arith;
}
add_groups-Added (g ∷ gs) t =
    let a = add_groups-Added gs (add_group g t) in
    record {
      total_volume = omega (arith, a.total_volume, decimal_add-sum t.total_volume g.sum);
      active_volume =
          omega (arith, a.active_volume, add_sum_if (is_active g.state) t.active_volume g.sum);
      total_transactions = omega (arith, a.total_transactions);
      active_transactions = omega (
        arith,
        a.active_transactions,
        add_if-when (is_active g.state) t.active_transactions g.count,
      );
      completed_transactions = omega (
        arith,
        a.completed_transactions,
        add_if-when (is_completed g.state) t.completed_transactions g.count,
      );
      disputed_transactions = omega (
        arith,
        a.disputed_transactions,
        add_if-when (is_state disputed g.state) t.disputed_transactions g.count,
      );
      cancelled_transactions = omega (
        arith,
        a.cancelled_transactions,
        add_if-when (is_state cancelled g.state) t.cancelled_transactions g.count,
      );
    }

from_zero : {x y z : ℕ} → x ≡ 0 + y → y ≡ z → x ≡ z
from_zero h k = omega (arith, h, k)

-- Where the database's groups are those of the vendor's escrows, the counts and volumes in a vendor's
-- statistics are the counts and sums over the vendor's escrows by their present state: in total over
-- all of them; as active over those that are CREATED, FUNDED, SHIPPED or DELIVERED; as completed over
-- those that are COMPLETED or RELEASED; as disputed and as cancelled over those in that state.
pub get_transaction_stats-tally :
    (vendor : String) (rows : List EscrowRecord) (groups : List Group)
    (channels : Option (List String))
    → IsGroupBy vendor rows groups
    → (get_transaction_stats groups channels).tally ≡ tally_of vendor rows
unfolding get_transaction_stats
get_transaction_stats-tally vendor rows groups channels h = λ i. record {
  total_volume = from_zero a.total_volume (of (λ _. true)).1 i;
  active_volume =
      from_zero a.active_volume ((of is_active).1 ∙ measure-is_active units vendor rows) i;
  total_transactions = from_zero a.total_transactions (of (λ _. true)).0 i;
  active_transactions =
      from_zero a.active_transactions ((of is_active).0 ∙ measure-is_active one vendor rows) i;
  completed_transactions =
      from_zero a.completed_transactions
        ((of is_completed).0 ∙ measure-is_completed one vendor rows) i;
  disputed_transactions = from_zero a.disputed_transactions (of (is_state disputed)).0 i;
  cancelled_transactions = from_zero a.cancelled_transactions (of (is_state cancelled)).0 i;
}
  where
    a : Added groups empty_tally (add_groups groups empty_tally)
    a = add_groups-Added groups empty_tally

    of :
        (p : EscrowState → Bool)
        → (total count_of p groups ≡ measure one (owned vendor p) rows)
          × (total sum_of p groups ≡ measure units (owned vendor p) rows)
    of p = grouped p vendor rows groups h
