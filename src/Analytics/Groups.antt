-- ===== src/Analytics/Groups.antt =====
-- What `groupBy` promises of a vendor's escrows, and sums over groups that are sums over escrows.
use trust_link_backend.Prelude.{
  ℕ, ◌+◌, String, List, [], ◌∷◌, Bool, true, false, ◌&&◌, ◌||◌, if◌then◌else◌, or_else, ◌==◌, ◌≡◌,
}
use trust_link_backend.Escrow.{EscrowState, EscrowRecord, plus, minus, is_state}
use trust_link_backend.Analytics.{Group}

-- The amount of a row. No escrow is created with an amount below 0.
abbrev pub units : EscrowRecord → ℕ
units e = elim (e.amount) [ plus n ↦ n | minus _ ↦ 0 ]

abbrev pub one : EscrowRecord → ℕ
one _ = 1

abbrev pub when : Bool → ℕ → ℕ
when b n = if b then n else 0

-- The total weight of the rows that pass.
unfoldable pub measure : (EscrowRecord → ℕ) → (EscrowRecord → Bool) → List EscrowRecord → ℕ
measure weight test [] = 0
measure weight test (e ∷ es) = when (test e) (weight e) + measure weight test es

abbrev pub total : (Group → ℕ) → (EscrowState → Bool) → List Group → ℕ
total value p [] = 0
total value p (g ∷ gs) = when (p g.state) (value g) + total value p gs

abbrev pub has_state : EscrowState → List Group → Bool
has_state s [] = false
has_state s (g ∷ gs) = is_state g.state s || has_state s gs

abbrev pub owned : String → (EscrowState → Bool) → EscrowRecord → Bool
owned vendor p e = (e.vendor_address == vendor) && p e.state

-- One group for each state.
abbrev pub IsDistinct : List Group → Type 0
IsDistinct [] = Unit
IsDistinct (g ∷ gs) = (has_state g.state gs ≡ false) × IsDistinct gs

-- A group's count and sum are those of the vendor's rows in its state.
abbrev pub IsExact : String → List EscrowRecord → List Group → Type 0
IsExact vendor rows [] = Unit
IsExact vendor rows (g ∷ gs) =
    (g.count ≡ measure one (owned vendor (is_state g.state)) rows)
    × (or_else g.sum 0 ≡ measure units (owned vendor (is_state g.state)) rows)
    × IsExact vendor rows gs

-- Every row of the vendor is in a group.
abbrev pub IsCovering : String → List Group → List EscrowRecord → Type 0
IsCovering vendor groups [] = Unit
IsCovering vendor groups (e ∷ es) =
    ((e.vendor_address == vendor) ≡ true → has_state e.state groups ≡ true)
    × IsCovering vendor groups es

pub record IsGroupBy (vendor : String) (rows : List EscrowRecord) (groups : List Group)
    : Type 0 where
  pub distinct : IsDistinct groups
  pub exact : IsExact vendor rows groups
  pub covering : IsCovering vendor groups rows
