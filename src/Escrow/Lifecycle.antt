-- ===== src/Escrow/Lifecycle.antt =====
-- The state machine of docs/state-machine.md as a relation. Its table has rows for single states and
-- rows for `any non-terminal`, which cover many of the former.
use trust_link_backend.Prelude.{
  ℕ, String, ◌<◌, ◌≤◌, ◌≡◌, refl, true, false, not, ◌&&◌, ◌∙◌, ap, ◌⊎◌, inl, inr, arith, Option,
  none, some,
}
use trust_link_backend.Escrow.{
  EscrowState, EscrowRecord, Amount, created, funded, shipped, delivered, disputed, is_terminal,
  is_state,
}

infix 40 ◌⟶◌ ◌⟶*◌
pub data ◌⟶◌ : EscrowState → EscrowState → Type 0 where
  fund : created ⟶ funded
  ship : funded ⟶ shipped
  -- after a missed EscrowFunded
  ship_unfunded : created ⟶ shipped
  deliver : shipped ⟶ delivered
  -- any non-terminal state to DISPUTED
  dispute : {s : EscrowState} → is_terminal s ≡ false → is_state s disputed ≡ false → s ⟶ disputed
  -- any non-terminal state to COMPLETED, RELEASED, REFUNDED or CANCELLED
  finish : {s t : EscrowState} → is_terminal s ≡ false → is_terminal t ≡ true → s ⟶ t

pub data ◌⟶*◌ : EscrowState → EscrowState → Type 0 where
  here : {s : EscrowState} → s ⟶* s
  then : {s t u : EscrowState} → s ⟶ t → t ⟶* u → s ⟶* u

pub ⟶*-trans : {s t u : EscrowState} → s ⟶* t → t ⟶* u → s ⟶* u
⟶*-trans here q = q
⟶*-trans (then e p) q = then e (⟶*-trans p q)

pub ⟶*_one : {s t : EscrowState} → s ⟶ t → s ⟶* t
⟶*_one e = then e here

-- The guards of the handlers, as paths of the diagram.
pub fund_path : (s : EscrowState) → not (is_state s created) ≡ false → s ⟶* funded
fund_path created h = ⟶*_one fund
fund_path _ h = absurd (cc)

pub ship_path :
    (s : EscrowState) → not (is_state s created) && not (is_state s funded) ≡ false → s ⟶* shipped
ship_path created h = ⟶*_one ship_unfunded
ship_path funded h = ⟶*_one ship
ship_path _ h = absurd (cc)

pub finish_path : (s t : EscrowState) → is_terminal t ≡ true → is_terminal s ≡ false → s ⟶* t
finish_path s t k h = ⟶*_one (finish h k)

pub dispute_path :
    (s : EscrowState) → is_state s disputed ≡ false → is_terminal s ≡ false → s ⟶* disputed
dispute_path s n h = ⟶*_one (dispute h n)

-- How far an escrow has come.
abbrev pub rank : EscrowState → ℕ
rank created = 0
rank funded = 1
rank shipped = 2
rank delivered = 3
rank disputed = 4
rank _ = 5

pub ⟶-rank : {s t : EscrowState} → s ⟶ t → rank s < rank t
⟶-rank fund = omega arith
⟶-rank ship = omega arith
⟶-rank ship_unfunded = omega arith
⟶-rank deliver = omega arith
⟶-rank (dispute h n) = ground arith
⟶-rank (finish h k) = ground arith

pub ⟶*-rank : {s t : EscrowState} → s ⟶* t → rank s ≤ rank t
⟶*-rank here = omega arith
⟶*-rank (then e p) = omega (arith, ⟶-rank e, ⟶*-rank p)

⟶-not_terminal : {s t : EscrowState} → s ⟶ t → is_terminal s ≡ false
⟶-not_terminal fund = refl
⟶-not_terminal ship = refl
⟶-not_terminal ship_unfunded = refl
⟶-not_terminal deliver = refl
⟶-not_terminal (dispute h n) = h
⟶-not_terminal (finish h k) = h

-- A terminal state is left by no sequence of transitions.
pub ⟶*-terminal : {s t : EscrowState} → s ⟶* t → is_terminal s ≡ true → t ≡ s
⟶*-terminal here h = refl
⟶*-terminal (then e p) h = absurd (cc (h, ⟶-not_terminal e))

-- What the service never rewrites: id, contract id, amount, currency, buyer and vendor.
abbrev pub deal : EscrowRecord → String × Option ℕ × Amount × String × String × String
deal r = (r.id, r.contract_escrow_id, r.amount, r.currency, r.buyer_address, r.vendor_address)

-- What became of a row: its state moved along the diagram, and the deal is the same.
pub record Follows (r r' : EscrowRecord) : Type 0 where
  pub path : r.state ⟶* r'.state
  pub same : deal r' ≡ deal r

-- Rows are created and never deleted.
abbrev pub Moves : Option EscrowRecord → Option EscrowRecord → Type 0
Moves none none = Unit
Moves none (some r) = Unit
Moves (some r) none = ⊥
Moves (some r) (some r') = Follows r r'

pub Follows-refl : (r : EscrowRecord) → Follows r r
Follows-refl r = record { path = here; same = refl }

pub Follows-trans : {r s t : EscrowRecord} → Follows r s → Follows s t → Follows r t
Follows-trans f g = record { path = ⟶*-trans f.path g.path; same = g.same ∙ f.same }

pub Moves-refl : (o : Option EscrowRecord) → Moves o o
Moves-refl none = tt
Moves-refl (some r) = Follows-refl r

pub Moves-trans : (o p q : Option EscrowRecord) → Moves o p → Moves p q → Moves o q
Moves-trans none none none f g = tt
Moves-trans none none (some q) f g = tt
Moves-trans none (some p) none f g = tt
Moves-trans none (some p) (some q) f g = tt
Moves-trans (some o) none q f g = absurd f
Moves-trans (some o) (some p) none f g = absurd g
Moves-trans (some o) (some p) (some q) f g = Follows-trans f g

⟶-from_disputed : {s t : EscrowState} → s ⟶ t → s ≡ disputed → is_terminal t ≡ true
⟶-from_disputed fund h = absurd (cc h)
⟶-from_disputed ship h = absurd (cc h)
⟶-from_disputed ship_unfunded h = absurd (cc h)
⟶-from_disputed deliver h = absurd (cc h)
⟶-from_disputed (dispute n m) h = absurd (ground (arith, h, m))
⟶-from_disputed (finish n k) h = k

-- A dispute ends in a terminal state.
pub from_disputed :
    {s t : EscrowState} → s ⟶* t → s ≡ disputed → (t ≡ disputed) ⊎ (is_terminal t ≡ true)
from_disputed here h = inl h
from_disputed (then e p) h =
    inr (ap is_terminal (⟶*-terminal p (⟶-from_disputed e h)) ∙ ⟶-from_disputed e h)
