-- ===== src/Analytics/Totals.antt =====
-- src/vendor/analytics/analytics.repository.ts: sums over the groups of a vendor's escrows are sums over
-- the escrows.
use trust_link_backend.Prelude.{
  ℕ, ◌+◌, String, List, [], ◌∷◌, Bool, true, false, or_else, ◌==◌, ◌≡◌, refl, sym, ap, ◌∙◌, arith,
  Bool-cases, inl, inr,
}
use trust_link_backend.Escrow.{
  EscrowState, created, funded, shipped, delivered, completed, released, disputed, refunded,
  cancelled, EscrowRecord, is_state,
}
use trust_link_backend.Analytics.{Group}
use trust_link_backend.Analytics.Groups.{
  units, one, when, measure, total, has_state, owned, IsDistinct, IsExact, IsCovering, IsGroupBy,
}

is_state-eq : (s t : EscrowState) → is_state s t ≡ true → s ≡ t
is_state-eq created created _ = refl
is_state-eq funded funded _ = refl
is_state-eq shipped shipped _ = refl
is_state-eq delivered delivered _ = refl
is_state-eq completed completed _ = refl
is_state-eq released released _ = refl
is_state-eq disputed disputed _ = refl
is_state-eq refunded refunded _ = refl
is_state-eq cancelled cancelled _ = refl
is_state-eq _ _ h = absurd (cc)

when-zero : (b : Bool) → when b 0 ≡ 0
when-zero true = refl
when-zero false = refl

when-add : (b : Bool) (m n : ℕ) → when b (m + n) ≡ when b m + when b n
when-add true m n = refl
when-add false m n = refl

module _ (p : EscrowState → Bool) where
  total-zero : (gs : List Group) → total (λ _. 0) p gs ≡ 0
  total-zero [] = refl
  total-zero (g ∷ gs) = omega (arith, when-zero (p g.state), total-zero gs)

  total-add :
      (f f' : Group → ℕ) (gs : List Group)
      → total (λ g. f g + f' g) p gs ≡ total f p gs + total f' p gs
  total-add f f' [] = refl
  total-add f f' (g ∷ gs) = omega (arith, when-add (p g.state) (f g) (f' g), total-add f f' gs)

  -- Of the groups that differ in their states, one at most has the state `s`.
  total-absent :
      (s : EscrowState) (n : ℕ) (gs : List Group)
      → has_state s gs ≡ false
      → total (λ g. when (is_state g.state s) n) p gs ≡ 0
  total-absent s n [] h = refl
  total-absent s n (g ∷ gs) h = elim (Bool-cases (is_state g.state s)) [
    | inl e ↦ absurd (ground (arith, e, h))
    | inr e ↦
        rw e (omega (arith, when-zero (p g.state), total-absent s n gs (ground (arith, e, h))))
  ]

  total-present :
      (s : EscrowState) (n : ℕ) (gs : List Group)
      → IsDistinct gs
      → has_state s gs ≡ true
      → total (λ g. when (is_state g.state s) n) p gs ≡ when (p s) n
  total-present s n [] d h = absurd (cc)
  total-present s n (g ∷ gs) (d, ds) h = elim (Bool-cases (is_state g.state s)) [
    | inl e ↦
        let same = is_state-eq g.state s e in
        let rest = total-absent s n gs (ap (λ t. has_state t gs) (sym same) ∙ d) in
        rw (e, same) (omega (arith, rest))
    | inr e ↦
        rw e (omega (arith, when-zero (p g.state), total-present s n gs ds (ground (arith, e, h))))
  ]

  -- One row's share in the sums over the groups.
  total-row :
      (weight : EscrowRecord → ℕ) (vendor : String) (e : EscrowRecord) (gs : List Group)
      → IsDistinct gs
      → ((e.vendor_address == vendor) ≡ true → has_state e.state gs ≡ true)
      → total (λ g. when (owned vendor (is_state g.state) e) (weight e)) p gs
        ≡ when (owned vendor p e) (weight e)
  total-row weight vendor e gs d h = elim (Bool-cases (e.vendor_address == vendor)) [
    | inl q ↦ rw q (total-present e.state (weight e) gs d (h q))
    | inr q ↦ rw q (total-zero gs)
  ]

  -- The sums over the groups of a vendor's rows are the sum over the vendor's rows.
  measure-total :
      (weight : EscrowRecord → ℕ) (vendor : String) (gs : List Group) (rows : List EscrowRecord)
      → IsDistinct gs
      → IsCovering vendor gs rows
      → total (λ g. measure weight (owned vendor (is_state g.state)) rows) p gs
        ≡ measure weight (owned vendor p) rows
  unfolding measure
  measure-total weight vendor gs [] d c = total-zero gs
  measure-total weight vendor gs (e ∷ es) d (c, cs) =
      total-add (λ g. when (owned vendor (is_state g.state) e) (weight e))
        (λ g. measure weight (owned vendor (is_state g.state)) es) gs
      ∙ omega (arith, total-row weight vendor e gs d c, measure-total weight vendor gs es d cs)

  total-counts :
      (vendor : String) (rows : List EscrowRecord) (gs : List Group)
      → IsExact vendor rows gs
      → (total (λ g. g.count) p gs
          ≡ total (λ g. measure one (owned vendor (is_state g.state)) rows) p gs)
        × (total (λ g. or_else g.sum 0) p gs
            ≡ total (λ g. measure units (owned vendor (is_state g.state)) rows) p gs)
  total-counts vendor rows [] x = (refl, refl)
  total-counts vendor rows (g ∷ gs) (count, sum, x) =
      let (counts, sums) = total-counts vendor rows gs x in
      (rw (count, counts) refl, rw (sum, sums) refl)

  pub grouped :
      (vendor : String) (rows : List EscrowRecord) (gs : List Group)
      → IsGroupBy vendor rows gs
      → (total (λ g. g.count) p gs ≡ measure one (owned vendor p) rows)
        × (total (λ g. or_else g.sum 0) p gs ≡ measure units (owned vendor p) rows)
  grouped vendor rows gs h =
      let (counts, sums) = total-counts vendor rows gs h.exact in
      (
        counts ∙ measure-total one vendor gs rows h.distinct h.covering,
        sums ∙ measure-total units vendor gs rows h.distinct h.covering,
      )
