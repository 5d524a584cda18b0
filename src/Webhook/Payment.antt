-- ===== src/Webhook/Payment.antt =====
-- src/webhooks/stellar-webhook.service.ts, `handlePayment`: which escrows a payment funds.
use mathlib.Core.Path.{subst}
use mathlib.Core.Option.{some-injective}
use trust_link_backend.Prelude.{
  ℕ, String, Option, some, List, [], ◌∷◌, true, ◌≡◌, refl, sym, ap, ◌∙◌, ◌⊎◌, inl, inr,
  if◌then◌else◌, ◌==◌, eq_iff, arith, Bool-cases, Option-cases, All, keep, All-map, All-keep_both,
}
use trust_link_backend.Escrow.{EscrowRecord, created, funded, is_state}
use trust_link_backend.Escrow.Repository.{stamp, find_by_vendor}
use trust_link_backend.Escrow.Repository.Coherence.{IsCoherent, IsCoherent-write, write-cases}
use trust_link_backend.Backend.{Backend, IsBackend, World, notify_funded}
use trust_link_backend.Backend.Effects.{notify}
use trust_link_backend.Webhook.{
  Event, Horizon, is_exact, is_created, fund_each, pay_vendor, handle_payment,
}

module _ {R D C P : Type 0} (b : Backend R D C) (laws : IsBackend b) (h : Horizon P) where
  open b use {escrow_table as T}

  abbrev pub funded_at : ℕ → EscrowRecord → EscrowRecord
  funded_at now = stamp now (λ r. record r { state = funded })

  -- The row is as it was; or it is the vendor's, was waiting for exactly this payment, and is funded.
  abbrev pub Paid : Event → String → ℕ → Option EscrowRecord → Option EscrowRecord → Type 0
  Paid e to now o o' =
      (o' ≡ o)
      ⊎ ((r : EscrowRecord) × (o ≡ some r)
          × ((r.vendor_address == to) ≡ true)
          × (is_state r.state created ≡ true)
          × (is_exact b h e r ≡ true)
          × (o' ≡ some (funded_at now r)))

  abbrev Waiting : String → R → EscrowRecord → Type 0
  Waiting to t r =
      (T.row r.id t ≡ some r)
      × ((r.vendor_address == to) ≡ true)
      × (is_state r.state created ≡ true)

  abbrev AllPaid : Event → String → ℕ → R → World R D C → Type 0
  AllPaid e to now t w =
      IsCoherent b w.cached w.escrows
      × (w.now ≡ now)
      × ((j : String) → Paid e to now (T.row j t) (T.row j w.escrows))

  -- A row that was funded in this loop is the same when it is funded again.
  Paid-old :
      (e : Event) (to : String) (now : ℕ) (o : Option EscrowRecord) (r old : EscrowRecord)
      → Paid e to now (some r) o
      → o ≡ some old
      → funded_at now old ≡ funded_at now r
  Paid-old e to now o r old (inl p) q = ap (funded_at now) (some-injective _ _ (sym q ∙ p))
  Paid-old e to now o r old (inr (r', p, _, _, _, p')) q =
      ap (funded_at now) (some-injective _ _ (sym q ∙ p'))
      ∙ ap (funded_at now) (some-injective _ _ (sym p))

  AllPaid-write :
      (e : Event) (to : String) (now : ℕ) (t : R) (r : EscrowRecord) (w : World R D C)
      (old : EscrowRecord) (u : R)
      → Waiting to t r
      → is_exact b h e r ≡ true
      → AllPaid e to now t w
      → T.row r.id w.escrows ≡ some old
      → ((j : String)
          → T.row j u ≡ (if r.id == j then some (funded_at w.now old) else T.row j w.escrows))
      → (j : String) → Paid e to now (T.row j t) (T.row j u)
  AllPaid-write e to now t r w old u (at, vendor, waits) exact (_, time, paid) found rows j =
      elim (Bool-cases (r.id == j)) [
        | inr n ↦ subst (Paid e to now (T.row j t)) (sym (rows j ∙ ground (arith, n))) (paid j)
        | inl y ↦
            let same = (eq_iff r.id j).0 y in
            let again =
              Paid-old e to now (T.row r.id w.escrows) r old
                (subst (λ o. Paid e to now o (T.row r.id w.escrows)) at (paid r.id)) found in
            inr (
              r,
              ap (λ k. T.row k t) (sym same) ∙ at,
              vendor,
              waits,
              exact,
              rows j ∙ ground (arith, y, time, again),
            )
      ]

  fund_each-AllPaid :
      (e : Event) (to : String) (now : ℕ) (t : R) (rs : List EscrowRecord)
      → All (Waiting to t) rs
      → (w : World R D C) → AllPaid e to now t w
      → AllPaid e to now t (fund_each b h e rs w).1
  unfolding fund_each notify
  fund_each-AllPaid e to now t [] a w p = p
  fund_each-AllPaid e to now t (r ∷ rs) (x, a) w p = elim (Bool-cases (is_exact b h e r)) [
    | inr n ↦ rw n (fund_each-AllPaid e to now t rs a w p)
    | inl y ↦ elim (write-cases b laws r.id (λ z. record z { state = funded }) w) [
      | inl z ↦ rw (y, z) p
      | inr (old, u, c, found, z, rows, held) ↦
          let coherent : IsCoherent b c u =
            subst (λ v. IsCoherent b v.1.cached v.1.escrows) z
              (IsCoherent-write b laws r.id (λ v. record v { state = funded }) w (λ _. refl) p.0) in
          rw (y, z)
            (fund_each-AllPaid e to now t rs a
              (record w {
                escrows = u;
                cached = c;
                notices = notify_funded (funded_at w.now old) ∷ w.notices;
              })
              (coherent, p.1, AllPaid-write e to now t r w old u x y p found rows))
    ]
  ]

  waiting :
      (to : String) (t : R) (rs : List EscrowRecord)
      → T.find_many (λ r. r.vendor_address == to) (some 20) t ≡ some rs
      → All (Waiting to t) (keep (is_created b h) rs)
  waiting to t rs e =
      All-map (keep (is_created b h) rs)
        (λ r (c, (v, at)). (ap (λ k. T.row k t) (sym (laws.escrow_key r)) ∙ at, v, c))
        (All-keep_both (λ r. ((r.vendor_address == to) ≡ true) × (T.row (T.key r) t ≡ some r))
          (is_created b h) rs
          (laws.escrows_lawful.row-find_many (λ r. r.vendor_address == to) (some 20) t rs e))

  pay_vendor-AllPaid :
      (e : Event) (to : String) (w : World R D C)
      → IsCoherent b w.cached w.escrows
      → AllPaid e to w.now w.escrows (pay_vendor b h e (some to) w).1
  unfolding pay_vendor find_by_vendor
  pay_vendor-AllPaid e to w i =
      let start : AllPaid e to w.now w.escrows w = (i, refl, λ j. inl refl) in
      elim (Bool-cases (to == "")) [
        | inl y ↦ rw y start
        | inr n ↦
            elim (Option-cases (T.find_many (λ r. r.vendor_address == to) (some 20) w.escrows)) [
              | inl q ↦ rw (n, find_by_vendor, q) start
              | inr (rs, q) ↦
                  rw (n, find_by_vendor, q)
                    (fund_each-AllPaid e to w.now w.escrows (keep (is_created b h) rs)
                      (waiting to w.escrows rs q) w start)
            ]
      ]

  -- A payment funds only escrows of the vendor that it was sent to, which were CREATED and whose
  -- amount and currency are exactly the payment's; every other row is as it was, and the cache stays
  -- coherent. It holds too where a write is rejected half way.
  pub handle_payment-Paid :
      (e : Event) (to : String) (w : World R D C)
      → e.to ≡ some to
      → IsCoherent b w.cached w.escrows
      → IsCoherent b (handle_payment b h e w).1.cached (handle_payment b h e w).1.escrows
        × ((j : String)
            → Paid e to w.now (T.row j w.escrows) (T.row j (handle_payment b h e w).1.escrows))
  unfolding handle_payment
  handle_payment-Paid e to w q i =
      let (coherent, _, paid) = pay_vendor-AllPaid e to w i in (rw q coherent, rw q paid)
