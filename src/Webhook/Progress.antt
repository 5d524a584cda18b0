-- ===== src/Webhook/Progress.antt =====
-- src/webhooks/stellar-webhook.service.ts, `handlePayment`: a payment moves escrows along the state
-- machine.
use mathlib.Core.Path.{subst}
use trust_link_backend.Prelude.{ℕ, String, Option, none, some, not, ◌≡◌, refl, sym, ap, inl, inr}
use trust_link_backend.Escrow.{EscrowRecord}
use trust_link_backend.Escrow.Lifecycle.{Follows, Moves, Moves-refl, fund_path}
use trust_link_backend.Escrow.Evolves.{Evolves, Evolves-refl}
use trust_link_backend.Escrow.Repository.Coherence.{IsCoherent}
use trust_link_backend.Backend.{Backend, IsBackend, World}
use trust_link_backend.Webhook.{Event, Horizon, handle_payment, pay_vendor}
use trust_link_backend.Webhook.Payment.{Paid, funded_at, handle_payment-Paid}

module _ {R D C P : Type 0} (b : Backend R D C) (laws : IsBackend b) (h : Horizon P) where
  open b use {escrow_table as T}

  Paid-Moves :
      (e : Event) (to : String) (now : ℕ) (o o' : Option EscrowRecord)
      → Paid b laws h e to now o o'
      → Moves o o'
  Paid-Moves e to now o o' (inl same) = subst (Moves o) (sym same) (Moves-refl o)
  Paid-Moves e to now o o' (inr (r, at, _, waits, _, paid)) =
      let step : Follows r (funded_at b laws h now r) = record {
        path = fund_path r.state (ap not waits);
        same = refl;
      } in
      rw (at, paid) step

  pub handle_payment-Evolves :
      (e : Event) (w : World R D C)
      → IsCoherent b w.cached w.escrows
      → Evolves b w.escrows (handle_payment b h e w).1
  unfolding handle_payment pay_vendor
  handle_payment-Evolves e w i = go e.to refl
    where
      go : (o : Option String) → e.to ≡ o → Evolves b w.escrows (handle_payment b h e w).1
      go none q = rw (handle_payment, q) (Evolves-refl b w i)
      go (some to) q =
          let (coherent, paid) = handle_payment-Paid b laws h e to w q i in
          record { coherent = coherent; moves = λ j. Paid-Moves e to w.now _ _ (paid j) }
