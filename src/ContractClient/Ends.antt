-- ===== src/ContractClient/Ends.antt =====
-- src/stellar/contract.service.ts: the wait for a transaction's final status is bounded.
use trust_link_backend.Prelude.{
  ℕ, zero, suc, ◌+◌, ◌*◌, ◌≤◌, String, false, ◌≡◌, refl, inl, inr, arith, leb, Bool-cases,
}
use trust_link_backend.ContractClient.{
  Call, Answer, value, fault, call_failed, thrown, unfinished, continue, Transaction, Sdk,
}
use trust_link_backend.ContractClient.Confirm.{
  is_pending_status, poll_from, poll_with_get_transaction, poll_interval, confirm_timeout,
}

-- `setTimeout` waits at least as long as it is told to, and the clock does not run backwards.
pub record IsClock {A X S : Type 0} (sdk : Sdk A X S) (get : String → Call S Transaction)
    : Type 0 where
  pub sleeps : (ms : ℕ) (s : S) → sdk.now s + ms ≤ sdk.now (sdk.sleep ms s)
  pub reads : (hash : String) (s : S) → sdk.now s ≤ sdk.now (get hash s).1
  -- A request to the server does not end as the model's loop does that is out of rounds.
  pub answers : (hash : String) (s : S) → (get hash s).0 ≡ fault unfinished → ⊥

-- A final status, or an error: the server's, or that the time is up.
abbrev pub Finished : {S : Type 0} → Answer Transaction × S → Type 0
Finished (value r, _) = is_pending_status r.status ≡ false
Finished (fault (call_failed _), _) = Unit {0}
Finished (fault (thrown _), _) = Unit {0}
Finished (fault unfinished, _) = ⊥

module _ {A X S : Type 0} (sdk : Sdk A X S) (get : String → Call S Transaction)
    (clock : IsClock sdk get) where
  -- Another look, after an answer of the server.
  looks :
      (rounds deadline : ℕ) (hash : String) (x : Answer Transaction × S)
      → (x.0 ≡ fault unfinished → ⊥)
      → ((r : Transaction) → Finished (poll_from sdk get rounds deadline hash r x.1))
      → Finished (continue (poll_from sdk get rounds deadline hash) x)
  looks rounds deadline hash (value r, s) ends rest = rest r
  looks rounds deadline hash (fault (call_failed _), s) ends rest = tt
  looks rounds deadline hash (fault (thrown _), s) ends rest = tt
  looks rounds deadline hash (fault unfinished, s) ends rest = ends refl

  poll_from-Finished :
      (rounds deadline : ℕ) (hash : String) (r : Transaction) (s : S)
      → deadline ≤ sdk.now s + poll_interval * rounds
      → Finished (poll_from sdk get (suc rounds) deadline hash r s)
  unfolding poll_from
  poll_from-Finished zero deadline hash r s h = elim (Bool-cases (is_pending_status r.status)) [
    | inr done ↦ rw (poll_from, done) done
    | inl pending ↦ elim (Bool-cases (leb deadline (sdk.now s))) [
      | inl up ↦ rw (poll_from, pending, up) tt
      | inr more ↦ absurd (ground arith)
    ]
  ]
  poll_from-Finished (suc rounds) deadline hash r s h =
      let s' = sdk.sleep poll_interval s in
      elim (Bool-cases (is_pending_status r.status)) [
        | inr done ↦ rw (poll_from, done) done
        | inl pending ↦ elim (Bool-cases (leb deadline (sdk.now s))) [
          | inl up ↦ rw (poll_from, pending, up) tt
          | inr more ↦
              rw (poll_from, pending, more)
                (looks (suc rounds) deadline hash (get hash s') (clock.answers hash s') (λ r'.
                  poll_from-Finished rounds deadline hash r' (get hash s').1
                    (omega (arith, clock.sleeps poll_interval s, clock.reads hash s'))))
        ]
      ]

  -- The wait for a final status ends: with a status that is final, with an error of the server, or
  -- because the time is up. It never reports a transaction that is still pending.
  pub poll_with_get_transaction-Finished :
      (hash : String) (s : S) → Finished (poll_with_get_transaction sdk get hash s)
  unfolding poll_with_get_transaction
  poll_with_get_transaction-Finished hash s =
      looks 122 (sdk.now s + confirm_timeout) hash (get hash s) (clock.answers hash s) (λ r.
        poll_from-Finished 121 (sdk.now s + confirm_timeout) hash r (get hash s).1
          (omega (arith, clock.reads hash s)))
