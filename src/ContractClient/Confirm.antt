-- ===== src/ContractClient/Confirm.antt =====
-- src/stellar/contract.service.ts: waiting for a transaction's final status.
use trust_link_backend.Prelude.{
  ℕ, zero, suc, ◌+◌, String, none, some, Bool, ◌||◌, ◌==◌, if◌then◌else◌, leb,
}
use trust_link_backend.ContractClient.{
  Call, value, fault, call_failed, unfinished, throw, continue, ◌>>=◌, Transaction, StellarServer,
  Sdk,
}

-- `TX_CONFIRM_TIMEOUT_MS`, `TX_CONFIRM_POLL_INTERVAL_MS`
abbrev pub confirm_timeout : ℕ
confirm_timeout = 30000

abbrev pub poll_interval : ℕ
poll_interval = 250

-- `isPendingStatus`
unfoldable pub is_pending_status : String → Bool
is_pending_status s = (s == "NOT_FOUND") || (s == "PENDING")

module _ {A X S : Type 0} (sdk : Sdk A X S) (get_transaction : String → Call S Transaction) where
  -- The loop of `pollWithGetTransaction`, from the answer that it looks at.
  unfoldable pub poll_from : ℕ → ℕ → String → Transaction → Call S Transaction
  unfolding is_pending_status
  poll_from zero deadline hash response s = (fault unfinished, s)
  poll_from (suc rounds) deadline hash response s =
      let again =
        continue (poll_from rounds deadline hash)
          (get_transaction hash (sdk.sleep poll_interval s)) in
      if is_pending_status response.status
      then if leb deadline (sdk.now s)
        then (fault (call_failed "Transaction was not confirmed in time"), s)
        else again
      else (value response, s)

  -- With 30 s and 250 ms a round, 122 rounds are enough.
  unfoldable pub poll_with_get_transaction : String → Call S Transaction
  unfolding poll_from
  poll_with_get_transaction hash s =
      (get_transaction hash >>= poll_from 122 (sdk.now s + confirm_timeout) hash) s

-- `pollTransactionStatus`
unfoldable pub poll_transaction_status :
    {A X S : Type 0} → Sdk A X S → StellarServer A X S → String → Call S Transaction
unfolding poll_with_get_transaction
poll_transaction_status sdk server hash = elim server.poll_transaction [
  | some poll ↦ poll hash
  | none ↦ elim server.get_transaction [
    | some get ↦ poll_with_get_transaction sdk get hash
    | none ↦ throw (call_failed "Unable to confirm transaction")
  ]
]
