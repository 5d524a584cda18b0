-- ===== src/ContractClient.antt =====
-- src/stellar/contract.service.ts: submitting transactions to the Soroban contract.
-- The RPC server, the Stellar SDK and the configuration are parameters: an optional method of the
-- server is an `Option`, and the server's state passes through each call.
pub mod Confirm
pub mod Invoke
pub mod AutoRelease
pub mod Ends
pub mod Ledger
pub mod Once
use trust_link_backend.Backend.{Resolution}
use trust_link_backend.Prelude.{ℕ, String, Option, List, Bool, ◌||◌, ◌≡◌, ◌+◌, ◌≤◌}
use trust_link_backend.Prelude.Text.{mentions}

-- A `ContractCallFailedException` or another error, with its message. `unfinished` stands for a loop
-- that has used up its rounds, which no call of the code ends with.
pub data Fault : Type 0 where
  call_failed thrown : String → Fault
  unfinished : Fault

pub data Answer (A : Type 0) : Type 0 where
  value : A → Answer A
  fault : Fault → Answer A

abbrev pub Call : Type 0 → Type 0 → Type 0
Call S A = S → Answer A × S

module _ {S A : Type 0} where
  abbrev pub pure : A → Call S A
  pure a s = (value a, s)

  abbrev pub throw : Fault → Call S A
  throw f s = (fault f, s)

  -- `try { … } catch (e) { … }`
  abbrev pub handle : (Fault → Call S A) → Answer A × S → Answer A × S
  handle k (value a, s) = (value a, s)
  handle k (fault f, s) = k f s

module _ {S A B : Type 0} where
  infixl 5 ◌>>=◌ ◌>>◌
  abbrev pub continue : (A → Call S B) → Answer A × S → Answer B × S
  continue k (value a, s) = k a s
  continue k (fault f, s) = (fault f, s)

  abbrev pub ◌>>=◌ : Call S A → (A → Call S B) → Call S B
  ◌>>=◌ m k s = continue k (m s)

  abbrev pub ◌>>◌ : Call S A → Call S B → Call S B
  ◌>>◌ m k s = continue (λ _. k) (m s)

-- `SimulateTransactionResponse`: the SDK's own test, and the field `error`
pub record Simulation : Type 0 where
  pub flagged : Bool
  pub error : Option String

-- `SendTransactionResponse`, with the error payload as a text
pub record Sending : Type 0 where
  pub status : String
  pub hash : Option String
  pub error_result : Option String

-- `GetTransactionResponse`
pub record Transaction : Type 0 where
  pub status : String
  pub result_xdr : Option String

-- What `submitTransaction` of a stub answers.
pub record Receipt : Type 0 where
  pub hash : Option String
  pub status : Option String
  pub result_xdr : Option String

-- An argument as it is encoded: `new Address(a).toScVal()`, `nativeToScVal(n, { type: 'u64' })`,
-- `toResolutionType(r)`, `nativeToScVal(s)`.
pub data Argument : Type 0 where
  address : String → Argument
  u64 : ℕ → Argument
  resolution : Resolution → Argument
  text : String → Argument

-- A call of the contract: its name, its arguments, which a stub is handed by name, and the source account.
pub record Invocation : Type 0 where
  pub function_name : String
  pub arguments : List Argument
  pub source_address : Option String

-- `StellarServer`, with accounts `A` as the SDK builds them, transactions `X` and state `S`.
pub record StellarServer (A X S : Type 0) : Type 0 where
  -- the sequence of an account
  pub load_account : Option (String → Call S String)
  pub get_account : Option (String → Call S A)
  pub simulate_transaction : Option (X → Call S Simulation)
  pub prepare_transaction : Option (X → Call S X)
  pub send_transaction : Option (X → Call S Sending)
  pub poll_transaction : Option (String → Call S Transaction)
  pub get_transaction : Option (String → Call S Transaction)
  -- the operation's name, the sequence if it was read, and the call
  pub submit_transaction : Option (String → Option String → Invocation → Call S Receipt)

-- The SDK and the process: `Keypair.fromSecret`, `new Account`, `new Contract`, the builder,
-- `assembleTransaction`, `sign`, the clock and the timer.
pub record Sdk (A X S : Type 0) : Type 0 where
  pub public_key : String → Option String
  pub account : String → String → Answer A
  pub is_contract_id : String → Bool
  pub build : A → Invocation → X
  pub assemble : X → Simulation → Answer X
  pub sign : String → X → X
  pub now : S → ℕ
  pub sleep : ℕ → S → S

-- `CONTRACT_ID`, `SYSTEM_SIGNER_SECRET`
pub record Settings : Type 0 where
  pub contract_id : Option String
  pub signer_secret : Option String

-- `isSequenceError`
unfoldable pub is_sequence_text : String → Bool
unfolding mentions
is_sequence_text t = mentions t "sequence" || mentions t "tx_bad_seq" || mentions t "bad_seq"
