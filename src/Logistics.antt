-- ===== src/Logistics.antt =====
-- src/logistics/logistics.service.ts and provider-credential.repository.ts: the key of the logistics
-- provider. The calls of the provider are stubs that always reject, and are left out.
pub mod Rotation
use trust_link_backend.Prelude.{
  String, Option, none, some, Bool, true, false, not, ◌&&◌, if◌then◌else◌, truthy, or_else,
}
use trust_link_backend.Exec.{
  Exec, Outcome, ok, err, Failure, rejected, pure, raise, lift, ◌>>=◌, ◌>>◌,
}
use trust_link_backend.Database.{TextTable}
use trust_link_backend.Encryption.{Node, encrypt_credential, decrypt_credential}

-- `apiKey`, and the rows of ProviderCredential
pub record Provider (S : Type 0) : Type 0 where
  pub api_key : Option String
  pub credentials : S

-- `CREDENTIAL_ENCRYPTION_KEY`, `LOGISTICS_API_KEY`
pub record Settings : Type 0 where
  pub encryption_key : Option String
  pub env_key : Option String

-- `LOGISTICS_CREDENTIAL_PROVIDER`
abbrev pub provider : String
provider = "logistics"

module _ {B S : Type 0} (n : Node B) (c : Settings) (repository : Option (TextTable S)) where
  -- The key encrypted under `CREDENTIAL_ENCRYPTION_KEY`.
  unfoldable pub encrypt_key : B → String → Outcome String
  encrypt_key iv key =
      if truthy c.encryption_key
      then encrypt_credential n iv key (or_else c.encryption_key "")
      else err rejected

  unfoldable pub set_encrypted_api_key : String → Exec (Provider S) (Unit {0})
  set_encrypted_api_key encrypted p = (ok tt, record p { api_key = some encrypted })

  unfoldable pub set_api_key : B → String → Exec (Provider S) (Unit {0})
  unfolding encrypt_key set_encrypted_api_key
  set_api_key iv key = do encrypted ← lift (encrypt_key iv key); set_encrypted_api_key encrypted

  -- `providerCredentialRepository?.upsert(…)`
  unfoldable pub persist : String → Exec (Provider S) (Unit {0})
  persist encrypted p = elim repository [
    | none ↦ (ok tt, p)
    | some K ↦ elim (K.upsert provider encrypted p.credentials) [
      | none ↦ (err rejected, p)
      | some s ↦ (ok tt, record p { credentials = s })
    ]
  ]

  unfoldable pub rotate_api_key : B → String → Exec (Provider S) (Unit {0})
  unfolding encrypt_key set_encrypted_api_key persist
  rotate_api_key iv key = do
    encrypted ← lift (encrypt_key iv key)
    set_encrypted_api_key encrypted
    persist encrypted

  -- Any failure to decrypt is one error.
  unfoldable pub get_api_key : Provider S → Outcome (Option String)
  get_api_key p =
      if not (truthy p.api_key)
      then ok none
      else if truthy c.encryption_key
      then elim (decrypt_credential n (or_else p.api_key "") (or_else c.encryption_key "")) [
        | ok key ↦ ok (some key)
        | err _ ↦ err rejected
      ]
      else err rejected

  -- The environment's key, where no key is stored.
  unfoldable pub load_env_key : B → Exec (Provider S) (Unit {0})
  unfolding set_encrypted_api_key
  load_env_key iv =
      if truthy c.env_key && truthy c.encryption_key
      then lift (encrypt_credential n iv (or_else c.env_key "") (or_else c.encryption_key ""))
        >>= set_encrypted_api_key
      else pure tt

  -- `findByProvider`; a rejected query is logged.
  unfoldable pub stored_key : Provider S → Option String
  stored_key p = elim repository [
    | none ↦ none
    | some K ↦ elim (K.find_unique provider p.credentials) [ none ↦ none | some o ↦ o ]
  ]

  unfoldable pub load_persisted_api_key : B → Exec (Provider S) (Unit {0})
  unfolding load_env_key set_encrypted_api_key stored_key
  load_persisted_api_key iv p = elim (stored_key p) [
    | some encrypted ↦ set_encrypted_api_key encrypted p
    | none ↦ load_env_key iv p
  ]
