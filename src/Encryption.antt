-- ===== src/Encryption.antt =====
-- src/common/sanitization/credential-encryption.util.ts and contact-encryption.util.ts: texts
-- encrypted as `iv:tag:ciphertext`. AES-256-GCM, hexadecimal and UTF-8 are Node's: parameters. The
-- random IV is an argument.
pub mod Round
use Prim.Native.String.{◌++◌}
use trust_link_backend.Prelude.{
  ℕ, String, Option, none, some, List, [], ◌∷◌, Bool, true, false, not, ◌&&◌, ◌||◌, ◌≡◌,
  if◌then◌else◌, leb, eqb, truthy, or_else,
}
use trust_link_backend.Prelude.Text.Split.{split, Every}
use trust_link_backend.Exec.{Outcome, ok, err, Failure, rejected, unavailable}

-- `IV_BYTES`, `TAG_BYTES`
abbrev pub iv_bytes : ℕ
iv_bytes = 12

abbrev pub tag_bytes : ℕ
tag_bytes = 16

-- Buffers are of type `B`.
pub record Node (B : Type 0) : Type 0 where
  -- `Buffer.from(text, 'hex')`, `toString('hex')`, `length`
  pub of_hex : String → B
  pub hex : B → String
  pub size : B → ℕ
  -- the ciphertext and the tag, for a key, an IV and a text
  pub cipher : B → B → String → B × B
  -- for a key, an IV, a tag and a ciphertext; it throws where the tag does not fit
  pub decipher : B → B → B → B → Option String

abbrev pub is_hex : ℕ → Bool
is_hex c = (leb b'0' c && leb c b'9') || (leb b'a' c && leb c b'f')

-- What Node documents of them, and that a text `t`, which UTF-8 can encode, is what its ciphertext
-- deciphers to.
pub record IsNode {B : Type 0} (n : Node B) (t : String) : Type 0 where
  pub hex_plain : (b : B) → Every is_hex (n.hex b)
  pub of_hex-hex : (b : B) → n.of_hex (n.hex b) ≡ b
  pub tag_size : (key iv : B) → n.size (n.cipher key iv t).1 ≡ tag_bytes
  pub decipher-cipher :
      (key iv : B) → n.decipher key iv (n.cipher key iv t).1 (n.cipher key iv t).0 ≡ some t

-- A result and what follows it.
abbrev pub then_ : {A C : Type 0} → Outcome A → (A → Outcome C) → Outcome C
then_ (ok a) k = k a
then_ (err f) k = err f

abbrev pub or_reject : Option String → Outcome String
or_reject none = err rejected
or_reject (some t) = ok t

module _ {B : Type 0} (n : Node B) where
  unfoldable pub join_parts : B → B × B → String
  join_parts iv (ct, tag) = n.hex iv ++ (":" ++ (n.hex tag ++ (":" ++ n.hex ct)))

  -- The end of both decryptions, from the parts of the stored text.
  unfoldable pub decrypt_parts : B → List String → Outcome String
  decrypt_parts key (iv ∷ tag ∷ ct ∷ []) =
      if not (eqb (n.size (n.of_hex iv)) iv_bytes) || not (eqb (n.size (n.of_hex tag)) tag_bytes)
      then err rejected
      else or_reject (n.decipher key (n.of_hex iv) (n.of_hex tag) (n.of_hex ct))
  decrypt_parts key _ = err rejected

  unfoldable pub encrypt_credential : B → String → String → Outcome String
  unfolding join_parts
  encrypt_credential iv plaintext key_text =
      if eqb (n.size (n.of_hex key_text)) 32
      then ok (join_parts iv (n.cipher (n.of_hex key_text) iv plaintext))
      else err rejected

  unfoldable pub decrypt_credential : String → String → Outcome String
  unfolding decrypt_parts
  decrypt_credential stored key_text =
      if eqb (n.size (n.of_hex key_text)) 32
      then decrypt_parts (n.of_hex key_text) (split b':' stored)
      else err rejected

  unfoldable pub reencrypt_credential : B → String → String → String → Outcome String
  unfolding encrypt_credential decrypt_credential
  reencrypt_credential iv encrypted old_key new_key =
      then_ (decrypt_credential encrypted old_key) (λ t. encrypt_credential iv t new_key)

  module _ (configured : Option String) where
    -- `resolveKey`
    unfoldable pub resolve_key : Outcome B
    resolve_key =
        if truthy configured && eqb (n.size (n.of_hex (or_else configured ""))) 32
        then ok (n.of_hex (or_else configured ""))
        else err unavailable

    unfoldable pub is_contact_encryption_configured : Bool
    is_contact_encryption_configured =
        if truthy configured then eqb (n.size (n.of_hex (or_else configured ""))) 32 else false

    unfoldable pub encrypt_contact : B → String → Outcome String
    unfolding resolve_key join_parts
    encrypt_contact iv plaintext =
        then_ resolve_key (λ key. ok (join_parts iv (n.cipher key iv plaintext)))

    unfoldable pub decrypt_contact : String → Outcome String
    unfolding resolve_key decrypt_parts
    decrypt_contact stored = then_ resolve_key (λ key. decrypt_parts key (split b':' stored))
