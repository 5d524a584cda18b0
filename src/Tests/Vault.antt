-- ===== src/Tests/Vault.antt =====
-- Buffers of which there are six, on which the theorems about encrypted texts are applied.
use trust_link_backend.Prelude.{
  ℕ, String, Option, none, some, true, false, ◌≡◌, refl, sym, ◌∙◌, if◌then◌else◌, ◌==◌, ◌⊎◌,
}
use mathlib.Core.Option.{some-injective}
use trust_link_backend.Prelude.Text.Split.{Every}
use trust_link_backend.Exec.{ok, err, unavailable}
use trust_link_backend.Database.{TextTable}
use trust_link_backend.Encryption.{
  Node, IsNode, is_hex, join_parts, encrypt_credential, decrypt_credential, reencrypt_credential,
  is_contact_encryption_configured, encrypt_contact, decrypt_contact,
}
use trust_link_backend.Encryption.Round.{
  has_key, decrypt-reencrypt, decrypt_contact-encrypt_contact,
}
use trust_link_backend.Logistics.{
  Provider, Settings, provider, encrypt_key, set_encrypted_api_key, persist, rotate_api_key,
  get_api_key, load_persisted_api_key,
}
use trust_link_backend.Logistics.Rotation.{IsTextTable, get_api_key-rotate_api_key}

pub data Buffer : Type 0 where
  first_iv second_iv old_key new_key tag cipher_text : Buffer

abbrev hex_of : Buffer → String
hex_of first_iv = "1a"
hex_of second_iv = "1b"
hex_of old_key = "aa"
hex_of new_key = "bb"
hex_of tag = "0f"
hex_of cipher_text = "c0ffee"

abbrev buffer_of : String → Buffer
buffer_of s =
    if s == "1a"
    then first_iv
    else if s == "1b"
    then second_iv
    else if s == "aa"
    then old_key
    else if s == "bb"
    then new_key
    else if s == "0f"
    then tag
    else cipher_text

abbrev size_of : Buffer → ℕ
size_of first_iv = 12
size_of second_iv = 12
size_of old_key = 32
size_of new_key = 32
size_of tag = 16
size_of cipher_text = 6

abbrev pub node : Node Buffer
node = record {
  of_hex = buffer_of;
  hex = hex_of;
  size = size_of;
  cipher = λ _ _ _. (cipher_text, tag);
  decipher = λ _ _ _ _. some "secret";
}

node-IsNode : IsNode node "secret"
node-IsNode = record {
  hex_plain = plain;
  of_hex-hex = recovered;
  tag_size = λ _ _. refl;
  decipher-cipher = λ _ _. refl;
}
  where
    plain : (b : Buffer) → Every is_hex (hex_of b)
    plain first_iv = (refl, (refl, tt))
    plain second_iv = (refl, (refl, tt))
    plain old_key = (refl, (refl, tt))
    plain new_key = (refl, (refl, tt))
    plain tag = (refl, (refl, tt))
    plain cipher_text = (refl, (refl, (refl, (refl, (refl, (refl, tt))))))

    recovered : (b : Buffer) → buffer_of (hex_of b) ≡ b
    recovered first_iv = refl
    recovered second_iv = refl
    recovered old_key = refl
    recovered new_key = refl
    recovered tag = refl
    recovered cipher_text = refl

first_encrypted : encrypt_credential node first_iv "secret" "aa" ≡ ok "1a:0f:c0ffee"
unfolding encrypt_credential join_parts
first_encrypted = refl

decrypt-reencrypt_example :
    (again : String) × (reencrypt_credential node second_iv "1a:0f:c0ffee" "aa" "bb" ≡ ok again)
    × (decrypt_credential node again "bb" ≡ ok "secret")
    × (decrypt_credential node "1a:0f:c0ffee" "aa" ≡ ok "secret")
decrypt-reencrypt_example =
    decrypt-reencrypt node "secret" node-IsNode first_iv second_iv "aa" "bb" "1a:0f:c0ffee" refl
      refl refl first_encrypted

decrypt_contact-encrypt_contact_example :
    ((has_key node "secret" node-IsNode (some "aa") ≡ true)
      × (is_contact_encryption_configured node (some "aa") ≡ true)
      × ((stored : String) × (encrypt_contact node (some "aa") first_iv "secret" ≡ ok stored)
          × (decrypt_contact node (some "aa") stored ≡ ok "secret")))
    ⊎ (has_key node "secret" node-IsNode (some "aa") ≡ false)
      × (is_contact_encryption_configured node (some "aa") ≡ false)
      × (encrypt_contact node (some "aa") first_iv "secret" ≡ err unavailable)
      × (decrypt_contact node (some "aa") "x" ≡ err unavailable)
decrypt_contact-encrypt_contact_example =
    decrypt_contact-encrypt_contact node "secret" node-IsNode (some "aa") first_iv "x" refl

-- A table with one row.
abbrev pub one_row : TextTable (Option String)
one_row = record { upsert = λ _ v _. some (some v); find_unique = λ _ s. some s }

one_row-IsTextTable : IsTextTable one_row
one_row-IsTextTable = record {
  find-upsert = λ k v s s' o h q. sym (some-injective s' o q) ∙ sym (some-injective (some v) s' h);
}

abbrev settings : Settings
settings = record { encryption_key = some "aa"; env_key = none }

abbrev rotated_provider : Provider (Option String)
rotated_provider = record { api_key = some "1a:0f:c0ffee"; credentials = some "1a:0f:c0ffee" }

rotates :
    rotate_api_key node settings
      (some one_row)
      first_iv
      "secret"
      (record { api_key = none; credentials = none })
    ≡ (ok tt, rotated_provider)
unfolding rotate_api_key encrypt_key set_encrypted_api_key persist encrypt_credential join_parts
rotates = refl

get_api_key-rotate_api_key_example :
    (get_api_key node settings (some one_row) rotated_provider ≡ ok (some "secret"))
    × ((one_row.find_unique provider rotated_provider.credentials ≡ none)
        ⊎ (get_api_key node settings
              (some one_row)
              (load_persisted_api_key node settings
                (some one_row)
                second_iv
                (record rotated_provider { api_key = none })).1
            ≡ ok (some "secret")))
get_api_key-rotate_api_key_example =
    get_api_key-rotate_api_key node "secret" node-IsNode settings one_row one_row-IsTextTable
      first_iv second_iv (record { api_key = none; credentials = none }) rotated_provider refl
      rotates
