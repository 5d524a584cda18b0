-- ===== src/Encryption/Round.antt =====
-- src/common/sanitization/*-encryption.util.ts: what was encrypted is decrypted again.
use Prim.Native.Char.{Char}
use Prim.Native.String.{◌++◌}
use text.Mathlib.TextLemmas.{nil-append, cons-append, append-ne-nil_of_right_ne-nil, cons-ne-nil}
use trust_link_backend.Prelude.{
  ℕ, String, Option, some, [], ◌∷◌, Bool, true, false, ◌&&◌, ◌⊎◌, ◌≡◌, refl, sym, ap, ◌∙◌, inl, inr,
  arith, eqb, truthy, or_else, Bool-cases, ◌==◌, eq_of_test,
}
use trust_link_backend.Prelude.Text.Split.{
  split, Every, Every-map, lacks, split-lacks, split-append,
}
use trust_link_backend.Exec.{ok, err, unavailable}
use trust_link_backend.Encryption.{
  Node, IsNode, is_hex, iv_bytes, join_parts, decrypt_parts, encrypt_credential, decrypt_credential,
  reencrypt_credential, resolve_key, is_contact_encryption_configured, encrypt_contact,
  decrypt_contact,
}

abbrev colon : Char
colon = ":"

coloned : (t : String) → ":" ++ t ≡ String.◌∷◌ colon t
coloned t = cons-append colon String.[] t ∙ ap (String.◌∷◌ colon) (nil-append t)

lacks_colon : (c : ℕ) → is_hex c ≡ true → lacks b':' c ≡ true
lacks_colon c h = ground arith

module _ {B : Type 0} (n : Node B) (t : String) (laws : IsNode n t) where
  plain : (b : B) → Every (lacks b':') (n.hex b)
  plain b = Every-map is_hex (lacks b':') lacks_colon (n.hex b) (laws.hex_plain b)

  split-join_parts :
      (iv ct tag : B)
      → split b':' (join_parts n iv (ct, tag)) ≡ n.hex iv ∷ n.hex tag ∷ n.hex ct ∷ []
  unfolding join_parts
  split-join_parts iv ct tag =
      ap (λ u. split b':' (n.hex iv ++ u)) (coloned (n.hex tag ++ (":" ++ n.hex ct)))
      ∙ split-append b':' (n.hex iv) colon (n.hex tag ++ (":" ++ n.hex ct)) (plain iv) refl
      ∙ ap (λ u. n.hex iv ∷ split b':' (n.hex tag ++ u)) (coloned (n.hex ct))
      ∙ ap (λ ts. n.hex iv ∷ ts) (split-append b':' (n.hex tag) colon (n.hex ct) (plain tag) refl)
      ∙ ap (λ ts. n.hex iv ∷ n.hex tag ∷ ts) (split-lacks b':' (n.hex ct) (plain ct))

  -- The parts of what a key encrypted.
  decrypt_parts-cipher :
      (key iv : B)
      → n.size iv ≡ iv_bytes
      → decrypt_parts n key (split b':' (join_parts n iv (n.cipher key iv t))) ≡ ok t
  unfolding decrypt_parts
  decrypt_parts-cipher key iv short =
      let (ct, tag) = n.cipher key iv t in
      rw
        (
          split-join_parts iv ct tag,
          laws.of_hex-hex iv,
          laws.of_hex-hex tag,
          laws.of_hex-hex ct,
          short,
          laws.tag_size key iv,
          laws.decipher-cipher key iv,
        )
        refl

  join_parts-truthy : (iv : B) (x : B × B) → truthy (some (join_parts n iv x)) ≡ true
  unfolding join_parts
  join_parts-truthy iv (ct, tag) = elim (Bool-cases (join_parts n iv (ct, tag) == "")) [
    | inr e ↦ rw e refl
    | inl e ↦
        let rest = n.hex tag ++ (":" ++ n.hex ct) in
        absurd (
          append-ne-nil_of_right_ne-nil (n.hex iv)
            (λ q. cons-ne-nil colon rest (sym (coloned rest) ∙ q))
            (eq_of_test (join_parts n iv (ct, tag)) "" e))
  ]

  -- What an encryption returned.
  encrypted :
      (iv : B) (key stored : String)
      → encrypt_credential n iv t key ≡ ok stored
      → (eqb (n.size (n.of_hex key)) 32 ≡ true)
        × (stored ≡ join_parts n iv (n.cipher (n.of_hex key) iv t))
  unfolding encrypt_credential
  encrypted iv key stored h = elim (Bool-cases (eqb (n.size (n.of_hex key)) 32)) [
    | inl e ↦ (e, ground (arith, e, h))
    | inr e ↦ absurd (ground (arith, e, h))
  ]

  pub encrypt_credential-truthy :
      (iv : B) (key stored : String)
      → encrypt_credential n iv t key ≡ ok stored
      → truthy (some stored) ≡ true
  encrypt_credential-truthy iv key stored h =
      let (_, e) = encrypted iv key stored h in
      ap (λ s. truthy (some s)) e ∙ join_parts-truthy iv (n.cipher (n.of_hex key) iv t)

  pub decrypt-encrypt :
      (iv : B) (key stored : String)
      → n.size iv ≡ iv_bytes
      → encrypt_credential n iv t key ≡ ok stored
      → decrypt_credential n stored key ≡ ok t
  unfolding decrypt_credential
  decrypt-encrypt iv key stored short h =
      let (size, e) = encrypted iv key stored h in
      ap (λ s. decrypt_credential n s key) e
      ∙ rw size (decrypt_parts-cipher (n.of_hex key) iv short)

  -- A credential that was encrypted under one key and encrypted again under another decrypts to the
  -- same text: with the old key before, and with the new key after.
  pub decrypt-reencrypt :
      (iv iv' : B) (old new stored : String)
      → n.size iv ≡ iv_bytes
      → n.size iv' ≡ iv_bytes
      → n.size (n.of_hex new) ≡ 32
      → encrypt_credential n iv t old ≡ ok stored
      → (again : String) × (reencrypt_credential n iv' stored old new ≡ ok again)
        × (decrypt_credential n again new ≡ ok t)
        × (decrypt_credential n stored old ≡ ok t)
  unfolding reencrypt_credential encrypt_credential
  decrypt-reencrypt iv iv' old new stored short short' size h =
      let again = join_parts n iv' (n.cipher (n.of_hex new) iv' t) in
      let read = decrypt-encrypt iv old stored short h in
      let made : encrypt_credential n iv' t new ≡ ok again = rw size refl in
      (again, rw read made, decrypt-encrypt iv' new again short' made, read)

  -- A key of 32 bytes is configured.
  abbrev pub has_key : Option String → Bool
  has_key configured = truthy configured && eqb (n.size (n.of_hex (or_else configured ""))) 32

  -- With a key of 32 bytes, a buyer's contact is encrypted, and what is stored is read back as it was
  -- given; without one, it is not encrypted, and no stored text at all is read: both answer 503. The
  -- check of the configuration tells which.
  pub decrypt_contact-encrypt_contact :
      (configured : Option String) (iv : B) (other : String)
      → n.size iv ≡ iv_bytes
      → ((has_key configured ≡ true)
          × (is_contact_encryption_configured n configured ≡ true)
          × ((stored : String) × (encrypt_contact n configured iv t ≡ ok stored)
              × (decrypt_contact n configured stored ≡ ok t)))
        ⊎ (has_key configured ≡ false)
          × (is_contact_encryption_configured n configured ≡ false)
          × (encrypt_contact n configured iv t ≡ err unavailable)
          × (decrypt_contact n configured other ≡ err unavailable)
  unfolding encrypt_contact decrypt_contact resolve_key is_contact_encryption_configured
  decrypt_contact-encrypt_contact configured iv other short =
      let key = n.of_hex (or_else configured "") in
      elim (Bool-cases (truthy configured)) [
        | inr e ↦ inr (rw e refl, rw e refl, rw e refl, rw e refl)
        | inl e ↦ elim (Bool-cases (eqb (n.size key) 32)) [
          | inr z ↦ inr (rw (e, z) refl, rw (e, z) refl, rw (e, z) refl, rw (e, z) refl)
          | inl z ↦ inl (
            rw (e, z) refl,
            rw (e, z) refl,
            (
              join_parts n iv (n.cipher key iv t),
              rw (e, z) refl,
              rw (e, z) (decrypt_parts-cipher key iv short),
            ),
          )
        ]
      ]
