-- ===== src/Logistics/Rotation.antt =====
-- src/logistics/logistics.service.ts: a rotated key is the one in use, in this process and in one
-- that starts later.
use trust_link_backend.Prelude.{
  String, Option, none, some, ◌≡◌, refl, sym, ap, ◌∙◌, ◌⊎◌, inl, inr, arith, truthy, or_else,
  Bool-cases, Option-cases,
}
use trust_link_backend.Exec.{Outcome-cases, ok}
use trust_link_backend.Database.{TextTable}
use trust_link_backend.Encryption.{Node, IsNode, iv_bytes, encrypt_credential}
use trust_link_backend.Encryption.Round.{encrypt_credential-truthy, decrypt-encrypt}
use trust_link_backend.Logistics.{
  Provider, Settings, provider, encrypt_key, set_encrypted_api_key, persist, rotate_api_key,
  get_api_key, stored_key, load_persisted_api_key,
}

-- What is read after a write is what was written, unless the query is rejected.
pub record IsTextTable {S : Type 0} (K : TextTable S) : Type 0 where
  pub find-upsert :
      (k v : String) (s s' : S) (o : Option String)
      → K.upsert k v s ≡ some s'
      → K.find_unique k s' ≡ some o
      → o ≡ some v

module _ {B S : Type 0} (n : Node B) (key : String) (laws : IsNode n key) (c : Settings)
    (K : TextTable S) (table : IsTextTable K) where
  persisted :
      (encrypted : String) (p p' : Provider S)
      → persist n c (some K) encrypted p ≡ (ok tt, p')
      → (p'.api_key ≡ p.api_key)
        × ((o : Option String)
            → K.find_unique provider p'.credentials ≡ some o
            → o ≡ some encrypted)
  unfolding persist
  persisted encrypted p p' h = elim (Option-cases (K.upsert provider encrypted p.credentials)) [
    | inl e ↦ absurd (ground (arith, e, h))
    | inr (s, e) ↦
        let kept : p'.credentials ≡ s = ground (arith, e, h) in
        (
          ground (arith, e, h),
          λ o q.
              table.find-upsert provider encrypted p.credentials s o e
                (ap (K.find_unique provider) (sym kept) ∙ q),
        )
  ]

  -- The key that the held one decrypts to.
  get_api_key-held :
      (iv : B) (encrypted : String) (p : Provider S)
      → n.size iv ≡ iv_bytes
      → encrypt_key n c (some K) iv key ≡ ok encrypted
      → p.api_key ≡ some encrypted
      → get_api_key n c (some K) p ≡ ok (some key)
  unfolding encrypt_key get_api_key
  get_api_key-held iv encrypted p short made held = elim (Bool-cases (truthy c.encryption_key)) [
    | inr e ↦ absurd (ground (arith, e, made))
    | inl e ↦
        let m : encrypt_credential n iv key (or_else c.encryption_key "") ≡ ok encrypted =
          ground (arith, e, made) in
        rw
          (
            held,
            encrypt_credential-truthy n key laws iv (or_else c.encryption_key "") encrypted m,
            e,
            decrypt-encrypt n key laws iv (or_else c.encryption_key "") encrypted short m,
          )
          refl
  ]

  -- What a rotation that succeeds has done.
  rotated :
      (iv : B) (p p' : Provider S)
      → rotate_api_key n c (some K) iv key p ≡ (ok tt, p')
      → (encrypted : String) × (encrypt_key n c (some K) iv key ≡ ok encrypted)
        × (persist n c (some K) encrypted (record p { api_key = some encrypted }) ≡ (ok tt, p'))
  unfolding rotate_api_key set_encrypted_api_key
  rotated iv p p' h = elim (Outcome-cases (encrypt_key n c (some K) iv key)) [
    | inl (encrypted, e) ↦ (encrypted, e, ground (arith, e, h))
    | inr (f, e) ↦ absurd (ground (arith, e, h))
  ]

  -- A process that starts on a stored key holds it.
  started :
      (iv : B) (encrypted : String) (p : Provider S)
      → K.find_unique provider p.credentials ≡ some (some encrypted)
      → load_persisted_api_key n c (some K) iv p ≡ (ok tt, record p { api_key = some encrypted })
  unfolding load_persisted_api_key set_encrypted_api_key stored_key
  started iv encrypted p e = rw (load_persisted_api_key, stored_key, e) refl

  -- A key whose rotation is reported to have succeeded is the key in use from then on. A process that
  -- starts later on the same rows, with no key yet, has it too, unless its query is rejected.
  pub get_api_key-rotate_api_key :
      (iv iv' : B) (p p' : Provider S)
      → n.size iv ≡ iv_bytes
      → rotate_api_key n c (some K) iv key p ≡ (ok tt, p')
      → (get_api_key n c (some K) p' ≡ ok (some key))
        × ((K.find_unique provider p'.credentials ≡ none)
            ⊎ (get_api_key n c
                  (some K)
                  (load_persisted_api_key n c (some K) iv' (record p' { api_key = none })).1
                ≡ ok (some key)))
  get_api_key-rotate_api_key iv iv' p p' short h =
      let (encrypted, made, kept) = rotated iv p p' h in
      let (held, written) = persisted encrypted (record p { api_key = some encrypted }) p' kept in
      (
        get_api_key-held iv encrypted p' short made held,
        elim (Option-cases (K.find_unique provider p'.credentials)) [
          | inl e ↦ inl e
          | inr (o, e) ↦ inr (
              ap (λ r. get_api_key n c (some K) r.1)
                (started iv' encrypted (record p' { api_key = none }) (e ∙ ap some (written o e)))
              ∙ get_api_key-held iv encrypted (record p' { api_key = some encrypted }) short made
                  refl)
        ],
      )
