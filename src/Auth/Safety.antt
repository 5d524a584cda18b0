-- ===== src/Auth/Safety.antt =====
-- src/auth/sep10/sep10.service.ts: a challenge and a refresh token serve once, when the calls come one
-- after another, and a token that comes back ends every session of its user.
use trust_link_backend.Prelude.{
  String, none, some, true, false, ◌≡◌, sym, ap, ◌∙◌, ◌⊎◌, inl, inr, ◌==◌, eq_iff, arith,
  Option-cases, ltb,
}
use trust_link_backend.Exec.{ok, err, rejected, unauthorized}
use trust_link_backend.Database.{IsTable}
use trust_link_backend.Auth.{
  Nonce, RefreshToken, Tokens, Random, Sessions, Sep10, payload_at, issue_jwt, new_token,
  generate_auth_tokens, find_nonce, use_nonce, check_nonce, verify_read, verify_and_issue_token,
}

module _ {N F : Type 0} (s : Sep10 N F) (nonces_lawful : IsTable s.nonce_table)
    (tokens_lawful : IsTable s.token_table) (nonce_key : (n : Nonce) → s.nonce_table.key n ≡ n.id)
    (token_key : (t : RefreshToken) → s.token_table.key t ≡ t.id) where
  open s use {nonce_table as NT, token_table as FT}

  -- What a successful sign-in rests on.
  pub record Verified (tx : String) (w : Sessions N F) : Type 0 where
    pub account : String
    pub stored : Nonce
    pub read : s.read_challenge tx ≡ some account
    pub present : NT.row stored.id w.nonces ≡ some stored
    pub matches : (stored.nonce == s.tx_hash tx) ≡ true
    pub unused : stored.used ≡ false
    pub unexpired : ltb stored.expires_at w.now ≡ false
    pub signed : s.is_signed tx account ≡ true

  -- The end of a sign-in: the nonce was marked, and the tokens made for the account.
  abbrev Issued : Random → String → Nonce → Sessions N F → Tokens → Sessions N F → Type 0
  Issued random account n w t w' =
      (t.token ≡ s.sign (payload_at s.admin_address s.access_token_ttl w.now account))
      × (u : Nonce) × (NT.update n.id (λ x. record x { used = true }) w.nonces
          ≡ some (u, w'.nonces))

  check_nonce-Issued :
      (random : Random) (tx account : String) (n : Nonce) (w : Sessions N F) (t : Tokens)
      (w' : Sessions N F)
      → check_nonce s random tx account (some n) w ≡ (ok t, w')
      → (n.used ≡ false)
        × (ltb n.expires_at w.now ≡ false)
        × (s.is_signed tx account ≡ true)
        × Issued random account n w t w'
  unfolding check_nonce use_nonce generate_auth_tokens issue_jwt
  check_nonce-Issued random tx account n w t w' e =
      elim (Option-cases (NT.update n.id (λ x. record x { used = true }) w.nonces)) [
        | inl q ↦ absurd (ground (arith, e))
        | inr ((u, v), q) ↦
            elim (Option-cases (FT.create (new_token s random account none w.now) w.tokens)) [
              | inl p ↦ absurd (ground (arith, e))
              | inr (v', p) ↦ (
                ground (arith, e),
                ground (arith, e),
                ground (arith, e),
                (ground (arith, e), u, ground (arith, e)),
              )
            ]
      ]

  -- How a sign-in comes to its end.
  abbrev Signed : Random → String → Sessions N F → Tokens → Sessions N F → Type 0
  Signed random tx w t w' = (v : Verified tx w) × Issued random v.account v.stored w t w'

  signed_in :
      (random : Random) (tx : String) (w w' : Sessions N F) (t : Tokens)
      → verify_and_issue_token s random tx w ≡ (ok t, w')
      → Signed random tx w t w'
  unfolding verify_and_issue_token verify_read find_nonce check_nonce
  signed_in random tx w w' t e = elim (Option-cases (s.read_challenge tx)) [
    | inl q ↦ absurd (ground (arith, e))
    | inr (account, q) ↦
        elim (Option-cases (NT.find_first (λ n. n.nonce == s.tx_hash tx) w.nonces)) [
          | inl p ↦ absurd (ground (arith, e))
          | inr (none, p) ↦ absurd (ground (arith, e))
          | inr (some n, p) ↦
              let run : verify_and_issue_token s random tx w
                  ≡ check_nonce s random tx account (some n) w =
                ground arith in
              let (unused, unexpired, signed, issued) =
                check_nonce-Issued random tx account n w t w' (sym run ∙ e) in
              let (matches, at) =
                nonces_lawful.row-find_first (λ n. n.nonce == s.tx_hash tx) w.nonces n p in
              (
                record {
                  account = account;
                  stored = n;
                  read = q;
                  present = ap (λ k. NT.row k w.nonces) (sym (nonce_key n)) ∙ at;
                  matches = matches;
                  unused = unused;
                  unexpired = unexpired;
                  signed = signed;
                },
                issued,
              )
        ]
  ]

  -- A sign-in succeeds only for a challenge that this server signed, whose nonce is stored, was not
  -- used and has not expired, and that the challenged account signed; and the token is one for that
  -- account, with the admin's role exactly if the account is the configured admin.
  pub verify-Verified :
      (random : Random) (tx : String) (w w' : Sessions N F) (t : Tokens)
      → verify_and_issue_token s random tx w ≡ (ok t, w')
      → (v : Verified tx w) × (t.token
          ≡ s.sign (payload_at s.admin_address s.access_token_ttl w.now v.account))
  verify-Verified random tx w w' t e =
      let (v, issued) = signed_in random tx w w' t e in (v, issued.0)

  -- `nonce` is a unique column.
  abbrev pub NonceUnique : N → Type 0
  NonceUnique t =
      (m n : Nonce)
      → NT.row m.id t ≡ some m
      → NT.row n.id t ≡ some n
      → (m.nonce == n.nonce) ≡ true
      → m.id ≡ n.id

  -- Every nonce with this hash was used.
  abbrev Used : String → N → Type 0
  Used hash t = (m : Nonce) → NT.row m.id t ≡ some m → (m.nonce == hash) ≡ true → m.used ≡ true

  signed_in-Used :
      (random : Random) (tx : String) (w w' : Sessions N F) (t : Tokens)
      → NonceUnique w.nonces
      → Signed random tx w t w'
      → Used (s.tx_hash tx) w'.nonces
  signed_in-Used random tx w w' t unique (v, (_, u, made)) m at h =
      let rows =
        nonces_lawful.row-update v.stored.id (λ x. record x { used = true }) w.nonces w'.nonces u
          m.id made in
      ground (
        arith,
        rows,
        v.present,
        eq_iff v.stored.id m.id,
        eq_iff m.nonce (s.tx_hash tx),
        eq_iff v.stored.nonce (s.tx_hash tx),
        eq_iff m.nonce v.stored.nonce,
        v.matches,
        unique m v.stored,
      )

  Used-refused :
      (random : Random) (tx : String) (w : Sessions N F)
      → Used (s.tx_hash tx) w.nonces
      → (verify_and_issue_token s random tx w ≡ (err unauthorized, w))
        ⊎ (verify_and_issue_token s random tx w ≡ (err rejected, w))
  unfolding verify_and_issue_token verify_read find_nonce check_nonce
  Used-refused random tx w used = elim (Option-cases (s.read_challenge tx)) [
    | inl q ↦ inl (ground arith)
    | inr (account, q) ↦
        elim (Option-cases (NT.find_first (λ n. n.nonce == s.tx_hash tx) w.nonces)) [
          | inl p ↦ inr (ground arith)
          | inr (none, p) ↦ inl (ground arith)
          | inr (some n, p) ↦
              let (matches, at) =
                nonces_lawful.row-find_first (λ n. n.nonce == s.tx_hash tx) w.nonces n p in
              let spent = used n (ap (λ k. NT.row k w.nonces) (sym (nonce_key n)) ∙ at) matches in
              inl (ground arith)
        ]
  ]

  -- After a sign-in the same challenge is refused, and changes nothing.
  pub verify_twice :
      (random random' : Random) (tx : String) (w w' : Sessions N F) (t : Tokens)
      → NonceUnique w.nonces
      → verify_and_issue_token s random tx w ≡ (ok t, w')
      → (verify_and_issue_token s random' tx w' ≡ (err unauthorized, w'))
        ⊎ (verify_and_issue_token s random' tx w' ≡ (err rejected, w'))
  verify_twice random random' tx w w' t unique e =
      Used-refused random' tx w'
        (signed_in-Used random tx w w' t unique (signed_in random tx w w' t e))
