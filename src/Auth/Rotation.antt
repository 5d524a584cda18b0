-- ===== src/Auth/Rotation.antt =====
-- src/auth/sep10/sep10.service.ts: `rotateRefreshToken` and `revokeTokenFamily`.
use trust_link_backend.Prelude.{
  String, none, some, true, false, ◌≡◌, sym, ap, ◌∙◌, ◌⊎◌, inl, inr, ◌==◌, if◌then◌else◌, eq_iff,
  eq_refl, arith, Option-cases,
}
use trust_link_backend.Exec.{ok, err, rejected, unauthorized}
use trust_link_backend.Database.{IsTable}
use trust_link_backend.Auth.{
  RefreshToken, Tokens, Random, Sessions, Sep10, new_token, generate_auth_tokens, find_token,
  find_by_id, revoke_all, revoke_token_family, revoke, rotate_found, rotate_refresh_token,
}

module _ {N F : Type 0} (s : Sep10 N F) (tokens_lawful : IsTable s.token_table)
    (token_key : (t : RefreshToken) → s.token_table.key t ≡ t.id) where
  open s use {token_table as FT}

  -- Every token of the user is revoked.
  abbrev pub Ended : String → F → Type 0
  Ended user t =
      (j : String) (x : RefreshToken)
      → FT.row j t ≡ some x
      → (x.user_id == user) ≡ true
      → x.revoked ≡ true

  -- A presented token was turned away: by a rejected query, or with every session of its user ended.
  abbrev pub TurnedAway : Random → String → Sessions N F → Type 0
  TurnedAway random old w =
      (rotate_refresh_token s random old w ≡ (err rejected, w))
      ⊎ ((w' : Sessions N F) × (stored : RefreshToken) × (FT.row stored.id w.tokens ≡ some stored)
          × ((stored.token_hash == s.hash_token old) ≡ true)
          × (rotate_refresh_token s random old w ≡ (err unauthorized, w'))
          × Ended stored.user_id w'.tokens)

  all-Ended :
      (user : String) (t u : F)
      → FT.update_all (λ x. x.user_id == user) (λ x. record x { revoked = true }) t ≡ some u
      → Ended user u
  all-Ended user t u e j x at h = elim (Option-cases (FT.row j t)) [
    | inl m ↦ absurd (
        ground (
          arith,
          m,
          at,
          tokens_lawful.row-update_all (λ y. y.user_id == user) (λ y. record y { revoked = true }) t
              u j e,
        ))
    | inr (old, m) ↦ ground (
      arith,
      m,
      at,
      h,
      tokens_lawful.row-update_all (λ y. y.user_id == user) (λ y. record y { revoked = true }) t u j
          e,
    )
  ]

  -- A token that is stored and revoked, when it is presented.
  found_revoked :
      (random : Random) (old : String) (w : Sessions N F) (t : RefreshToken)
      → FT.find_first (λ x. x.token_hash == s.hash_token old) w.tokens ≡ some (some t)
      → t.revoked ≡ true
      → FT.row t.id w.tokens ≡ some t
      → (t.token_hash == s.hash_token old) ≡ true
      → TurnedAway random old w
  unfolding rotate_refresh_token find_token rotate_found revoke_token_family find_by_id revoke_all
  found_revoked random old w t e h at match = elim (Option-cases (FT.find_unique t.id w.tokens)) [
    | inl p ↦ inl (ground arith)
    | inr (o, p) ↦
        let same : o ≡ some t = sym (tokens_lawful.row-find_unique t.id w.tokens o p) ∙ at in
        elim (Option-cases (
          FT.update_all (λ x. x.user_id == t.user_id) (λ x. record x { revoked = true })
            w.tokens)) [
              | inl q ↦ inl (ground arith)
              | inr (u, q) ↦ inr (
                record w { tokens = u },
                t,
                at,
                match,
                ground arith,
                all-Ended t.user_id w.tokens u q,
              )
            ]
  ]

  -- Every stored token with this hash is revoked, and there is one.
  abbrev pub Spent : String → F → Type 0
  Spent hash t =
      ((x : RefreshToken)
        → FT.row x.id t ≡ some x
        → (x.token_hash == hash) ≡ true
        → x.revoked ≡ true)
      × (x : RefreshToken) × (FT.row x.id t ≡ some x)
      × ((x.token_hash == hash) ≡ true)

  -- A token that was revoked, when it is presented again: the request is refused, and ends every
  -- session of the token's user, unless a query is rejected.
  pub Spent-TurnedAway :
      (random : Random) (old : String) (w : Sessions N F)
      → Spent (s.hash_token old) w.tokens
      → TurnedAway random old w
  unfolding rotate_refresh_token find_token
  Spent-TurnedAway random old w (revoked, x, at, h) =
      elim (Option-cases (FT.find_first (λ y. y.token_hash == s.hash_token old) w.tokens)) [
        | inl p ↦ inl (ground arith)
        | inr (none, p) ↦ absurd (
            ground (
              arith,
              h,
              tokens_lawful.row-find_first_none (λ y. y.token_hash == s.hash_token old) w.tokens
                  x.id x p at (token_key x),
            ))
        | inr (some t, p) ↦
            let (match, there) =
              tokens_lawful.row-find_first (λ y. y.token_hash == s.hash_token old) w.tokens t p in
            let stored = ap (λ k. FT.row k w.tokens) (sym (token_key t)) ∙ there in
            found_revoked random old w t p (revoked t stored match) stored match
      ]

  -- How a rotation comes to its end.
  abbrev Rotated : Random → String → Sessions N F → Sessions N F → Type 0
  Rotated random old w w' =
      (t : RefreshToken) × (u : RefreshToken) × (mid : F) × (FT.row t.id w.tokens ≡ some t)
      × ((t.token_hash == s.hash_token old) ≡ true)
      × (FT.update t.id (λ x. record x { revoked = true }) w.tokens ≡ some (u, mid))
      × (FT.create (new_token s random t.user_id (some t.id) w.now) mid ≡ some w'.tokens)

  rotated_found :
      (random : Random) (t : RefreshToken) (w w' : Sessions N F) (ts : Tokens)
      → rotate_found s random (some t) w ≡ (ok ts, w')
      → (u : RefreshToken) × (mid : F) × (FT.update t.id (λ x. record x { revoked = true }) w.tokens
          ≡ some (u, mid))
        × (FT.create (new_token s random t.user_id (some t.id) w.now) mid ≡ some w'.tokens)
  unfolding rotate_found revoke generate_auth_tokens revoke_token_family find_by_id revoke_all
  rotated_found random t w w' ts e =
      elim (Option-cases (FT.update t.id (λ x. record x { revoked = true }) w.tokens)) [
        | inl q ↦ absurd (ground (arith, e))
        | inr ((u, mid), q) ↦
            elim (Option-cases (FT.create (new_token s random t.user_id (some t.id) w.now) mid)) [
              | inl p ↦ absurd (ground (arith, e))
              | inr (v, p) ↦ (u, mid, q, ground (arith, e))
            ]
      ]

  rotated :
      (random : Random) (old : String) (w w' : Sessions N F) (ts : Tokens)
      → rotate_refresh_token s random old w ≡ (ok ts, w')
      → Rotated random old w w'
  unfolding rotate_refresh_token find_token rotate_found
  rotated random old w w' ts e =
      elim (Option-cases (FT.find_first (λ y. y.token_hash == s.hash_token old) w.tokens)) [
        | inl p ↦ absurd (ground (arith, e))
        | inr (none, p) ↦ absurd (ground (arith, e))
        | inr (some t, p) ↦
            let (match, there) =
              tokens_lawful.row-find_first (λ y. y.token_hash == s.hash_token old) w.tokens t p in
            let run : rotate_refresh_token s random old w ≡ rotate_found s random (some t) w =
              ground arith in
            let (u, mid, q, c) = rotated_found random t w w' ts (sym run ∙ e) in
            (t, u, mid, ap (λ k. FT.row k w.tokens) (sym (token_key t)) ∙ there, match, q, c)
      ]

  -- `tokenHash` is a unique column.
  abbrev pub HashUnique : F → Type 0
  HashUnique t =
      (x y : RefreshToken)
      → FT.row x.id t ≡ some x
      → FT.row y.id t ≡ some y
      → (x.token_hash == y.token_hash) ≡ true
      → x.id ≡ y.id

  rotated-rows :
      (random : Random) (old : String) (w w' : Sessions N F) (t u : RefreshToken) (mid : F)
      (j : String)
      → FT.row t.id w.tokens ≡ some t
      → FT.update t.id (λ x. record x { revoked = true }) w.tokens ≡ some (u, mid)
      → FT.create (new_token s random t.user_id (some t.id) w.now) mid ≡ some w'.tokens
      → FT.row j w'.tokens ≡ (
          if random.row_id == j
          then some (new_token s random t.user_id (some t.id) w.now)
          else (if t.id == j then some (record t { revoked = true }) else FT.row j w.tokens))
  rotated-rows random old w w' t u mid j at q c =
      let new = new_token s random t.user_id (some t.id) w.now in
      tokens_lawful.row-create new mid w'.tokens j c
      ∙ ap (λ k. if k == j then some new else FT.row j mid) (token_key new)
      ∙ ap (λ o. if random.row_id == j then some new else o)
          (tokens_lawful.row-update t.id (λ x. record x { revoked = true }) w.tokens mid u j q
            ∙ ground (arith, at))

  old_row :
      (random : Random) (w w' : Sessions N F) (t u : RefreshToken) (mid : F)
      → FT.row t.id w.tokens ≡ some t
      → FT.update t.id (λ x. record x { revoked = true }) w.tokens ≡ some (u, mid)
      → FT.create (new_token s random t.user_id (some t.id) w.now) mid ≡ some w'.tokens
      → (random.row_id == t.id) ≡ false
  old_row random w w' t u mid at q c =
      let new = new_token s random t.user_id (some t.id) w.now in
      ground (
        arith,
        at,
        ap (λ k. FT.row k mid) (sym (token_key new))
            ∙ tokens_lawful.create_fresh new mid w'.tokens c,
        tokens_lawful.row-update t.id (λ x. record x { revoked = true }) w.tokens mid u t.id q,
        eq_refl t.id,
        eq_iff random.row_id t.id,
      )

  Rotated-Spent :
      (random : Random) (old : String) (w w' : Sessions N F)
      → HashUnique w.tokens
      → (s.hash_token random.refresh_token == s.hash_token old) ≡ false
      → Rotated random old w w'
      → Spent (s.hash_token old) w'.tokens
  Rotated-Spent random old w w' unique fresh (t, u, mid, at, h, q, c) = (
    λ x here match. ground (
      arith,
      rotated-rows random old w w' t u mid x.id at q c,
      here,
      match,
      fresh,
      unique x t,
      at,
      h,
      eq_iff t.id x.id,
      eq_iff x.token_hash (s.hash_token old),
      eq_iff t.token_hash (s.hash_token old),
      eq_iff x.token_hash t.token_hash,
      eq_iff (s.hash_token random.refresh_token) (s.hash_token old),
    ),
    record t { revoked = true },
    rotated-rows random old w w' t u mid t.id at q c
        ∙ ground (arith, old_row random w w' t u mid at q c, eq_refl t.id),
    h,
  )

  -- A refresh token that was exchanged once is turned away when it comes back, and all the sessions
  -- of its user are ended, the new one too, unless a query is rejected. The new token's hash differs
  -- from the old one's.
  pub rotate_twice :
      (random random' : Random) (old : String) (w w' : Sessions N F) (ts : Tokens)
      → HashUnique w.tokens
      → (s.hash_token random.refresh_token == s.hash_token old) ≡ false
      → rotate_refresh_token s random old w ≡ (ok ts, w')
      → TurnedAway random' old w'
  rotate_twice random random' old w w' ts unique fresh e =
      Spent-TurnedAway random' old w'
        (Rotated-Spent random old w w' unique fresh (rotated random old w w' ts e))
