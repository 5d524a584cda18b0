-- ===== src/Auth/Guard/Round.antt =====
-- src/auth/guards/jwt.guard.ts: the tokens that the guards accept.
use Prim.Native.Char.{Char}
use Prim.Native.String.{◌++◌}
use text.Mathlib.TextPositions.{starts_with-append}
use text.Mathlib.TextLemmas.{nil-append, cons-append, append-ne-nil_of_right_ne-nil, cons-ne-nil}
use trust_link_backend.Prelude.{
  ℕ, zero, suc, ◌+◌, ◌/◌, String, Option, none, some, [], ◌∷◌, Bool, true, false, ◌≡◌, refl, sym,
  ap, ◌∙◌, inl, inr, arith, ◌==◌, if◌then◌else◌, leb, truthy, or_else, eq_refl, eq_of_test,
  Bool-cases, ◌||◌, ◌&&◌,
}
use trust_link_backend.Prelude.Text.Split.{
  split, Every, Every-map, Every-append, lacks, split-lacks, split-append,
}
use trust_link_backend.Prelude.Text.Trim.{is_dark, trim_lem}
use trust_link_backend.Exec.{ok, err, unauthorized, forbidden}
use trust_link_backend.Auth.{Payload, Sep10, payload_at, issue_jwt, is_admin_address, or_default}
use trust_link_backend.Auth.Guard.{
  Codec, IsCodec, AuthUser, is_base64url, drop_chars, sign_jwt, user_of, verify_parts, extract_user,
  or_unauthorized, admit, can_activate, admin_can_activate,
}

lacks_dot : (c : ℕ) → is_base64url c ≡ true → lacks b'.' c ≡ true
lacks_dot c h = ground arith

-- The characters of a token: letters of base64url and dots.
is_token : ℕ → Bool
is_token c = is_base64url c || (leb b'.' c && leb c b'.')

token_dark : (c : ℕ) → is_token c ≡ true → is_dark c ≡ true
unfolding is_token
token_dark c h = ground arith

token_letter : (c : ℕ) → is_base64url c ≡ true → is_token c ≡ true
unfolding is_token
token_letter c h = rw h refl

abbrev dot : Char
dot = "."

dotted : (t : String) → "." ++ t ≡ String.◌∷◌ dot t
dotted t = cons-append dot String.[] t ∙ ap (String.◌∷◌ dot) (nil-append t)

abbrev chars : String → ℕ
chars String.[] = zero
chars (String.◌∷◌ _ s) = suc (chars s)

drop_chars-append : (s t : String) → drop_chars (chars s) (s ++ t) ≡ t
drop_chars-append String.[] t = nil-append t
drop_chars-append (String.◌∷◌ c s) t = rw (cons-append c s t) (drop_chars-append s t)

bearer : (t : String) → drop_chars 7 ("Bearer " ++ t) ≡ t
bearer t = drop_chars-append "Bearer " t

-- Three parts without dots.
split_token :
    (a c e : String)
    → Every is_base64url a
    → Every is_base64url c
    → Every is_base64url e
    → split b'.' (a ++ ("." ++ (c ++ ("." ++ e)))) ≡ a ∷ c ∷ e ∷ []
split_token a c e ha hc he =
    let plain = Every-map is_base64url (lacks b'.') lacks_dot in
    ap (λ t. split b'.' (a ++ t)) (dotted (c ++ ("." ++ e)))
    ∙ split-append b'.' a dot (c ++ ("." ++ e)) (plain a ha) refl
    ∙ ap (λ t. a ∷ split b'.' (c ++ t)) (dotted e)
    ∙ ap (λ ts. a ∷ ts) (split-append b'.' c dot e (plain c hc) refl)
    ∙ ap (λ ts. a ∷ c ∷ ts) (split-lacks b'.' e (plain e he))

Every-dotted : (t : String) → Every is_token t → Every is_token ("." ++ t)
unfolding is_token
Every-dotted t h = rw (dotted t) (refl, h)

-- The user of a payload.
abbrev pub user_for : Payload → AuthUser
user_for p = record { address = p.sub; role = if p.is_admin then some "admin" else none }

module _ (k : Codec) (p : Payload) (laws : IsCodec k p) (secret : String) where
  signature : String
  signature = k.hmac secret (k.header ++ ("." ++ k.encode p))

  sign_jwt-parts : split b'.' (sign_jwt k secret p) ≡ k.header ∷ k.encode p ∷ signature ∷ []
  unfolding sign_jwt signature
  sign_jwt-parts =
      split_token k.header (k.encode p) (k.hmac secret (k.header ++ ("." ++ k.encode p)))
        laws.header_plain laws.encode_plain
        (laws.hmac_plain secret (k.header ++ ("." ++ k.encode p)))

  sign_jwt-dark : Every is_dark (sign_jwt k secret p)
  unfolding sign_jwt
  sign_jwt-dark =
      let letters = Every-map is_base64url is_token token_letter in
      let sig = k.hmac secret (k.header ++ ("." ++ k.encode p)) in
      Every-map is_token is_dark token_dark (sign_jwt k secret p) (
        Every-append is_token k.header ("." ++ (k.encode p ++ ("." ++ sig)))
          (letters k.header laws.header_plain)
          (Every-dotted (k.encode p ++ ("." ++ sig)) (
            Every-append is_token (k.encode p) ("." ++ sig) (letters (k.encode p) laws.encode_plain)
              (Every-dotted sig
                (letters sig (laws.hmac_plain secret (k.header ++ ("." ++ k.encode p))))))))

  extract_user-sign_jwt :
      (now : ℕ)
      → truthy (some secret) ≡ true
      → truthy (some p.sub) ≡ true
      → extract_user k now (some secret) (sign_jwt k secret p)
        ≡ (if leb p.exp (now / 1000) then none else some (user_for p))
  unfolding extract_user verify_parts user_of signature
  extract_user-sign_jwt now s named =
      rw (s, sign_jwt-parts, eq_refl (k.decode signature), laws.parse-encode)
        (elim (Bool-cases (leb p.exp (now / 1000))) [
          | inl e ↦ rw e refl
          | inr e ↦ rw (e, named) refl
        ])

  sign_jwt-ne-nil : (sign_jwt k secret p == "") ≡ false
  unfolding sign_jwt
  sign_jwt-ne-nil = elim (Bool-cases (sign_jwt k secret p == "")) [
    | inr e ↦ e
    | inl e ↦
        let t = k.encode p ++ ("." ++ k.hmac secret (k.header ++ ("." ++ k.encode p))) in
        absurd (
          append-ne-nil_of_right_ne-nil k.header (λ q. cons-ne-nil dot t (sym (dotted t) ∙ q))
            (eq_of_test (sign_jwt k secret p) "" e))
  ]

  -- A bearer of the token is let in until it expires.
  can_activate-sign_jwt :
      (now : ℕ)
      → truthy (some secret) ≡ true
      → truthy (some p.sub) ≡ true
      → can_activate k now (some secret) (some ("Bearer " ++ sign_jwt k secret p))
        ≡ (if leb p.exp (now / 1000) then err unauthorized else ok (user_for p))
  unfolding can_activate admit or_unauthorized
  can_activate-sign_jwt now s named =
      rw
        (
          starts_with-append "Bearer " (sign_jwt k secret p),
          bearer (sign_jwt k secret p),
          trim_lem (sign_jwt k secret p) sign_jwt-dark,
          sign_jwt-ne-nil,
          extract_user-sign_jwt now s named,
        )
        (elim (Bool-cases (leb p.exp (now / 1000))) [ inl e ↦ rw e refl | inr e ↦ rw e refl ])

-- The test of the guard is the one that `issueJwt` makes.
admin_tests :
    (admin : Option String) (sub : String)
    → (truthy admin && (sub == or_else admin "")) ≡ is_admin_address admin sub
admin_tests none sub = refl
admin_tests (some a) sub = elim (Bool-cases (a == "")) [ inl e ↦ rw e refl | inr e ↦ rw e refl ]

module _ {N F : Type 0} (k : Codec) (secret : String) (s : Sep10 N F) (sub : String) (issued : ℕ)
    (laws : IsCodec k (payload_at s.admin_address s.access_token_ttl issued sub)) where
  -- The token that a sign-in issues for an account lets its bearer in as that account until it
  -- expires and no longer, and the administrator's guard lets that user in exactly if the account
  -- is the administrator's.
  pub can_activate-issue_jwt :
      s.sign ≡ sign_jwt k secret
      → truthy (some secret) ≡ true
      → truthy (some sub) ≡ true
      → (now : ℕ)
      → (can_activate k now (some secret) (some ("Bearer " ++ issue_jwt s sub issued)) ≡ (
          if leb (issued / 1000 + or_default s.access_token_ttl 3600) (now / 1000)
          then err unauthorized
          else ok (user_for (payload_at s.admin_address s.access_token_ttl issued sub))))
        × (admin_can_activate s.admin_address
              (some (user_for (payload_at s.admin_address s.access_token_ttl issued sub)))
            ≡ (if is_admin_address s.admin_address sub then ok tt else err forbidden))
  unfolding issue_jwt payload_at admin_can_activate
  can_activate-issue_jwt signed h named now = (
    rw signed (
        can_activate-sign_jwt k (payload_at s.admin_address s.access_token_ttl issued sub) laws
          secret now h named),
    ap (λ x. if x then ok tt else err forbidden) (admin_tests s.admin_address sub),
  )
