-- ===== src/Auth/Guard/Forgery.antt =====
-- src/auth/guards/jwt.guard.ts: what the guard has checked when it lets a request in.
use Prim.Native.String.{◌++◌}
use text.Mathlib.Text.{starts_with}
use trust_link_backend.Prelude.{
  ℕ, ◌/◌, ◌<◌, String, Option, none, some, List, [], ◌∷◌, true, false, ◌≡◌, refl, sym, ◌∙◌, inl,
  inr, arith, ◌==◌, leb, or_else, eq_of_test, Bool-cases,
}
use trust_link_backend.Prelude.Text.{trim}
use trust_link_backend.Prelude.Text.Split.{split}
use trust_link_backend.Exec.{ok}
use trust_link_backend.Auth.Guard.{
  Claims, Codec, AuthUser, drop_chars, user_of, verify_parts, extract_user, or_unauthorized, admit,
  can_activate,
}

-- The parts of a token are signed under the secret, and its payload has not expired and names the user.
pub record Signed (k : Codec) (now : ℕ) (secret : String) (parts : List String) (u : AuthUser)
    : Type 0 where
  pub head : String
  pub body : String
  pub signature : String
  pub claims : Claims
  pub exp : ℕ
  pub three : parts ≡ head ∷ body ∷ signature ∷ []
  pub verified : k.decode signature ≡ k.decode (k.hmac secret (head ++ ("." ++ body)))
  pub parsed : k.parse (k.decode body) ≡ some claims
  pub expiry : claims.exp ≡ some exp
  pub unexpired : now / 1000 < exp
  pub named : claims.sub ≡ some u.address
  pub carried : claims.role ≡ u.role

authorised : (o : Option AuthUser) (u : AuthUser) → or_unauthorized o ≡ ok u → o ≡ some u
unfolding or_unauthorized
authorised none u h = absurd (cc)
authorised (some v) u h = cc

module _ (k : Codec) (now : ℕ) where
  -- What the payload of an accepted token says.
  abbrev Says : Claims → AuthUser → Type 0
  Says c u =
      (exp : ℕ) × (c.exp ≡ some exp)
      × (now / 1000 < exp)
      × (c.sub ≡ some u.address)
      × (c.role ≡ u.role)

  user_of-Says :
      (o : Option Claims) (u : AuthUser)
      → user_of now o ≡ some u
      → (c : Claims) × (o ≡ some c) × Says c u
  unfolding user_of
  user_of-Says none u h = absurd (cc)
  user_of-Says (some c) u h = (c, refl, go c.exp c.sub refl refl h)
    where
      go :
          (exp : Option ℕ) (sub : Option String)
          → c.exp ≡ exp
          → c.sub ≡ sub
          → user_of now (some (record { sub = sub; exp = exp; role = c.role })) ≡ some u
          → Says c u
      go none sub p q h' = absurd (cc)
      go (some exp) none p q h' = elim (Bool-cases (leb exp (now / 1000))) [
        | inl e ↦ absurd (ground (arith, e, h'))
        | inr e ↦ absurd (ground (arith, e, h'))
      ]
      go (some exp) (some s) p q h' = elim (Bool-cases (leb exp (now / 1000))) [
        | inl e ↦ absurd (ground (arith, e, h'))
        | inr e ↦ elim (Bool-cases (s == "")) [
          | inl z ↦ absurd (ground (arith, e, z, h'))
          | inr z ↦
              (exp, p, ground (arith, e), ground (arith, e, z, h', q), ground (arith, e, z, h'))
        ]
      ]

  verify_parts-Signed :
      (secret : String) (parts : List String) (u : AuthUser)
      → verify_parts k now secret parts ≡ some u
      → Signed k now secret parts u
  unfolding verify_parts
  verify_parts-Signed secret [] u h = absurd (cc)
  verify_parts-Signed secret (_ ∷ []) u h = absurd (cc)
  verify_parts-Signed secret (_ ∷ _ ∷ []) u h = absurd (cc)
  verify_parts-Signed secret (_ ∷ _ ∷ _ ∷ _ ∷ _) u h = absurd (cc)
  verify_parts-Signed secret (head ∷ body ∷ signature ∷ []) u h =
      let digest = k.hmac secret (head ++ ("." ++ body)) in
      elim (Bool-cases (k.decode signature == k.decode digest)) [
        | inr e ↦ absurd (ground (arith, e, h))
        | inl e ↦
            let said = user_of-Says (k.parse (k.decode body)) u (rw e at h) in
            record {
              head = head;
              body = body;
              signature = signature;
              claims = said.0;
              exp = said.2.0;
              three = refl;
              verified = eq_of_test (k.decode signature) (k.decode digest) e;
              parsed = said.1;
              expiry = said.2.1;
              unexpired = said.2.2;
              named = said.2.3;
              carried = said.2.4;
            }
      ]

  -- The secret that is configured, which is not empty, and what is signed under it.
  abbrev pub SignedBy : Option String → List String → AuthUser → Type 0
  SignedBy configured parts u =
      (secret : String) × (configured ≡ some secret)
      × ((secret == "") ≡ false)
      × Signed k now secret parts u

  extracted :
      (configured : Option String) (token : String) (u : AuthUser)
      → or_unauthorized (extract_user k now configured token) ≡ ok u
      → SignedBy configured (split b'.' token) u
  unfolding extract_user or_unauthorized
  extracted none token u h = absurd (cc)
  extracted (some secret) token u h = elim (Bool-cases (secret == "")) [
    | inl e ↦ absurd (ground (arith, e, h))
    | inr e ↦ (
      secret,
      refl,
      e,
      verify_parts-Signed secret (split b'.' token) u (
          sym (rw (extract_user, e) refl)
          ∙ authorised (extract_user k now (some secret) token) u h),
    )
  ]

  -- A request is let in only if a secret is configured that is not empty, and with a bearer token of
  -- three parts whose third is the signature of the others under that secret, and whose payload names
  -- the user and has not expired.
  pub can_activate-Signed :
      (configured header : Option String) (u : AuthUser)
      → can_activate k now configured header ≡ ok u
      → (starts_with (or_else header "") "Bearer " ≡ true)
        × SignedBy configured (split b'.' (trim (drop_chars 7 (or_else header "")))) u
  unfolding can_activate admit
  can_activate-Signed configured none u h = absurd (cc)
  can_activate-Signed configured (some header) u h =
      elim (Bool-cases (starts_with header "Bearer ")) [
        | inr e ↦ absurd (ground (arith, e, h))
        | inl e ↦ elim (Bool-cases (trim (drop_chars 7 header) == "")) [
          | inl z ↦ absurd (ground (arith, e, z, h))
          | inr z ↦ (e, extracted configured (trim (drop_chars 7 header)) u (rw (e, z) at h))
        ]
      ]
