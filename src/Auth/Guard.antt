-- ===== src/Auth/Guard.antt =====
-- src/auth/guards/jwt.guard.ts and src/admin/guards/admin.guard.ts: the bearer token of a request;
-- and the encoding of the token that `issueJwt` of src/auth/sep10/sep10.service.ts signs.
-- HMAC-SHA256, base64url and JSON are the platform's: parameters, on texts of code points. The time
-- of expiry is a whole number.
pub mod Round
pub mod Forgery
use Prim.Native.String.{◌++◌}
use text.Mathlib.Text.{starts_with}
use trust_link_backend.Prelude.{
  ℕ, zero, suc, ◌/◌, String, Option, none, some, List, [], ◌∷◌, Bool, true, false, not, ◌&&◌, ◌||◌,
  ◌==◌, if◌then◌else◌, leb, truthy, or_else, ◌≡◌,
}
use trust_link_backend.Prelude.Text.{trim}
use trust_link_backend.Prelude.Text.Split.{split, Every}
use trust_link_backend.Exec.{Outcome, ok, err, unauthorized, forbidden}
use trust_link_backend.Auth.{Payload}

-- The fields of a token's payload that the guard reads: those of another type are `none`.
pub record Claims : Type 0 where
  pub sub : Option String
  pub exp : Option ℕ
  pub role : Option String

pub record Codec : Type 0 where
  -- HMAC-SHA256 of a text under a secret, as base64url
  pub hmac : String → String → String
  -- the bytes of a base64url text
  pub decode : String → String
  -- `JSON.parse`, which may throw
  pub parse : String → Option Claims
  -- `JSON.stringify`, as base64url: of the header, and of a payload
  pub header : String
  pub encode : Payload → String

-- The letters of base64url.
abbrev pub is_base64url : ℕ → Bool
is_base64url c =
    (leb b'a' c && leb c b'z')
    || (leb b'A' c && leb c b'Z')
    || (leb b'0' c && leb c b'9')
    || (leb b'-' c && leb c b'-')
    || (leb b'_' c && leb c b'_')

abbrev pub claims_of : Payload → Claims
claims_of p = record {
  sub = some p.sub;
  exp = some p.exp;
  role = if p.is_admin then some "admin" else none;
}

-- What HMAC, base64url and JSON guarantee for a payload.
pub record IsCodec (k : Codec) (p : Payload) : Type 0 where
  pub hmac_plain : (secret t : String) → Every is_base64url (k.hmac secret t)
  pub header_plain : Every is_base64url k.header
  pub encode_plain : Every is_base64url (k.encode p)
  pub parse-encode : k.parse (k.decode (k.encode p)) ≡ some (claims_of p)

-- `AuthUser`
pub record AuthUser : Type 0 where
  pub address : String
  pub role : Option String

-- `s.slice(n)`, for a text whose first characters are of ASCII
abbrev pub drop_chars : ℕ → String → String
drop_chars zero s = s
drop_chars (suc n) String.[] = String.[]
drop_chars (suc n) (String.◌∷◌ _ s) = drop_chars n s

-- The payload of a verified token.
unfoldable pub user_of : ℕ → Option Claims → Option AuthUser
user_of now none = none
user_of now (some c) = elim c.exp [
  | none ↦ none
  | some exp ↦
      if leb exp (now / 1000) || not (truthy c.sub)
      then none
      else some (record { address = or_else c.sub ""; role = c.role })
]

unfoldable pub or_unauthorized : Option AuthUser → Outcome AuthUser
or_unauthorized none = err unauthorized
or_unauthorized (some u) = ok u

module _ (k : Codec) where
  -- The end of `issueJwt`.
  unfoldable pub sign_jwt : String → Payload → String
  sign_jwt secret p =
      k.header ++ ("." ++ (k.encode p ++ ("." ++ k.hmac secret (k.header ++ ("." ++ k.encode p)))))

  unfoldable pub verify_parts : ℕ → String → List String → Option AuthUser
  unfolding user_of
  verify_parts now secret (header ∷ body ∷ signature ∷ []) =
      if k.decode signature == k.decode (k.hmac secret (header ++ ("." ++ body)))
      then user_of now (k.parse (k.decode body))
      else none
  verify_parts now secret _ = none

  -- `extractUser`, with the secret that is configured
  unfoldable pub extract_user : ℕ → Option String → String → Option AuthUser
  unfolding verify_parts
  extract_user now secret token =
      if truthy secret then verify_parts now (or_else secret "") (split b'.' token) else none

  unfoldable pub admit : ℕ → Option String → String → Outcome AuthUser
  unfolding extract_user or_unauthorized
  admit now secret token =
      if token == "" then err unauthorized else or_unauthorized (extract_user now secret token)

  -- `canActivate` of JwtGuard: the user that the request is given
  unfoldable pub can_activate : ℕ → Option String → Option String → Outcome AuthUser
  unfolding admit
  can_activate now secret none = err unauthorized
  can_activate now secret (some header) =
      if starts_with header "Bearer "
      then admit now secret (trim (drop_chars 7 header))
      else err unauthorized

-- `canActivate` of AdminGuard
unfoldable pub admin_can_activate : Option String → Option AuthUser → Outcome (Unit {0})
admin_can_activate admin none = err forbidden
admin_can_activate admin (some u) =
    if truthy admin && (u.address == or_else admin "") then ok tt else err forbidden
