-- ===== src/Tests/Guards.antt =====
-- The administrator's token, under a codec that knows its payload.
use Prim.Native.String.{◌++◌}
use text.Mathlib.Text.{starts_with}
use trust_link_backend.Prelude.{
  ◌+◌, ◌/◌, some, none, Bool, true, false, ◌≡◌, refl, ◌==◌, if◌then◌else◌, leb, or_else,
}
use trust_link_backend.Prelude.Text.{trim, trim_start, trim_end}
use trust_link_backend.Prelude.Text.Split.{split, Every}
use trust_link_backend.Exec.{ok, err, unauthorized, forbidden}
use trust_link_backend.Database.Memory.{Rows}
use trust_link_backend.Auth.{
  Nonce, RefreshToken, Sep10, Payload, payload_at, issue_jwt, is_admin_address, or_default,
}
use trust_link_backend.Auth.Guard.{
  Codec, IsCodec, AuthUser, claims_of, is_base64url, sign_jwt, user_of, verify_parts, extract_user,
  or_unauthorized, admit, can_activate, admin_can_activate, drop_chars,
}
use trust_link_backend.Auth.Guard.Round.{user_for, can_activate-issue_jwt}
use trust_link_backend.Auth.Guard.Forgery.{SignedBy, can_activate-Signed}
use trust_link_backend.Tests.Sessions.{sep10}

abbrev payload : Payload
payload = record { sub = "GADMIN"; iat = 1; exp = 3601; is_admin = true }

abbrev codec : Codec
codec = record {
  hmac = λ secret t. if t == "h.p" then "s1" else "s2";
  decode = λ t. t;
  parse = λ t. if t == "p" then some (claims_of payload) else none;
  header = "h";
  encode = λ _. "p";
}

abbrev server : Sep10 (Rows Nonce) (Rows RefreshToken)
server = record sep10 { sign = sign_jwt codec "k" }

codec_law : IsCodec codec (payload_at server.admin_address server.access_token_ttl 1000 "GADMIN")
unfolding payload_at
codec_law = record {
  hmac_plain = λ secret t. plain (t == "h.p");
  header_plain = (refl, tt);
  encode_plain = (refl, tt);
  parse-encode = refl;
}
  where
    plain : (x : Bool) → Every is_base64url (if x then "s1" else "s2")
    plain true = (refl, (refl, tt))
    plain false = (refl, (refl, tt))

can_activate-issue_jwt_example :
    (can_activate codec 5000 (some "k") (some ("Bearer " ++ issue_jwt server "GADMIN" 1000)) ≡ (
      if leb (1000 / 1000 + or_default server.access_token_ttl 3600) (5000 / 1000)
      then err unauthorized
      else ok (user_for (payload_at server.admin_address server.access_token_ttl 1000 "GADMIN"))))
    × (admin_can_activate server.admin_address
          (some (user_for (payload_at server.admin_address server.access_token_ttl 1000 "GADMIN")))
        ≡ (if is_admin_address server.admin_address "GADMIN" then ok tt else err forbidden))
can_activate-issue_jwt_example =
    can_activate-issue_jwt codec "k" server "GADMIN" 1000 codec_law refl refl refl 5000

abbrev admin : AuthUser
admin = record { address = "GADMIN"; role = some "admin" }

lets_in : can_activate codec 5000 (some "k") (some "Bearer h.p.s1") ≡ ok admin
unfolding can_activate admit extract_user verify_parts user_of or_unauthorized trim trim_start
    trim_end split
lets_in = refl

can_activate-Signed_example :
    (starts_with (or_else (some "Bearer h.p.s1") "") "Bearer " ≡ true)
    × SignedBy codec 5000
        (some "k")
        (split b'.' (trim (drop_chars 7 (or_else (some "Bearer h.p.s1") ""))))
        admin
can_activate-Signed_example =
    can_activate-Signed codec 5000 (some "k") (some "Bearer h.p.s1") admin lets_in
