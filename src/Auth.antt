-- ===== src/Auth.antt =====
-- src/auth/sep10/sep10.service.ts: challenges, access tokens and refresh tokens. Building, reading
-- and verifying a challenge transaction is the Stellar SDK's, so its answers are parameters, as are
-- HMAC-SHA256, the JWT's encoding and the random bytes.
pub mod Safety
pub mod Rotation
pub mod Guard
use trust_link_backend.Prelude.{
  ℕ, ◌+◌, ◌*◌, ◌/◌, String, Option, none, some, Bool, true, false, not, ◌&&◌, ◌==◌, if◌then◌else◌,
  ltb, eqb,
}
use trust_link_backend.Exec.{
  Exec, Outcome, ok, err, rejected, unauthorized, pure, raise, ◌>>=◌, ◌>>◌,
}
use trust_link_backend.Database.{Table}

pub record Nonce : Type 0 where
  pub id : String
  -- the hash of the challenge transaction
  pub nonce : String
  pub wallet_address : String
  pub challenge : String
  pub used : Bool
  pub expires_at : ℕ

pub record RefreshToken : Type 0 where
  pub id : String
  pub user_id : String
  pub token_hash : String
  pub parent_token_id : Option String
  pub revoked : Bool
  pub expires_at : ℕ

-- The JWT's payload; `is_admin` is `role: 'admin'`.
pub record Payload : Type 0 where
  pub sub : String
  pub iat : ℕ
  pub exp : ℕ
  pub is_admin : Bool

-- What a sign-in or a rotation returns.
pub record Tokens : Type 0 where
  pub token : String
  pub refresh_token : String

pub record Sessions (N F : Type 0) : Type 0 where
  pub now : ℕ
  pub nonces : N
  pub tokens : F

pub record Sep10 (N F : Type 0) : Type 0 where
  pub nonce_table : Table Nonce N
  pub token_table : Table RefreshToken F
  -- `WebAuth.buildChallengeTx`, for an account and a timeout
  pub build_challenge_tx : String → ℕ → ℕ → String
  -- `tx.hash()`
  pub tx_hash : String → String
  -- `WebAuth.readChallengeTx`: the account of a challenge that this server signed
  pub read_challenge : String → Option String
  -- `WebAuth.verifyChallengeTxSigners` finds the account's signature.
  pub is_signed : String → String → Bool
  pub hash_token : String → String
  pub sign : Payload → String
  pub admin_address : Option String
  pub access_token_ttl : Option ℕ
  pub refresh_token_ttl : Option ℕ

-- `adminAddress && sub === adminAddress`
abbrev pub is_admin_address : Option String → String → Bool
is_admin_address none sub = false
is_admin_address (some a) sub = if a == "" then false else sub == a

-- `?? 3600`
abbrev pub or_default : Option ℕ → ℕ → ℕ
or_default none d = d
or_default (some n) d = n

-- `|| REFRESH_TOKEN_TTL_DEFAULT`
abbrev pub refresh_ttl : Option ℕ → ℕ
refresh_ttl none = 7 * (24 * 3600)
refresh_ttl (some n) = if eqb n 0 then 7 * (24 * 3600) else n

unfoldable pub payload_at : Option String → Option ℕ → ℕ → String → Payload
payload_at admin ttl now sub = record {
  sub = sub;
  iat = now / 1000;
  exp = now / 1000 + or_default ttl 3600;
  is_admin = is_admin_address admin sub;
}

-- The random values of a call: the refresh token and the row ids that the database makes.
pub record Random : Type 0 where
  pub refresh_token : String
  pub row_id : String

module _ {N F : Type 0} (s : Sep10 N F) where
  open s use {nonce_table as NT, token_table as FT}

  unfoldable pub issue_jwt : String → ℕ → String
  unfolding payload_at
  issue_jwt sub now = s.sign (payload_at s.admin_address s.access_token_ttl now sub)

  abbrev pub new_token : Random → String → Option String → ℕ → RefreshToken
  new_token random user parent now = record {
    id = random.row_id;
    user_id = user;
    token_hash = s.hash_token random.refresh_token;
    parent_token_id = parent;
    revoked = false;
    expires_at = now + refresh_ttl s.refresh_token_ttl * 1000;
  }

  unfoldable pub generate_auth_tokens : Random → String → Option String → Exec (Sessions N F) Tokens
  unfolding issue_jwt
  generate_auth_tokens random user parent w =
      elim (FT.create (new_token random user parent w.now) w.tokens) [
        | none ↦ (err rejected, w)
        | some t ↦ (
          ok (record { token = issue_jwt user w.now; refresh_token = random.refresh_token }),
          record w { tokens = t },
        )
      ]

  abbrev pub new_nonce : Random → String → String → ℕ → ℕ → Nonce
  new_nonce random account tx timeout now = record {
    id = random.row_id;
    nonce = s.tx_hash tx;
    wallet_address = account;
    challenge = tx;
    used = false;
    expires_at = now + timeout * 1000;
  }

  pub build_challenge : Random → String → ℕ → Exec (Sessions N F) String
  build_challenge random account timeout w =
      let tx = s.build_challenge_tx account timeout w.now in
      elim (NT.create (new_nonce random account tx timeout w.now) w.nonces) [
        | none ↦ (err rejected, w)
        | some t ↦ (ok tx, record w { nonces = t })
      ]

  -- `nonce.findUnique({ where: { nonce } })`
  unfoldable pub find_nonce : String → Exec (Sessions N F) (Option Nonce)
  find_nonce hash w = elim (NT.find_first (λ n. n.nonce == hash) w.nonces) [
    | none ↦ (err rejected, w)
    | some o ↦ (ok o, w)
  ]

  unfoldable pub use_nonce : String → Exec (Sessions N F) (Unit {0})
  use_nonce id w = elim (NT.update id (λ n. record n { used = true }) w.nonces) [
    | none ↦ (err rejected, w)
    | some (_, t) ↦ (ok tt, record w { nonces = t })
  ]

  unfoldable pub check_nonce : Random → String → String → Option Nonce → Exec (Sessions N F) Tokens
  unfolding use_nonce generate_auth_tokens
  check_nonce random tx account none w = raise unauthorized w
  check_nonce random tx account (some n) w =
      (if n.used
          then raise unauthorized
          else if ltb n.expires_at w.now
          then raise unauthorized
          else if not (s.is_signed tx account)
          then raise unauthorized
          else do use_nonce n.id; generate_auth_tokens random account none)
        w

  unfoldable pub verify_read : Random → String → Option String → Exec (Sessions N F) Tokens
  unfolding find_nonce check_nonce
  verify_read random tx none = raise unauthorized
  verify_read random tx (some account) = do
    found ← find_nonce (s.tx_hash tx)
    check_nonce random tx account found

  unfoldable pub verify_and_issue_token : Random → String → Exec (Sessions N F) Tokens
  unfolding verify_read
  verify_and_issue_token random tx = verify_read random tx (s.read_challenge tx)

  -- `refreshToken.findUnique({ where: { tokenHash } })`
  unfoldable pub find_token : String → Exec (Sessions N F) (Option RefreshToken)
  find_token hash w = elim (FT.find_first (λ t. t.token_hash == hash) w.tokens) [
    | none ↦ (err rejected, w)
    | some o ↦ (ok o, w)
  ]

  -- `refreshToken.findUnique({ where: { id } })`
  find_by_id : String → Exec (Sessions N F) (Option RefreshToken)
  find_by_id id w = elim (FT.find_unique id w.tokens) [
    | none ↦ (err rejected, w)
    | some o ↦ (ok o, w)
  ]

  revoke_all : Option RefreshToken → Exec (Sessions N F) (Unit {0})
  revoke_all none w = pure tt w
  revoke_all (some t) w =
      elim (FT.update_all (λ x. x.user_id == t.user_id) (λ x. record x { revoked = true })
        w.tokens) [ none ↦ (err rejected, w) | some u ↦ (ok tt, record w { tokens = u }) ]

  pub revoke_token_family : String → Exec (Sessions N F) (Unit {0})
  unfolding find_by_id revoke_all
  revoke_token_family id = do found ← find_by_id id; revoke_all found

  unfoldable pub revoke : String → Exec (Sessions N F) (Unit {0})
  revoke id w = elim (FT.update id (λ t. record t { revoked = true }) w.tokens) [
    | none ↦ (err rejected, w)
    | some (_, t) ↦ (ok tt, record w { tokens = t })
  ]

  unfoldable pub rotate_found : Random → Option RefreshToken → Exec (Sessions N F) Tokens
  unfolding revoke_token_family revoke generate_auth_tokens
  rotate_found random none w = raise unauthorized w
  rotate_found random (some t) w =
      (if t.revoked
          then (do revoke_token_family t.id; raise unauthorized)
          else if ltb t.expires_at w.now
          then raise unauthorized
          else do revoke t.id; generate_auth_tokens random t.user_id (some t.id))
        w

  unfoldable pub rotate_refresh_token : Random → String → Exec (Sessions N F) Tokens
  unfolding find_token rotate_found
  rotate_refresh_token random old = do
    found ← find_token (s.hash_token old)
    rotate_found random found
