-- ===== src/Tests/Sessions.antt =====
-- Sign-ins and refresh tokens in memory.
use trust_link_backend.Prelude.{
  none, some, [], ◌∷◌, Bool, true, false, ◌≡◌, refl, ◌⊎◌, ◌==◌, if◌then◌else◌, eq_iff, arith,
}
use trust_link_backend.Exec.{ok, err, rejected, unauthorized}
use trust_link_backend.Database.Memory
use trust_link_backend.Database.Memory.{Rows, table, table-IsTable, empty}
use trust_link_backend.Auth.{
  Nonce, RefreshToken, Tokens, Random, Sessions, Sep10, payload_at, issue_jwt, generate_auth_tokens,
  find_nonce, use_nonce, check_nonce, verify_read, verify_and_issue_token, find_token, rotate_found,
  rotate_refresh_token, revoke,
}
use trust_link_backend.Auth.Safety.{Verified, NonceUnique, verify-Verified, verify_twice}
use trust_link_backend.Auth.Rotation.{HashUnique, TurnedAway, Spent, Spent-TurnedAway, rotate_twice}

abbrev pub sep10 : Sep10 (Rows Nonce) (Rows RefreshToken)
sep10 = record {
  nonce_table = table (λ n. n.id);
  token_table = table (λ t. t.id);
  build_challenge_tx = λ account timeout now. account;
  tx_hash = λ tx. tx;
  read_challenge = λ tx. some tx;
  is_signed = λ tx account. true;
  hash_token = λ t. t;
  sign = λ p. p.sub;
  admin_address = some "GADMIN";
  access_token_ttl = none;
  refresh_token_ttl = none;
}

abbrev stored_nonce : Nonce
stored_nonce = record {
  id = "n1";
  nonce = "GBUYER";
  wallet_address = "GBUYER";
  challenge = "GBUYER";
  used = false;
  expires_at = 400000;
}

abbrev stored_token : Bool → RefreshToken
stored_token revoked = record {
  id = "t1";
  user_id = "GBUYER";
  token_hash = "secret";
  parent_token_id = none;
  revoked = revoked;
  expires_at = 400000;
}

abbrev sessions : Bool → Sessions (Rows Nonce) (Rows RefreshToken)
sessions revoked = record {
  now = 1000;
  nonces = record { ids = "n1" ∷ []; at = λ j. if "n1" == j then some stored_nonce else none };
  tokens = record {
    ids = "t1" ∷ [];
    at = λ j. if "t1" == j then some (stored_token revoked) else none;
  };
}

abbrev random : Random
random = record { refresh_token = "fresh"; row_id = "t2" }

abbrev later : Random
later = record { refresh_token = "fresher"; row_id = "t3" }

abbrev signed_in : Sessions (Rows Nonce) (Rows RefreshToken)
signed_in = (verify_and_issue_token sep10 random "GBUYER" (sessions false)).1

abbrev tokens : Tokens
tokens = record { token = "GBUYER"; refresh_token = "fresh" }

signs_in : verify_and_issue_token sep10 random "GBUYER" (sessions false) ≡ (ok tokens, signed_in)
unfolding verify_and_issue_token verify_read find_nonce check_nonce use_nonce generate_auth_tokens
    issue_jwt payload_at Memory.first Memory.row Memory.contains Memory.update Memory.set_at
    Memory.create
signs_in = refl

abbrev rotated_once : Sessions (Rows Nonce) (Rows RefreshToken)
rotated_once = (rotate_refresh_token sep10 random "secret" (sessions false)).1

rotates : rotate_refresh_token sep10 random "secret" (sessions false) ≡ (ok tokens, rotated_once)
unfolding rotate_refresh_token find_token rotate_found revoke generate_auth_tokens issue_jwt
    payload_at Memory.first Memory.row Memory.contains Memory.update Memory.set_at Memory.create
rotates = refl

one_nonce :
    NonceUnique sep10
      (table-IsTable (λ n. n.id))
      (table-IsTable (λ t. t.id))
      (λ _. refl)
      (λ _. refl)
      (sessions false).nonces
unfolding Memory.row Memory.contains
one_nonce m n h k e = ground (arith, h, k, eq_iff "n1" m.id, eq_iff "n1" n.id)

one_token : HashUnique sep10 (table-IsTable (λ t. t.id)) (λ _. refl) (sessions false).tokens
unfolding Memory.row Memory.contains
one_token x y h k e = ground (arith, h, k, eq_iff "t1" x.id, eq_iff "t1" y.id)

verify-Verified_example :
    (v : Verified sep10
      (table-IsTable (λ n. n.id))
      (table-IsTable (λ t. t.id))
      (λ _. refl)
      (λ _. refl)
      "GBUYER"
      (sessions false))
    × (tokens.token ≡ sep10.sign (payload_at (some "GADMIN") none 1000 v.account))
verify-Verified_example =
    verify-Verified sep10 (table-IsTable (λ n. n.id)) (table-IsTable (λ t. t.id)) (λ _. refl)
      (λ _. refl) random "GBUYER" (sessions false) signed_in tokens signs_in

verify_twice_example :
    (verify_and_issue_token sep10 later "GBUYER" signed_in ≡ (err unauthorized, signed_in))
    ⊎ (verify_and_issue_token sep10 later "GBUYER" signed_in ≡ (err rejected, signed_in))
verify_twice_example =
    verify_twice sep10 (table-IsTable (λ n. n.id)) (table-IsTable (λ t. t.id)) (λ _. refl)
      (λ _. refl) random later "GBUYER" (sessions false) signed_in tokens one_nonce signs_in

rotate_twice_example :
    TurnedAway sep10 (table-IsTable (λ t. t.id)) (λ _. refl) later "secret" rotated_once
rotate_twice_example =
    rotate_twice sep10 (table-IsTable (λ t. t.id)) (λ _. refl) random later "secret"
      (sessions false) rotated_once tokens one_token refl rotates

spent : Spent sep10 (table-IsTable (λ t. t.id)) (λ _. refl) "secret" (sessions true).tokens
unfolding Memory.row Memory.contains
spent = (λ x h e. ground (arith, h, eq_iff "t1" x.id), stored_token true, refl, refl)

Spent-TurnedAway_example :
    TurnedAway sep10 (table-IsTable (λ t. t.id)) (λ _. refl) later "secret" (sessions true)
Spent-TurnedAway_example =
    Spent-TurnedAway sep10 (table-IsTable (λ t. t.id)) (λ _. refl) later "secret" (sessions true)
      spent
