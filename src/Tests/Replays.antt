-- ===== src/Tests/Replays.antt =====
-- One page of Horizon's operations, with the payment in it, that comes twice.
use trust_link_backend.Prelude.{String, Option, some, none, List, [], ◌∷◌, ◌≡◌, refl, ap}
use trust_link_backend.Exec.{Outcome, ok}
use trust_link_backend.Escrow.{EscrowRecord, DisputeRecord}
use trust_link_backend.Database.Memory.{Rows, table-IsTable}
use trust_link_backend.Backend.{Cached}
use trust_link_backend.CacheService.{Entry}
use trust_link_backend.Webhook.{Processed, received}
use trust_link_backend.Webhook.Replay.{Operation, Replayer, replay}
use trust_link_backend.Webhook.Again.{AllReceived, replay_again}
use trust_link_backend.Tests.{backend, horizon, key_of}
use trust_link_backend.Tests.Payments.{inbox, handles}
use trust_link_backend.Tests.Vault.{one_row}

abbrev page : List Operation
page =
    record {
      id = some "op1";
      type = some "payment";
      to = some "GVENDOR";
      amount = some "50";
      asset_code = some "USDC";
      paging_token = some "17";
    }
    ∷ []

abbrev fetch : Option String → Outcome (List Operation)
fetch _ = ok page

abbrev replayer :
    Replayer
      (Rows EscrowRecord)
      (Rows DisputeRecord)
      (List (Entry Cached))
      (Rows Processed)
      (Option String)
replayer = record { inbox = inbox; cursors = none }

all_received : AllReceived backend horizon (table-IsTable key_of) (λ _. refl) page replayer.inbox
all_received = ((received, ap (λ x. x.0) handles), tt)

replay_again_example :
    (replay backend horizon one_row fetch
      (record (replay backend horizon one_row fetch replayer) { cursors = none })).inbox
    ≡ (replay backend horizon one_row fetch replayer).inbox
replay_again_example =
    replay_again backend horizon (table-IsTable key_of) (λ _. refl) one_row fetch fetch replayer
      none page refl all_received refl
