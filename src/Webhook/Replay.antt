-- ===== src/Webhook/Replay.antt =====
-- src/stellar/event-replay.service.ts: the operations since the cursor are handled when the process
-- starts. The answer of Horizon is a parameter; logs are left out.
use trust_link_backend.Prelude.{String, Option, none, some, List, [], ◌∷◌, or_else, ◌==◌}
use trust_link_backend.Exec.{Outcome, ok, err}
use trust_link_backend.Database.{TextTable}
use trust_link_backend.Backend.{Backend}
use trust_link_backend.Webhook.{Event, Inbox, Horizon, process_operation}

-- The fields of an operation that are texts.
pub record Operation : Type 0 where
  pub id : Option String
  pub type : Option String
  pub to : Option String
  pub amount : Option String
  pub asset_code : Option String
  pub paging_token : Option String

abbrev pub event_of : Operation → Event
event_of r = record {
  id = or_else r.id "";
  is_payment = or_else r.type "" == "payment";
  to = r.to;
  amount = r.amount;
  asset_code = r.asset_code;
}

-- `String(paging_token ?? id)`
abbrev pub token_of : Operation → String
token_of r = or_else r.paging_token (or_else r.id "undefined")

pub record Replayer (R D C P S : Type 0) : Type 0 where
  pub inbox : Inbox R D C P
  pub cursors : S

-- `EVENT_REPLAY_KEY`
abbrev pub replay_key : String
replay_key = "horizon-event-replay"

abbrev pub last_token : Operation → List Operation → String
last_token r [] = token_of r
last_token r (s ∷ rs) = last_token s rs

module _ {R D C P : Type 0} (b : Backend R D C) (h : Horizon P) where
  -- The loop: an operation that fails is logged, and the next one is handled.
  unfoldable pub process_records : List Operation → Inbox R D C P → Inbox R D C P
  process_records [] i = i
  process_records (r ∷ rs) i = process_records rs (process_operation b h (event_of r) i).1

  module _ {S : Type 0} (K : TextTable S) (fetch : Option String → Outcome (List Operation)) where
    unfoldable pub replay_cursor : Replayer R D C P S → Option String
    replay_cursor p = elim (K.find_unique replay_key p.cursors) [ none ↦ none | some o ↦ o ]

    unfoldable pub save_cursor : List Operation → Replayer R D C P S → Replayer R D C P S
    save_cursor [] p = p
    save_cursor (r ∷ rs) p = elim (K.upsert replay_key (last_token r rs) p.cursors) [
      | none ↦ p
      | some s ↦ record p { cursors = s }
    ]

    -- `onModuleInitInternal`
    unfoldable pub replay : Replayer R D C P S → Replayer R D C P S
    unfolding process_records replay_cursor save_cursor
    replay p = elim (fetch (replay_cursor p)) [
      | err _ ↦ p
      | ok rs ↦ save_cursor rs (record p { inbox = process_records rs p.inbox })
    ]
