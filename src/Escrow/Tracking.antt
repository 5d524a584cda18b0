-- ===== src/Escrow/Tracking.antt =====
-- src/escrow/escrow.service.ts, `getTracking`: the carrier's answer, kept for a minute. Of the
-- details only the status is modelled; the carrier is a parameter.
use trust_link_backend.Prelude.{
  String, Option, none, some, if◌then◌else◌, truthy, or_else, ◌≡◌, refl,
}
use trust_link_backend.Exec.{Exec, Outcome, ok, err, not_found, raise, ◌>>=◌}
use trust_link_backend.Backend.{
  Backend, IsBackend, World, Cached, escrow_entry, idempotency_entry, tracking_entry,
}
use trust_link_backend.Escrow.{EscrowRecord}
use trust_link_backend.Escrow.Evolves.{Evolves, Evolves-refl, Evolves-if}
use trust_link_backend.Escrow.Lifecycle.{Moves-refl}
use trust_link_backend.Escrow.Repository.Coherence.{
  IsCoherent, IsCoherent-get, IsCoherent-set_other,
}
use trust_link_backend.Escrow.Service.{load, tracking_key}
use trust_link_backend.Escrow.Service.Progress.{Evolves-load}

-- What is cached under a tracking key.
abbrev pub as_tracking : Option Cached → Option String
as_tracking (some (tracking_entry s)) = some s
as_tracking (some (escrow_entry _)) = none
as_tracking (some (idempotency_entry _ _)) = none
as_tracking none = none

module _ {R D C : Type 0} (b : Backend R D C) (get_status : String → Outcome String) where
  -- After a miss. Any failure of the carrier is answered with 404.
  unfoldable pub fetch_tracking : String → Exec (World R D C) String
  fetch_tracking tracking w = elim (get_status tracking) [
    | ok s ↦ (
      ok s,
      record w {
        cached = b.cache.set w.now (tracking_key tracking) (tracking_entry s) 60 w.cached;
      },
    )
    | err _ ↦ (err not_found, w)
  ]

  unfoldable pub answer_tracking : String → Option String → Exec (World R D C) String
  unfolding fetch_tracking
  answer_tracking tracking (some s) w = (ok s, w)
  answer_tracking tracking none w = fetch_tracking tracking w

  unfoldable pub look_up_tracking : String → Exec (World R D C) String
  unfolding answer_tracking
  look_up_tracking tracking w =
      let (v, c) = b.cache.get w.now (tracking_key tracking) w.cached in
      answer_tracking tracking (as_tracking v) (record w { cached = c })

  module _ (laws : IsBackend b) where
    open b use {escrow_table as T}

    fetch_tracking-Evolves :
        (tracking : String) (w : World R D C)
        → IsCoherent b w.cached w.escrows
        → Evolves b w.escrows (fetch_tracking tracking w).1
    unfolding fetch_tracking
    fetch_tracking-Evolves tracking w i = go (get_status tracking) refl
      where
        go :
            (x : Outcome String)
            → get_status tracking ≡ x
            → Evolves b w.escrows (fetch_tracking tracking w).1
        go (ok s) e =
            rw (fetch_tracking, e)
              (record {
                coherent =
                    IsCoherent-set_other b laws (tracking_key tracking) (tracking_entry s) 60 w refl
                      i;
                moves = λ j. Moves-refl (T.row j w.escrows);
              })
        go (err _) e = rw (fetch_tracking, e) (Evolves-refl b w i)

    look_up_tracking-Evolves :
        (tracking : String) (w : World R D C)
        → IsCoherent b w.cached w.escrows
        → Evolves b w.escrows (look_up_tracking tracking w).1
    unfolding look_up_tracking answer_tracking
    look_up_tracking-Evolves tracking w i =
        let (v, c) = b.cache.get w.now (tracking_key tracking) w.cached in
        go (as_tracking v) (IsCoherent-get b laws (tracking_key tracking) w i)
      where
        c : C
        c = (b.cache.get w.now (tracking_key tracking) w.cached).1

        go :
            (o : Option String)
            → IsCoherent b c w.escrows
            → Evolves b w.escrows (answer_tracking tracking o (record w { cached = c })).1
        go (some s) i' = Evolves-refl b (record w { cached = c }) i'
        go none i' = fetch_tracking-Evolves tracking (record w { cached = c }) i'

module _ {R D C : Type 0} (b : Backend R D C) where
  -- `logisticsService`, which may not be wired
  unfoldable pub ask_carrier : Option (String → Outcome String) → String → Exec (World R D C) String
  unfolding look_up_tracking
  ask_carrier none tracking w = (err not_found, w)
  ask_carrier (some get_status) tracking w = look_up_tracking b get_status tracking w

  unfoldable pub tracked :
      Option (String → Outcome String) → EscrowRecord → Exec (World R D C) String
  unfolding ask_carrier
  tracked logistics r =
      if truthy r.tracking_id
      then ask_carrier logistics (or_else r.tracking_id "")
      else raise not_found

  -- `getTracking`
  unfoldable pub get_tracking :
      Option (String → Outcome String) → String → Exec (World R D C) String
  unfolding tracked
  get_tracking logistics id = load b id >>= tracked logistics

  module _ (laws : IsBackend b) where
    ask_carrier-Evolves :
        (logistics : Option (String → Outcome String)) (tracking : String) (w : World R D C)
        → IsCoherent b w.cached w.escrows
        → Evolves b w.escrows (ask_carrier logistics tracking w).1
    unfolding ask_carrier
    ask_carrier-Evolves none tracking w i = Evolves-refl b w i
    ask_carrier-Evolves (some get_status) tracking w i =
        look_up_tracking-Evolves b get_status laws tracking w i

    pub get_tracking-Evolves :
        (logistics : Option (String → Outcome String)) (id : String) (w : World R D C)
        → IsCoherent b w.cached w.escrows
        → Evolves b w.escrows (get_tracking logistics id w).1
    unfolding get_tracking tracked
    get_tracking-Evolves logistics id w i =
        Evolves-load b laws id (tracked logistics) w i λ r w' i' _.
          Evolves-if b laws w'.escrows (truthy r.tracking_id) _ _ w'
            (λ _. ask_carrier-Evolves logistics (or_else r.tracking_id "") w' i')
            (λ _. Evolves-refl b w' i')
