-- ===== src/Escrow/Repository.antt =====
-- src/escrow/escrow.repository.ts. Every method is an action on the shared state; `new Date()` reads
-- its clock, and `@updatedAt` stamps each row that Prisma writes.
pub mod Claims
pub mod Coherence
use text.Mathlib.TextLemmas.{append_cancel_left}
use Prim.Native.String.{◌++◌}
use trust_link_backend.Prelude.{
  ℕ, ◌+◌, ◌*◌, String, Option, none, some, List, Bool, false, not, ◌&&◌, ◌≡◌, ◌==◌, leb, is_some,
}
use trust_link_backend.Exec.{Exec, ok, err, rejected, pure, ◌>>=◌, ◌>>◌}
use trust_link_backend.Escrow.{
  EscrowState, EscrowRecord, Amount, created, shipped, delivered, completed, released, refunded,
  cancelled, is_state,
}
use trust_link_backend.Backend.{Backend, World, Cached, escrow_entry}

-- `AUTO_RELEASE_WINDOW_HOURS * MILLISECONDS_PER_HOUR`, `ESCROW_CACHE_TTL_SECONDS`
abbrev pub auto_release_window : ℕ
auto_release_window = 48 * 3600000

abbrev pub escrow_cache_ttl : ℕ
escrow_cache_ttl = 60

unfoldable pub cache_key : String → String
cache_key id = "escrow:" ++ id

pub cache_key_inj : (i j : String) → cache_key i ≡ cache_key j → i ≡ j
unfolding cache_key
cache_key_inj i j h = append_cancel_left "escrow:" i j h

-- `CreateEscrowDto`
pub record CreateEscrow : Type 0 where
  pub item_name : String
  pub item_ref : String
  pub amount : Amount
  pub currency : String
  pub buyer_address : String

-- A write sets `updatedAt` too.
abbrev pub stamp : ℕ → (EscrowRecord → EscrowRecord) → EscrowRecord → EscrowRecord
stamp now f r = record (f r) { updated_at = now }

-- Only `get<EscrowRecord>` reads the keys `escrow:…`, under which only escrows are stored.
abbrev pub as_escrow : Option Cached → Option EscrowRecord
as_escrow (some (escrow_entry r)) = some r
as_escrow _ = none

-- What `create` writes for a request.
abbrev pub new_escrow : String → CreateEscrow → String → ℕ → EscrowRecord
new_escrow uuid dto vendor now = record {
  id = uuid;
  contract_escrow_id = none;
  item_name = dto.item_name;
  item_ref = dto.item_ref;
  amount = dto.amount;
  currency = dto.currency;
  buyer_address = dto.buyer_address;
  vendor_address = vendor;
  state = created;
  tracking_id = none;
  tracking_checked_at = none;
  shipped_at = none;
  delivered_at = none;
  delivery_recorded_at = none;
  auto_release_submitted_at = none;
  auto_release_tx_hash = none;
  dispute_id = none;
  cancelled_at = none;
  buyer_contact_email = none;
  buyer_contact_phone = none;
  created_at = now;
  updated_at = now;
}

-- The `where` of `findAutoReleaseEligible`: `deliveredAt <= referenceTime - window`.
abbrev delivered_by : ℕ → Option ℕ → Bool
delivered_by reference none = false
delivered_by reference (some at) = leb (at + auto_release_window) reference

pub is_release_eligible : ℕ → EscrowRecord → Bool
is_release_eligible reference r =
    is_state r.state delivered
    && delivered_by reference r.delivered_at
    && not (is_some r.dispute_id)
    && not (is_some r.auto_release_tx_hash)
    && not (is_some r.auto_release_submitted_at)

module _ {R D C : Type 0} (b : Backend R D C) where
  open b use {escrow_table as T, cache as K}

  -- `this.cache?.del(this.cacheKey(id))`
  unfoldable pub invalidate : String → Exec (World R D C) (Unit {0})
  invalidate id w = (ok tt, record w { cached = K.del (cache_key id) w.cached })

  -- `this.prisma.escrow.findUnique({ where: { id } })`
  unfoldable pub find_row : String → Exec (World R D C) (Option EscrowRecord)
  find_row id w = elim (T.find_unique id w.escrows) [
    | none ↦ (err rejected, w)
    | some o ↦ (ok o, w)
  ]

  -- `this.prisma.escrow.update({ where: { id }, data })`
  unfoldable pub update_row :
      String → (EscrowRecord → EscrowRecord) → Exec (World R D C) EscrowRecord
  update_row id f w = elim (T.update id (stamp w.now f) w.escrows) [
    | none ↦ (err rejected, w)
    | some (r, t) ↦ (ok r, record w { escrows = t })
  ]

  unfoldable pub cache_get : String → Exec (World R D C) (Option Cached)
  cache_get k w = let (v, c) = K.get w.now k w.cached in (ok v, record w { cached = c })

  unfoldable pub cache_set : String → Cached → ℕ → Exec (World R D C) (Unit {0})
  cache_set k v ttl w = (ok tt, record w { cached = K.set w.now k v ttl w.cached })

  -- The shape of every write: update the row, evict the cached copy, return the row.
  unfoldable pub write : String → (EscrowRecord → EscrowRecord) → Exec (World R D C) EscrowRecord
  unfolding update_row invalidate
  write id f = do r ← update_row id f; invalidate id; pure r

  unfoldable pub create : String → CreateEscrow → String → Exec (World R D C) EscrowRecord
  create uuid dto vendor w = elim (T.create (new_escrow uuid dto vendor w.now) w.escrows) [
    | none ↦ (err rejected, w)
    | some t ↦ (ok (new_escrow uuid dto vendor w.now), record w { escrows = t })
  ]

  abbrev pub of_vendor_item : String → String → EscrowRecord → Bool
  of_vendor_item vendor item r = r.vendor_address == vendor && r.item_ref == item

  unfoldable pub find_by_vendor_and_item :
      String → String → Exec (World R D C) (Option EscrowRecord)
  find_by_vendor_and_item vendor item w =
      elim (T.find_first (of_vendor_item vendor item) w.escrows) [
        | none ↦ (err rejected, w)
        | some o ↦ (ok o, w)
      ]

  -- On a miss the row is read and cached, if there is one.
  unfoldable pub remember : String → Option EscrowRecord → Exec (World R D C) (Option EscrowRecord)
  unfolding cache_set
  remember id none = pure none
  remember id (some r) = do
    cache_set (cache_key id) (escrow_entry r) escrow_cache_ttl
    pure (some r)

  unfoldable pub or_fetch : String → Option EscrowRecord → Exec (World R D C) (Option EscrowRecord)
  unfolding find_row remember
  or_fetch id (some r) = pure (some r)
  or_fetch id none = do found ← find_row id; remember id found

  unfoldable pub find_by_id : String → Exec (World R D C) (Option EscrowRecord)
  unfolding cache_get or_fetch
  find_by_id id = do hit ← cache_get (cache_key id); or_fetch id (as_escrow hit)

  -- `findByVendor(vendorAddress)`, with its default page of the 20 newest
  unfoldable pub find_by_vendor : String → Exec (World R D C) (List EscrowRecord)
  find_by_vendor vendor w =
      elim (T.find_many (λ r. r.vendor_address == vendor) (some 20) w.escrows) [
        | none ↦ (err rejected, w)
        | some rs ↦ (ok rs, w)
      ]

  abbrev pub update_state : String → EscrowState → Exec (World R D C) EscrowRecord
  update_state id s = write id (λ r. record r { state = s })

  abbrev pub update_tracking : String → String → Exec (World R D C) EscrowRecord
  update_tracking id tracking = write id (λ r. record r { tracking_id = some tracking })

  abbrev pub mark_shipped : String → String → Exec (World R D C) EscrowRecord
  mark_shipped id tracking w =
      write id
        (λ r. record r { state = shipped; tracking_id = some tracking; shipped_at = some w.now }) w

  abbrev pub mark_tracking_checked : String → Exec (World R D C) EscrowRecord
  mark_tracking_checked id w = write id (λ r. record r { tracking_checked_at = some w.now }) w

  unfoldable pub find_contract_escrow_id : String → Exec (World R D C) (Option ℕ)
  unfolding find_row
  find_contract_escrow_id id = do
    found ← find_row id
    pure (elim found [ none ↦ none | some r ↦ r.contract_escrow_id ])

  abbrev pub mark_completed : String → Exec (World R D C) EscrowRecord
  mark_completed id = write id (λ r. record r { state = completed })

  abbrev pub mark_refunded : String → Exec (World R D C) EscrowRecord
  mark_refunded id = write id (λ r. record r { state = refunded })

  abbrev pub mark_delivered : String → Exec (World R D C) EscrowRecord
  mark_delivered id w =
      write id
        (λ r. record r {
          state = delivered;
          delivered_at = some w.now;
          delivery_recorded_at = some w.now;
        })
        w

  abbrev pub record_auto_release_submission : String → String → Exec (World R D C) EscrowRecord
  record_auto_release_submission id tx w =
      write id
        (λ r. record r { auto_release_submitted_at = some w.now; auto_release_tx_hash = some tx }) w

  abbrev pub mark_cancelled : String → Exec (World R D C) EscrowRecord
  mark_cancelled id w = write id (λ r. record r { state = cancelled; cancelled_at = some w.now }) w

  abbrev pub mark_auto_released : String → String → Exec (World R D C) EscrowRecord
  mark_auto_released id tx =
      write id (λ r. record r { state = released; auto_release_tx_hash = some tx })

  abbrev pub clear_auto_release_submitting : String → Exec (World R D C) EscrowRecord
  clear_auto_release_submitting id = write id (λ r. record r { auto_release_submitted_at = none })

  abbrev pub clear_delivery_claim : String → Exec (World R D C) EscrowRecord
  clear_delivery_claim id = write id (λ r. record r { delivery_recorded_at = none })

  abbrev pub save_buyer_contact :
      String → Option String → Option String → Exec (World R D C) EscrowRecord
  save_buyer_contact id email phone =
      write id (λ r. record r { buyer_contact_email = email; buyer_contact_phone = phone })
