-- ===== src/Backend/Effects.antt =====
-- What the services do beside their writes: notify and submit contract calls.
use trust_link_backend.Prelude.{String, ◌∷◌, if◌then◌else◌}
use trust_link_backend.Exec.{Exec, ok, err, rejected}
use trust_link_backend.Backend.{Backend, World, Notice, ChainCall}

module _ {R D C : Type 0} (b : Backend R D C) where
  -- `this.notificationsService.notify…(…)`, not awaited
  unfoldable pub notify : Notice → Exec (World R D C) (Unit {0})
  notify n w = (ok tt, record w { notices = n ∷ w.notices })

  -- A contract call that submits a transaction.
  unfoldable pub submit : ChainCall → Exec (World R D C) String
  submit call w = (b.contract.submit w.calls call, record w { calls = call ∷ w.calls })

  -- `ensureVendorProfile`, of which Vendor models what it does to the profile.
  unfoldable pub ensure_vendor_profile : String → Exec (World R D C) (Unit {0})
  ensure_vendor_profile vendor w =
      if b.takes_vendor w.vendors vendor
      then (ok tt, record w { vendors = vendor ∷ w.vendors })
      else (err rejected, w)
