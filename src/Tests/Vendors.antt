-- ===== src/Tests/Vendors.antt =====
-- One profile in memory.
use trust_link_backend.Prelude.{Option, none, some, ◌≡◌, refl, sym, ap, ◌∙◌}
use mathlib.Core.Option.{some-injective}
use trust_link_backend.Vendor.{
  Store, IsStore, upserted, Profile, CreateProfile, create_profile, ensure_vendor_profile,
}
use trust_link_backend.Vendor.Registration.{Registered, Ensured, create_profile-Registered}

-- A table that holds the row of one vendor.
abbrev store : Store Profile (Option Profile)
store = record {
  row = λ _ s. s;
  find_unique = λ _ s. some s;
  create = λ _ r s. elim s [ none ↦ some (some r) | some _ ↦ none ];
  upsert = λ _ r f s. some (upserted r f s, some (upserted r f s));
  update = λ _ f s. elim s [ none ↦ none | some r ↦ some (f r, some (f r)) ];
}

store-IsStore : IsStore store
store-IsStore = record {
  row-find_unique = λ k s o q. some-injective s o q;
  row-create = λ k r s s' q. created s q;
  row-upsert = λ k r f s s' r' q.
      let same = some-injective _ _ q in
      (sym (ap (λ x. x.0) same), sym (ap (λ x. x.1) same) ∙ ap (λ x. some x.0) same);
}
  where
    created :
        {r : Profile} {s' : Option Profile} (s : Option Profile)
        → store.create "" r s ≡ some s'
        → (s' ≡ some r) × (s ≡ none)
    created none q = (sym (some-injective _ _ q), refl)
    created (some _) q = absurd (cc q)

abbrev request : CreateProfile
request = record {
  business_name = "Lamps";
  email = some "lamps@example.com";
  phone = none;
  description = none;
}

create_profile-Registered_example :
    Registered store store-IsStore "GVENDOR" request none
      (create_profile store "GVENDOR" request none)
    × Ensured store store-IsStore "GVENDOR" none (ensure_vendor_profile store "GVENDOR" none).1
create_profile-Registered_example =
    create_profile-Registered store store-IsStore "GVENDOR" request none
