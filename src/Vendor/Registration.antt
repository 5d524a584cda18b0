-- ===== src/Vendor/Registration.antt =====
-- src/vendor/vendor-profile.service.ts, `createProfile`: who can register, and what is stored.
use trust_link_backend.Prelude.{
  String, Option, none, some, Bool, true, false, ◌≡◌, refl, ap, ◌∙◌, ◌⊎◌, inl, inr, Bool-cases,
  Option-cases,
}
use trust_link_backend.Exec.{Outcome, ok, err, rejected, conflict}
use trust_link_backend.Vendor.{
  Store, IsStore, upserted, Profile, CreateProfile, placeholder_description, is_placeholder,
  profile_of, replace_profile, find_by_address, create, written, upsert_profile,
  ensure_vendor_profile, create_unless, create_profile,
}

-- No profile, or one that only holds the place.
abbrev pub is_free : String → Option Profile → Bool
is_free address none = true
is_free address (some r) = is_placeholder address r

module _ {S : Type 0} (T : Store Profile S) (laws : IsStore T) where
  -- What came of a registration.
  abbrev pub Registered : String → CreateProfile → S → Outcome Profile × S → Type 0
  Registered address dto s (ok r, s') =
      (is_free address (T.row address s) ≡ true)
      × (T.row address s' ≡ some r)
      × (r.business_name ≡ dto.business_name)
      × (r.email ≡ dto.email)
      × (r.phone ≡ dto.phone)
      × (r.description ≡ dto.description)
  Registered address dto s (err f, s') =
      (s' ≡ s) × ((f ≡ rejected) ⊎ ((f ≡ conflict) × (is_free address (T.row address s) ≡ false)))

  create-Registered :
      (address : String) (dto : CreateProfile) (s : S)
      → Registered address dto s (create T address dto s)
  unfolding create
  create-Registered address dto s =
      elim (Option-cases (T.create address (profile_of address dto) s)) [
        | inl q ↦ rw (create, q) (refl, inl refl)
        | inr (s', q) ↦
            let (now, before) = laws.row-create address (profile_of address dto) s s' q in
            rw (create, q) (ap (is_free address) before, now, refl, refl, refl, refl)
      ]

  -- The profile that `upsert` writes has the fields of the request, whether or not a row was there.
  upserted-fields :
      (address : String) (dto : CreateProfile) (o : Option Profile)
      → let r = upserted (profile_of address dto) (replace_profile dto) o in
        (r.business_name ≡ dto.business_name)
        × (r.email ≡ dto.email)
        × (r.phone ≡ dto.phone)
        × (r.description ≡ dto.description)
  upserted-fields address dto none = (refl, refl, refl, refl)
  upserted-fields address dto (some old) = (refl, refl, refl, refl)

  upsert-Registered :
      (address : String) (dto : CreateProfile) (s : S)
      → is_free address (T.row address s) ≡ true
      → Registered address dto s (upsert_profile T address dto s)
  unfolding upsert_profile written
  upsert-Registered address dto s free =
      elim (Option-cases (T.upsert address (profile_of address dto) (replace_profile dto) s)) [
        | inl q ↦ rw (upsert_profile, q) (refl, inl refl)
        | inr ((r, s'), q) ↦
            let (made, now) =
              laws.row-upsert address (profile_of address dto) (replace_profile dto) s s' r q in
            let (name, email, phone, description) = upserted-fields address dto (T.row address s) in
            rw (upsert_profile, q)
              (
                free,
                now,
                ap (λ x. x.business_name) made ∙ name,
                ap (λ x. x.email) made ∙ email,
                ap (λ x. x.phone) made ∙ phone,
                ap (λ x. x.description) made ∙ description,
              )
      ]

  create_unless-Registered :
      (address : String) (dto : CreateProfile) (s : S) (o : Option Profile)
      → T.row address s ≡ o
      → Registered address dto s (create_unless T address dto o s)
  unfolding create_unless
  create_unless-Registered address dto s none at = create-Registered address dto s
  create_unless-Registered address dto s (some r) at =
      elim (Bool-cases (is_placeholder address r)) [
        | inl p ↦ rw p (upsert-Registered address dto s (ap (is_free address) at ∙ p))
        | inr n ↦ rw n (refl, inr (refl, ap (is_free address) at ∙ n))
      ]

  registration-Registered :
      (address : String) (dto : CreateProfile) (s : S)
      → Registered address dto s (create_profile T address dto s)
  unfolding create_profile find_by_address
  registration-Registered address dto s = elim (Option-cases (T.find_unique address s)) [
    | inl q ↦ rw (create_profile, find_by_address, q) (refl, inl refl)
    | inr (o, q) ↦
        rw (create_profile, find_by_address, q)
          (create_unless-Registered address dto s o (laws.row-find_unique address s o q))
  ]

  -- The row is as it was; or there was none, and now there is one that can be replaced.
  abbrev pub Ensured : String → Option Profile → Option Profile → Type 0
  Ensured address o o' = (o' ≡ o) ⊎ ((o ≡ none) × (is_free address o' ≡ true))

  abbrev place_of : String → Profile
  place_of address = record {
    address = address;
    business_name = address;
    email = none;
    phone = none;
    description = some placeholder_description;
  }

  place-Ensured :
      (address : String) (o o' : Option Profile) (r : Profile)
      → r ≡ upserted (place_of address) (λ x. x) o
      → o' ≡ some r
      → Ensured address o o'
  place-Ensured address none o' r made now =
      inr (refl, ap (is_free address) now ∙ ap (is_placeholder address) made)
  place-Ensured address (some old) o' r made now = inl (now ∙ ap some made)

  ensure-Ensured :
      (address : String) (s : S)
      → Ensured address (T.row address s) (T.row address (ensure_vendor_profile T address s).1)
  unfolding ensure_vendor_profile written
  ensure-Ensured address s = elim (Option-cases (T.upsert address (place_of address) (λ x. x) s)) [
    | inl q ↦ rw (ensure_vendor_profile, q) (inl refl)
    | inr ((r, s'), q) ↦
        let (made, now) = laws.row-upsert address (place_of address) (λ x. x) s s' r q in
        rw (ensure_vendor_profile, q)
          (place-Ensured address (T.row address s) (T.row address s') r made now)
  ]

  -- A registration succeeds only where the vendor has no profile, or one that only holds the place;
  -- then the row has the request's fields. It is refused with 409 only where the vendor has
  -- registered, and an error changes nothing. The place that is held for a vendor's first escrow is
  -- taken only where there is no row, and leaves the vendor free to register.
  pub create_profile-Registered :
      (address : String) (dto : CreateProfile) (s : S)
      → Registered address dto s (create_profile T address dto s)
        × Ensured address (T.row address s) (T.row address (ensure_vendor_profile T address s).1)
  create_profile-Registered address dto s =
      (registration-Registered address dto s, ensure-Ensured address s)
