-- ===== src/Vendor.antt =====
-- src/vendor/vendor-profile.service.ts, vendor-profile.repository.ts, and `ensureVendorProfile` of
-- src/escrow/escrow.service.ts: a vendor's profile and notification preferences.
pub mod Registration
pub mod Preferences
use trust_link_backend.Prelude.{
  ℕ, String, Option, none, some, List, Bool, true, false, not, ◌&&◌, ◌||◌, if◌then◌else◌, is_some,
  or_else, ◌==◌, ◌≡◌,
}
use trust_link_backend.Exec.{
  Exec, Outcome, ok, err, rejected, conflict, not_found, bad_request, pure, raise, ◌>>=◌, ◌>>◌,
}
use trust_link_backend.Notification.Notify.{default_notification_channels}

-- A Prisma model with `upsert`. A query may be rejected, which is the outer `none`.
pub record Store (Row S : Type 0) : Type 0 where
  pub row : String → S → Option Row
  pub find_unique : String → S → Option (Option Row)
  pub create : String → Row → S → Option S
  -- the row that is created, or the change of the one that is there
  pub upsert : String → Row → (Row → Row) → S → Option (Row × S)
  pub update : String → (Row → Row) → S → Option (Row × S)

abbrev pub upserted : {Row : Type 0} → Row → (Row → Row) → Option Row → Row
upserted r f none = r
upserted r f (some old) = f old

-- What the Prisma documentation promises of the queries that the theorems rely on.
pub record IsStore {Row S : Type 0} (T : Store Row S) : Type 0 where
  pub row-find_unique :
      (k : String) (s : S) (o : Option Row) → T.find_unique k s ≡ some o → T.row k s ≡ o
  pub row-create :
      (k : String) (r : Row) (s s' : S)
      → T.create k r s ≡ some s'
      → (T.row k s' ≡ some r) × (T.row k s ≡ none)
  pub row-upsert :
      (k : String) (r : Row) (f : Row → Row) (s s' : S) (r' : Row)
      → T.upsert k r f s ≡ some (r', s')
      → (r' ≡ upserted r f (T.row k s)) × (T.row k s' ≡ some r')

-- `VendorProfileRecord`, without its id and its times
pub record Profile : Type 0 where
  pub address : String
  pub business_name : String
  pub email : Option String
  pub phone : Option String
  pub description : Option String

-- `CreateVendorProfileDto`
pub record CreateProfile : Type 0 where
  pub business_name : String
  pub email : Option String
  pub phone : Option String
  pub description : Option String

-- `UpdateVendorProfileDto`
pub record UpdateProfile : Type 0 where
  pub business_name : Option String
  pub email : Option String
  pub phone : Option String
  pub description : Option String

-- `VENDOR_PROFILE_PLACEHOLDER_DESCRIPTION`
abbrev pub placeholder_description : String
placeholder_description = "[placeholder]"

abbrev pub is_text : String → Option String → Bool
is_text t none = false
is_text t (some s) = s == t

-- `isPlaceholder` of `createProfile`
abbrev pub is_placeholder : String → Profile → Bool
is_placeholder address r =
    is_text placeholder_description r.description
    || ((r.business_name == address) && not (is_some r.description))

abbrev pub profile_of : String → CreateProfile → Profile
profile_of address dto = record {
  address = address;
  business_name = dto.business_name;
  email = dto.email;
  phone = dto.phone;
  description = dto.description;
}

-- The `update` of `upsert`.
abbrev pub replace_profile : CreateProfile → Profile → Profile
replace_profile dto r = record r {
  business_name = dto.business_name;
  email = dto.email;
  phone = dto.phone;
  description = dto.description;
}

abbrev pub given : {A : Type 0} → Option A → Option A → Option A
given none old = old
given (some a) old = some a

-- `data: dto`, where `undefined` leaves a field
abbrev pub change_profile : UpdateProfile → Profile → Profile
change_profile dto r = record r {
  business_name = or_else dto.business_name r.business_name;
  email = given dto.email r.email;
  phone = given dto.phone r.phone;
  description = given dto.description r.description;
}

-- What `getProfile` answers.
abbrev pub shown : Profile → Profile
shown r =
    if is_text placeholder_description r.description then record r { description = none } else r

module _ {S : Type 0} (T : Store Profile S) where
  -- `findByAddress`
  unfoldable pub find_by_address : String → Exec S (Option Profile)
  find_by_address address s = elim (T.find_unique address s) [
    | none ↦ (err rejected, s)
    | some o ↦ (ok o, s)
  ]

  unfoldable pub create : String → CreateProfile → Exec S Profile
  create address dto s = elim (T.create address (profile_of address dto) s) [
    | none ↦ (err rejected, s)
    | some s' ↦ (ok (profile_of address dto), s')
  ]

  unfoldable pub written : S → Option (Profile × S) → Outcome Profile × S
  written s none = (err rejected, s)
  written s (some (r, s')) = (ok r, s')

  unfoldable pub upsert_profile : String → CreateProfile → Exec S Profile
  unfolding written
  upsert_profile address dto s =
      written s (T.upsert address (profile_of address dto) (replace_profile dto) s)

  -- `ensureVendorProfile`: an existing profile is left as it is.
  unfoldable pub ensure_vendor_profile : String → Exec S Profile
  unfolding written
  ensure_vendor_profile address s = written s (
      T.upsert address
        (record {
          address = address;
          business_name = address;
          email = none;
          phone = none;
          description = some placeholder_description;
        })
        (λ r. r) s)

  unfoldable pub create_unless : String → CreateProfile → Option Profile → Exec S Profile
  unfolding create upsert_profile
  create_unless address dto none = create address dto
  create_unless address dto (some existing) =
      if is_placeholder address existing then upsert_profile address dto else raise conflict

  unfoldable pub create_profile : String → CreateProfile → Exec S Profile
  unfolding find_by_address create_unless
  create_profile address dto = find_by_address address >>= create_unless address dto

  unfoldable pub found : Option Profile → Exec S Profile
  found none = raise not_found
  found (some r) = pure r

  unfoldable pub get_profile : String → Exec S Profile
  unfolding find_by_address found
  get_profile address = do existing ← find_by_address address; r ← found existing; pure (shown r)

  unfoldable pub update_profile : String → UpdateProfile → Exec S Profile
  unfolding find_by_address found written
  update_profile address dto =
      if is_some dto.business_name
        || is_some dto.email
        || is_some dto.phone
        || is_some dto.description
      then find_by_address address
        >>= found
        >> (λ s. written s (T.update address (change_profile dto) s))
      else raise bad_request
