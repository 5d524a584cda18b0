-- ===== src/Escrow/View.antt =====
-- src/escrow/escrow.service.ts: what an escrow's reader is shown, and where evidence is uploaded to.
-- `toLowerCase` of a file's name, the random id and the signing of the URL are parameters.
use Prim.Native.String.{◌++◌}
use trust_link_backend.Prelude.{
  ℕ, String, Option, none, some, List, [], ◌∷◌, Bool, true, false, ◌||◌, if◌then◌else◌, truthy,
  or_else, ◌==◌, ◌≡◌, refl, inl, inr, arith, Bool-cases,
}
use trust_link_backend.Prelude.Text.Split.{split}
use trust_link_backend.Exec.{Exec, pure, ◌>>=◌}
use trust_link_backend.Escrow.{EscrowState, EscrowRecord, Amount}
use trust_link_backend.Backend.{Backend, World}
use trust_link_backend.Escrow.Service.{load}

-- `EscrowResponseDto`
pub record PublicEscrow : Type 0 where
  pub id : String
  pub item_name : String
  pub item_ref : String
  pub amount : Amount
  pub currency : String
  pub state : EscrowState
  pub tracking_id : Option String
  pub shipped_at : Option ℕ
  pub created_at : ℕ
  pub updated_at : ℕ

pub record Viewer : Type 0 where
  pub is_buyer : Bool
  pub is_vendor : Bool

abbrev pub to_public_escrow : EscrowRecord → PublicEscrow
to_public_escrow r = record {
  id = r.id;
  item_name = r.item_name;
  item_ref = r.item_ref;
  amount = r.amount;
  currency = r.currency;
  state = r.state;
  tracking_id = r.tracking_id;
  shipped_at = r.shipped_at;
  created_at = r.created_at;
  updated_at = r.updated_at;
}

-- The viewer's part of the answer, where the caller is known.
abbrev pub viewer_of : Option String → EscrowRecord → Option Viewer
viewer_of caller r =
    if truthy caller
    then some (record {
      is_buyer = r.buyer_address == or_else caller "";
      is_vendor = r.vendor_address == or_else caller "";
    })
    else none

module _ {R D C : Type 0} (b : Backend R D C) where
  -- `getPublicEscrow`
  unfoldable pub get_public_escrow : String → Exec (World R D C) PublicEscrow
  get_public_escrow id = do r ← load b id; pure (to_public_escrow r)

  -- `getEscrowForViewer`
  unfoldable pub get_escrow_for_viewer :
      String → Option String → Exec (World R D C) (PublicEscrow × Option Viewer)
  get_escrow_for_viewer id caller = do r ← load b id; pure (to_public_escrow r, viewer_of caller r)

-- `EVIDENCE_FILE_EXTENSIONS`
abbrev pub evidence_file_extensions : List String
evidence_file_extensions = "jpg" ∷ "jpeg" ∷ "png" ∷ "webp" ∷ "gif" ∷ "pdf" ∷ []

abbrev one_of : String → List String → Bool
one_of s [] = false
one_of s (t ∷ ts) = (t == s) || one_of s ts

-- What follows the last point of a name, and nothing in a name without one.
abbrev after_last : List String → String
after_last [] = ""
after_last (s ∷ []) = s
after_last (_ ∷ s ∷ ss) = after_last (s ∷ ss)

abbrev candidate_of : (String → String) → List String → String
candidate_of lower (_ ∷ s ∷ ss) = lower (after_last (s ∷ ss))
candidate_of lower _ = ""

unfoldable pub evidence_extension : (String → String) → String → String
evidence_extension lower file_name =
    let candidate = candidate_of lower (split b'.' file_name) in
    if one_of candidate evidence_file_extensions then candidate else "bin"

-- The object's key in `generateEvidenceUploadUrl`.
unfoldable pub evidence_key : (String → String) → String → String → String → String
unfolding evidence_extension
evidence_key lower uuid caller file_name =
    "evidence/" ++ caller ++ "/" ++ uuid ++ "." ++ evidence_extension lower file_name

-- Whatever the file is called, its key ends in an extension of the list or in `bin`.
evidence_extension_allowed :
    (lower : String → String) (file_name : String)
    → one_of (evidence_extension lower file_name) ("bin" ∷ evidence_file_extensions) ≡ true
unfolding evidence_extension
evidence_extension_allowed lower file_name =
    elim (Bool-cases
      (one_of (candidate_of lower (split b'.' file_name)) evidence_file_extensions)) [
        | inl e ↦ rw e (ground (arith, e))
        | inr e ↦ rw e refl
      ]
