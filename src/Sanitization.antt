-- ===== src/Sanitization.antt =====
-- src/common/sanitization/sanitize.util.ts: the cleaning of the texts that a request carries.
-- `sanitizeDeep` changes objects and arrays in place; here the changed value is the result.
pub mod Clean
use Prim.Native.Char.{code}
use trust_link_backend.Prelude.{
  ℕ, String, Bool, true, false, not, ◌&&◌, ◌||◌, if◌then◌else◌, leb, eqb,
}

-- A control character other than tab, newline and carriage return.
abbrev pub is_control : ℕ → Bool
is_control c =
    (leb c 0x1f && (not (eqb c 0x09) && (not (eqb c 0x0a) && not (eqb c 0x0d)))) || eqb c 0x7f

abbrev pub is_bracket : ℕ → Bool
is_bracket c = eqb c b'<' || eqb c b'>'

-- The characters that pass the test.
unfoldable pub strip : (ℕ → Bool) → String → String
strip bad String.[] = String.[]
strip bad (String.◌∷◌ c s) =
    let rest = strip bad s in if bad (code c) then rest else String.◌∷◌ c rest

-- A `>` is left to close a tag.
unfoldable pub closes : String → Bool
closes String.[] = false
closes (String.◌∷◌ c s) = eqb (code c) b'>' || closes s

-- `.replace(/<[^>]*>/g, '')`; the Boolean says whether the position is inside a tag.
unfoldable pub strip_tags : Bool → String → String
unfolding closes
strip_tags inside String.[] = String.[]
strip_tags true (String.◌∷◌ c s) = strip_tags (not (eqb (code c) b'>')) s
strip_tags false (String.◌∷◌ c s) =
    let skip = strip_tags true s in
    let keep = String.◌∷◌ c (strip_tags false s) in
    if eqb (code c) b'<' && closes s then skip else keep

unfoldable pub sanitize_string : String → String
unfolding strip strip_tags
sanitize_string s = strip is_bracket (strip_tags false (strip is_control s))

-- A value of a request's body.
mutual
  pub data Json : Type 0 where
    null : Json
    boolean : Bool → Json
    number : ℕ → Json
    str : String → Json
    arr : Items → Json
    obj : Fields → Json

  pub data Items : Type 0 where
    nil : Items
    cons : Json → Items → Items

  pub data Fields : Type 0 where
    end : Fields
    field : String → Json → Fields → Fields

unfoldable mutual
  unfolding sanitize_string

  pub sanitize_deep : Json → Json
  sanitize_deep null = null
  sanitize_deep (boolean b) = boolean b
  sanitize_deep (number n) = number n
  sanitize_deep (str s) = str (sanitize_string s)
  sanitize_deep (arr xs) = arr (sanitize_items xs)
  sanitize_deep (obj fs) = obj (sanitize_fields fs)

  pub sanitize_items : Items → Items
  sanitize_items nil = nil
  sanitize_items (cons x xs) = cons (sanitize_deep x) (sanitize_items xs)

  pub sanitize_fields : Fields → Fields
  sanitize_fields end = end
  sanitize_fields (field k v fs) = field k (sanitize_deep v) (sanitize_fields fs)
