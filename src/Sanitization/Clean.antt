-- ===== src/Sanitization/Clean.antt =====
-- src/common/sanitization/sanitize.util.ts: what is left is clean, and cleaning it again changes
-- nothing.
use Prim.Native.Char.{code}
use trust_link_backend.Prelude.{
  ℕ, String, Bool, true, false, not, ◌&&◌, ◌≡◌, refl, ap, ◌∙◌, inl, inr, arith, eqb, Bool-cases,
}
use trust_link_backend.Prelude.Text.Split.{Every}
use trust_link_backend.Sanitization.{
  is_control, is_bracket, strip, closes, strip_tags, sanitize_string, Json, null, boolean, number,
  str, arr, obj, Items, nil, cons, Fields, end, field, sanitize_deep, sanitize_items,
  sanitize_fields,
}

abbrev without : (ℕ → Bool) → ℕ → Bool
without bad c = not (bad c)

strip-Every : (bad : ℕ → Bool) (s : String) → Every (without bad) (strip bad s)
unfolding strip
strip-Every bad String.[] = tt
strip-Every bad (String.◌∷◌ c s) = elim (Bool-cases (bad (code c))) [
  | inl e ↦ rw e (strip-Every bad s)
  | inr e ↦ rw e (rw e refl, strip-Every bad s)
]

-- A strip keeps what held of every character.
strip-kept : (bad p : ℕ → Bool) (s : String) → Every p s → Every p (strip bad s)
unfolding strip
strip-kept bad p String.[] h = tt
strip-kept bad p (String.◌∷◌ c s) (h, hs) = elim (Bool-cases (bad (code c))) [
  | inl e ↦ rw e (strip-kept bad p s hs)
  | inr e ↦ rw e (h, strip-kept bad p s hs)
]

tags-kept : (p : ℕ → Bool) (inside : Bool) (s : String) → Every p s → Every p (strip_tags inside s)
unfolding strip_tags
tags-kept p inside String.[] h = tt
tags-kept p true (String.◌∷◌ c s) (h, hs) = tags-kept p (not (eqb (code c) b'>')) s hs
tags-kept p false (String.◌∷◌ c s) (h, hs) = elim (Bool-cases (eqb (code c) b'<' && closes s)) [
  | inl e ↦ rw e (tags-kept p true s hs)
  | inr e ↦ rw e (h, tags-kept p false s hs)
]

strip_same : (bad : ℕ → Bool) (s : String) → Every (without bad) s → strip bad s ≡ s
unfolding strip
strip_same bad String.[] h = refl
strip_same bad (String.◌∷◌ c s) (h, hs) = elim (Bool-cases (bad (code c))) [
  | inl e ↦ absurd (cc)
  | inr e ↦ rw e (ap (String.◌∷◌ c) (strip_same bad s hs))
]

tags_same : (s : String) → Every (without is_bracket) s → strip_tags false s ≡ s
unfolding strip_tags
tags_same String.[] h = refl
tags_same (String.◌∷◌ c s) (h, hs) = ground (arith, tags_same s hs)

-- No control character and no angle bracket.
abbrev pub IsClean : String → Type 0
IsClean s = Every (without is_control) s × Every (without is_bracket) s

sanitize_string-IsClean : (s : String) → IsClean (sanitize_string s)
unfolding sanitize_string
sanitize_string-IsClean s = (
  strip-kept is_bracket (without is_control) (strip_tags false (strip is_control s))
      (tags-kept (without is_control) false (strip is_control s) (strip-Every is_control s)),
  strip-Every is_bracket (strip_tags false (strip is_control s)),
)

sanitize_string_same : (s : String) → IsClean s → sanitize_string s ≡ s
unfolding sanitize_string
sanitize_string_same s (h, k) =
    ap (λ t. strip is_bracket (strip_tags false t)) (strip_same is_control s h)
    ∙ ap (strip is_bracket) (tags_same s k)
    ∙ strip_same is_bracket s k

-- Every text in a value is clean.
mutual
  pub IsCleaned : Json → Type 0
  IsCleaned null = Unit
  IsCleaned (boolean b) = Unit
  IsCleaned (number n) = Unit
  IsCleaned (str s) = IsClean s
  IsCleaned (arr xs) = AreCleaned xs
  IsCleaned (obj fs) = FieldsCleaned fs

  pub AreCleaned : Items → Type 0
  AreCleaned nil = Unit
  AreCleaned (cons x xs) = IsCleaned x × AreCleaned xs

  pub FieldsCleaned : Fields → Type 0
  FieldsCleaned end = Unit
  FieldsCleaned (field k v fs) = IsCleaned v × FieldsCleaned fs

mutual
  unfolding IsCleaned AreCleaned FieldsCleaned sanitize_deep sanitize_items sanitize_fields

  deep-IsCleaned : (v : Json) → IsCleaned (sanitize_deep v)
  deep-IsCleaned null = tt
  deep-IsCleaned (boolean b) = tt
  deep-IsCleaned (number n) = tt
  deep-IsCleaned (str s) = sanitize_string-IsClean s
  deep-IsCleaned (arr xs) = items-AreCleaned xs
  deep-IsCleaned (obj fs) = fields-FieldsCleaned fs

  items-AreCleaned : (xs : Items) → AreCleaned (sanitize_items xs)
  items-AreCleaned nil = tt
  items-AreCleaned (cons x xs) = (deep-IsCleaned x, items-AreCleaned xs)

  fields-FieldsCleaned : (fs : Fields) → FieldsCleaned (sanitize_fields fs)
  fields-FieldsCleaned end = tt
  fields-FieldsCleaned (field k v fs) = (deep-IsCleaned v, fields-FieldsCleaned fs)

mutual
  unfolding IsCleaned AreCleaned FieldsCleaned sanitize_deep sanitize_items sanitize_fields

  deep_same : (v : Json) → IsCleaned v → sanitize_deep v ≡ v
  deep_same null h = refl
  deep_same (boolean b) h = refl
  deep_same (number n) h = refl
  deep_same (str s) h = ap str (sanitize_string_same s h)
  deep_same (arr xs) h = ap arr (items_same xs h)
  deep_same (obj fs) h = ap obj (fields_same fs h)

  items_same : (xs : Items) → AreCleaned xs → sanitize_items xs ≡ xs
  items_same nil h = refl
  items_same (cons x xs) (h, hs) = cc (deep_same x h, items_same xs hs)

  fields_same : (fs : Fields) → FieldsCleaned fs → sanitize_fields fs ≡ fs
  fields_same end h = refl
  fields_same (field k v fs) (h, hs) = cc (deep_same v h, fields_same fs hs)
