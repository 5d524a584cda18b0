-- ===== src/Prelude/Text/Split.antt =====
-- JavaScript's `split` by one character, and texts in which a character does not occur.
use Prim.Native.Char.{Char, code}
use Prim.Native.String.{String, ◌++◌}
use Prim.Native.Nat.{ℕ}
use mathlib.Core.Path.{◌≡◌, refl}
use mathlib.Core.Bool.{Bool, true, false}
use mathlib.Core.List.{List, [], ◌∷◌}
use native.Mathlib.Omega.{arith}
use text.Mathlib.TextLemmas.{nil-append, cons-append}
use trust_link_backend.Prelude.Tests.{eqb, if◌then◌else◌}

abbrev onto_first : Char → List String → List String
onto_first c [] = String.◌∷◌ c String.[] ∷ []
onto_first c (p ∷ ps) = String.◌∷◌ c p ∷ ps

-- `s.split(separator)`
unfoldable pub split : ℕ → String → List String
split sep String.[] = String.[] ∷ []
split sep (String.◌∷◌ c s) =
    let rest = split sep s in if eqb (code c) sep then String.[] ∷ rest else onto_first c rest

-- Every character passes the test.
abbrev pub Every : (ℕ → Bool) → String → Type 0
Every p String.[] = Unit
Every p (String.◌∷◌ c s) = (p (code c) ≡ true) × Every p s

abbrev pub lacks : ℕ → ℕ → Bool
lacks sep c = if eqb c sep then false else true

pub Every-map :
    (p q : ℕ → Bool) → ((c : ℕ) → p c ≡ true → q c ≡ true) → (s : String) → Every p s → Every q s
Every-map p q f String.[] h = tt
Every-map p q f (String.◌∷◌ c s) (h, hs) = (f (code c) h, Every-map p q f s hs)

pub Every-append : (p : ℕ → Bool) (s t : String) → Every p s → Every p t → Every p (s ++ t)
Every-append p String.[] t h k = rw (nil-append t) k
Every-append p (String.◌∷◌ c s) t (h, hs) k = rw (cons-append c s t) (h, Every-append p s t hs k)

pub split-lacks : (sep : ℕ) (s : String) → Every (lacks sep) s → split sep s ≡ s ∷ []
unfolding split
split-lacks sep String.[] h = refl
split-lacks sep (String.◌∷◌ c s) (h, hs) = ground (arith, split-lacks sep s hs)

-- What stands before the first separator is the first part.
pub split-append :
    (sep : ℕ) (s : String) (c : Char) (t : String)
    → Every (lacks sep) s
    → eqb (code c) sep ≡ true
    → split sep (s ++ String.◌∷◌ c t) ≡ s ∷ split sep t
unfolding split
split-append sep String.[] c t h e = rw (nil-append (String.◌∷◌ c t)) (ground arith)
split-append sep (String.◌∷◌ d s) c t (h, hs) e =
    rw (cons-append d s (String.◌∷◌ c t)) (ground (arith, split-append sep s c t hs e))
