-- ===== src/Prelude/Text/Trim.antt =====
-- A text without spaces is what `trim` leaves of it.
use Prim.Native.Char.{code}
use Prim.Native.String.{String}
use Prim.Native.Nat.{ℕ}
use mathlib.Core.Path.{◌≡◌, refl}
use mathlib.Core.Bool.{Bool, true, false, not, ◌&&◌}
use trust_link_backend.Prelude.Tests.{if◌then◌else◌}
use trust_link_backend.Prelude.Text.{is_empty, is_space, trim, trim_start, trim_end}
use trust_link_backend.Prelude.Text.Split.{Every}

abbrev pub is_dark : ℕ → Bool
is_dark c = not (is_space c)

trim_end_lem : (s : String) → Every is_dark s → trim_end s ≡ s
unfolding trim_end
trim_end_lem String.[] h = refl
trim_end_lem (String.◌∷◌ c s) (h, hs) = go (is_space (code c)) h (trim_end s) (trim_end_lem s hs)
  where
    go :
        (b : Bool)
        → not b ≡ true
        → (t : String) → t ≡ s
        → (if b && is_empty t then String.[] else String.◌∷◌ c t) ≡ String.◌∷◌ c s
    go false _ t e = rw e refl
    go true k t e = cc

pub trim_lem : (s : String) → Every is_dark s → trim s ≡ s
unfolding trim
trim_lem String.[] h = refl
trim_lem (String.◌∷◌ c s) (h, hs) = go (is_space (code c)) refl
  where
    go : (b : Bool) → is_space (code c) ≡ b → trim (String.◌∷◌ c s) ≡ String.◌∷◌ c s
    go false e = rw (trim, trim_start, e) (trim_end_lem (String.◌∷◌ c s) (h, hs))
    go true e = cc
