-- ===== src/Prelude/Strings.antt =====
-- More functions of Go's package `strings`, on texts.
use Prim.Native.Nat.{ℕ}
use mathlib.Core.Path.{◌≡◌}
use mathlib.Core.Logic.{◌↔◌}
use mathlib.Core.Bool.{Bool, true}
use mathlib.Core.List.{List, Memᴰ, [], ◌∷◌, ◌++◌, reverse}
use gox_browser.Prelude.Tests.{◌==◌, if◌then◌else◌}
use gox_browser.Prelude.Lists.{any, any_complete, any_sound, drop, length}
use gox_browser.Prelude.Text.{Text, contains, contains-append, contains_sound, has_prefix}

unfoldable pub has_suffix : Text → Text → Bool
has_suffix s p = has_prefix (reverse s) (reverse p)

-- `strings.TrimPrefix`.
unfoldable pub trim_prefix : Text → Text → Text
trim_prefix s p = if has_prefix s p then drop (length p) s else s

-- `strings.Replace` with the count 1, of a text that is not empty.
unfoldable pub replace_first : Text → Text → Text → Text
replace_first [] old new = []
replace_first (c ∷ s) old new =
    if has_prefix (c ∷ s) old then new ++ drop (length old) (c ∷ s) else c ∷ replace_first s old new

-- The first part of `strings.Split` by one character.
unfoldable pub before_char : ℕ → Text → Text
before_char x [] = []
before_char x (c ∷ s) = if c == x then [] else c ∷ before_char x s

-- One of the patterns stands somewhere in the text.
abbrev pub Holds : Text → List Text → Type 0
Holds s ps = (p : Text) × Memᴰ p ps × (a : Text) × (b : Text) × (s ≡ a ++ (p ++ b))

pub any-Holds : (s : Text) (ps : List Text) → (any (contains s) ps ≡ true) ↔ Holds s ps
any-Holds s ps = (
  (λ h.
      let (p, m, hit) = any_sound (contains s) ps h in
      let (a, b, q) = contains_sound s p hit in (p, m, a, b, q)),
  (λ (p, m, a, b, q). any_complete (contains s) ps p m (rw q (contains-append a p b))),
)
