-- ===== src/Prelude/Text.antt =====
-- A Go string that holds valid UTF-8, as its list of code points, and the functions of the package
-- `strings` that the program calls on it.
use Prim.Native.String.{String}
use Prim.Native.Nat.{ℕ, ◌+◌}
use Prim.Native.Char.{code}
use mathlib.Core.Path.{◌≡◌, refl, ap}
use mathlib.Core.Logic.{inl, inr}
use mathlib.Core.Bool.{Bool, true, false, ◌&&◌, ◌||◌}
use mathlib.Core.List.{List, [], ◌∷◌, ◌++◌, append_assoc, reverse}
use native.Mathlib.Omega.{arith}
use gox_browser.Prelude.Tests.{
  ltb, leb, ◌==◌, if◌then◌else◌, ==_refl, ==_iff, or_true, and-eq_true, or-eq_true,
}

abbrev pub Text : Type 0
Text = List ℕ

abbrev pub codes : String → Text
codes String.[] = []
codes (String.◌∷◌ letter rest) = code letter ∷ codes rest

unfoldable pub eq_text : Text → Text → Bool
eq_text [] [] = true
eq_text [] (y ∷ t) = false
eq_text (x ∷ s) [] = false
eq_text (x ∷ s) (y ∷ t) = (x == y) && eq_text s t

pub eq_text_sound : (s t : Text) → eq_text s t ≡ true → s ≡ t
unfolding eq_text
eq_text_sound [] [] h = refl
eq_text_sound [] (y ∷ t) h = ground arith
eq_text_sound (x ∷ s) [] h = ground arith
eq_text_sound (x ∷ s) (y ∷ t) h = ground (arith, eq_text_sound s t)

pub eq_text_refl : (s : Text) → eq_text s s ≡ true
unfolding eq_text
eq_text_refl [] = refl
eq_text_refl (x ∷ s) = rw (==_refl x) (eq_text_refl s)

-- `strings.HasPrefix`.
unfoldable pub has_prefix : Text → Text → Bool
has_prefix s [] = true
has_prefix [] (c ∷ p) = false
has_prefix (x ∷ s) (c ∷ p) = (x == c) && has_prefix s p

-- `strings.Contains`.
unfoldable pub contains : Text → Text → Bool
contains [] p = has_prefix [] p
contains (x ∷ s) p = has_prefix (x ∷ s) p || contains s p

-- The length in bytes of a code point, and of a text.
unfoldable pub rune_len : ℕ → ℕ
rune_len c = if ltb c 0x80 then 1 else if ltb c 0x800 then 2 else if ltb c 0x10000 then 3 else 4

unfoldable pub len : Text → ℕ
unfolding rune_len
len [] = 0
len (c ∷ s) = rune_len c + len s

-- `unicode.IsSpace`.
unfoldable pub is_space : ℕ → Bool
is_space c =
    (leb 9 c && leb c 13)
    || (c == 0x20)
    || (c == 0x85)
    || (c == 0xa0)
    || (c == 0x1680)
    || (leb 0x2000 c && leb c 0x200a)
    || (c == 0x2028)
    || (c == 0x2029)
    || (c == 0x202f)
    || (c == 0x205f)
    || (c == 0x3000)

trim_left : Text → Text
unfolding is_space
trim_left [] = []
trim_left (c ∷ s) = if is_space c then trim_left s else c ∷ s

-- `strings.TrimSpace`.
unfoldable pub trim_space : Text → Text
unfolding trim_left
trim_space s = reverse (trim_left (reverse (trim_left s)))

pub has_prefix-append : (p s : Text) → has_prefix (p ++ s) p ≡ true
unfolding has_prefix
has_prefix-append [] [] = refl
has_prefix-append [] (x ∷ s) = refl
has_prefix-append (c ∷ p) s = rw (==_refl c) (has_prefix-append p s)

pub has_prefix_sound : (s p : Text) → has_prefix s p ≡ true → (t : Text) × (s ≡ p ++ t)
unfolding has_prefix
has_prefix_sound s [] h = (s, refl)
has_prefix_sound [] (c ∷ p) h = ground arith
has_prefix_sound (x ∷ s) (c ∷ p) h =
    let (e, r) = and-eq_true (x == c) (has_prefix s p) h in
    let (t, q) = has_prefix_sound s p r in (t, cc ((==_iff x c).0 e, q))

-- A text contains another exactly when it occurs in it.
pub contains-append : (a p b : Text) → contains (a ++ (p ++ b)) p ≡ true
unfolding contains has_prefix
contains-append [] [] [] = refl
contains-append [] [] (x ∷ b) = refl
contains-append [] (c ∷ p) b = rw (has_prefix-append (c ∷ p) b)
contains-append (x ∷ a) p b =
    rw (contains-append a p b) (or_true (has_prefix (x ∷ (a ++ (p ++ b))) p))

pub contains_sound : (s p : Text) → contains s p ≡ true → (a b : Text) × (s ≡ a ++ (p ++ b))
unfolding contains
contains_sound [] p h = let (t, e) = has_prefix_sound [] p h in ([], t, e)
contains_sound (x ∷ s) p h = elim (or-eq_true (has_prefix (x ∷ s) p) (contains s p) h) [
  | inl here ↦ let (t, e) = has_prefix_sound (x ∷ s) p here in ([], t, e)
  | inr later ↦ let (a, b, e) = contains_sound s p later in (x ∷ a, b, ap (◌∷◌ x) e)
]

-- What occurs in a text occurs in every text around it.
pub contains_around : (a s b p : Text) → contains s p ≡ true → contains (a ++ (s ++ b)) p ≡ true
contains_around a s b p h =
    let (c, d, e) = contains_sound s p h in
    rw (e, append_assoc c (p ++ d) b, append_assoc p d b, ← append_assoc a c (p ++ (d ++ b)))
      (contains-append (a ++ c) p (d ++ b))

pub contains_behind : (a s p : Text) → contains s p ≡ true → contains (a ++ s) p ≡ true
contains_behind a s p h =
    let (c, d, e) = contains_sound s p h in
    rw (e, ← append_assoc a c (p ++ d)) (contains-append (a ++ c) p d)

pub contains_before : (s b p : Text) → contains s p ≡ true → contains (s ++ b) p ≡ true
contains_before s b p h = contains_around [] s b p h
