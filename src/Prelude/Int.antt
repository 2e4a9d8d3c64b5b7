-- ===== src/Prelude/Int.antt =====
-- Go's `int`, as the integers over the native numbers.
use Prim.Native.Nat.{ℕ, zero, suc, ◌%◌, ◌+◌, ◌-◌, ◌^◌, ◌≤◌}
use mathlib.Core.Path.{◌≡◌, refl}
use mathlib.Core.Bool.{Bool, ◌&&◌, false, true}
use native.Mathlib.Omega.{arith}
use gox_browser.Prelude.Tests.{ltb, leb, if◌then◌else◌, lt→ltb}
use native.Mathlib.Nat.{mod-eq_of_lt}

-- `negsuc n` is -(n + 1).
pub data ℤ : Type 0 where
  pos : ℕ → ℤ
  negsuc : ℕ → ℤ

abbrev pub pos_part : ℤ → ℕ
pos_part (pos n) = n
pos_part (negsuc n) = 0

abbrev pub neg_part : ℤ → ℕ
neg_part (pos n) = 0
neg_part (negsuc n) = suc n

-- a - b, as an integer.
abbrev pub sub_ℕ : ℕ → ℕ → ℤ
sub_ℕ a b = if leb b a then pos (a - b) else negsuc (b - a - 1)

infixl 65 ◌+ℤ◌
unfoldable pub ◌+ℤ◌ : ℤ → ℤ → ℤ
a +ℤ b = sub_ℕ (pos_part a + pos_part b) (neg_part a + neg_part b)

infix 50 ◌≤ℤ◌
abbrev pub ◌≤ℤ◌ : ℤ → ℤ → Type 0
a ≤ℤ b = pos_part a + neg_part b ≤ pos_part b + neg_part a

abbrev pub ltb_ℤ : ℤ → ℤ → Bool
ltb_ℤ a b = ltb (pos_part a + neg_part b) (pos_part b + neg_part a)

abbrev pub leb_ℤ : ℤ → ℤ → Bool
leb_ℤ a b = leb (pos_part a + neg_part b) (pos_part b + neg_part a)

-- `x++` and `x--`.
unfoldable pub inc : ℤ → ℤ
inc (pos n) = pos (suc n)
inc (negsuc zero) = pos 0
inc (negsuc (suc n)) = negsuc n

unfoldable pub dec : ℤ → ℤ
dec (pos zero) = negsuc 0
dec (pos (suc n)) = pos n
dec (negsuc n) = negsuc (suc n)

pub inc-pos : (n : ℕ) → inc (pos n) ≡ pos (n + 1)
unfolding inc
inc-pos n = ground arith

pub dec-pos_suc : (n : ℕ) → dec (pos (n + 1)) ≡ pos n
unfolding dec
dec-pos_suc n = ground arith

pub dec-inc : (i : ℤ) → dec (inc i) ≡ i
unfolding inc dec
dec-inc (pos n) = refl
dec-inc (negsuc zero) = refl
dec-inc (negsuc (suc n)) = refl

-- A value modulo 2^64 as a signed one: the wrap of a 64-bit `int`.
abbrev residue : ℤ → ℕ
residue (pos n) = n % 2 ^ 64
residue (negsuc n) = 2 ^ 64 - 1 - n % 2 ^ 64

unfoldable pub wrap_int : ℤ → ℤ
wrap_int a = let u = residue a in if ltb u (2 ^ 63) then pos u else negsuc (2 ^ 64 - 1 - u)

abbrev pub max_int : ℤ
max_int = pos (2 ^ 63 - 1)

abbrev pub min_int : ℤ
min_int = negsuc (2 ^ 63 - 1)

pub wrap_int-fits : (a : ℤ) → min_int ≤ℤ a → a ≤ℤ max_int → wrap_int a ≡ a
unfolding wrap_int
wrap_int-fits (pos n) low high =
    let same : n % 2 ^ 64 ≡ n = mod-eq_of_lt (omega (arith, high)) in
    let small : ltb n (2 ^ 63) ≡ true = lt→ltb n (2 ^ 63) (omega (arith, high)) in
    rw (same, small) refl
wrap_int-fits (negsuc n) low high =
    let same : n % 2 ^ 64 ≡ n = mod-eq_of_lt (omega (arith, low)) in
    let big : ltb (2 ^ 64 - 1 - n) (2 ^ 63) ≡ false = ground (arith, low) in
    let back : 2 ^ 64 - 1 - (2 ^ 64 - 1 - n) ≡ n = omega (arith, low) in rw (same, big, back) refl

unfoldable pub eq_ℤ : ℤ → ℤ → Bool
eq_ℤ a b = leb_ℤ a b && leb_ℤ b a
