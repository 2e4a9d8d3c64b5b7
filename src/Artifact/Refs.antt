-- ===== src/Artifact/Refs.antt =====
-- The paths that references are cleaned to (artifact/dir.go).
use mathlib.Core.List.{reverse_aux}
use gox_browser.Prelude.{
  ◌++◌, ◌==◌, All, Bool, Bool-cases, List, [], any, arith, false, if◌then◌else◌, inl, inr, refl,
  subst, suc, true, zero, ◌||◌, ℕ, ◌∷◌, ◌≡◌,
}
use gox_browser.Artifact.{
  Cleaned, attach, clean, clean_from, clean_ref, go_up, join, shown, split_path, up_names, reverse,
  build_key, segments_of,
}
use gox_browser.Errors.{Error, Result, err, ok, plain}
use gox_browser.Prelude.Text.{Text, codes, eq_text, has_prefix, trim_space}
use mathlib.Core.List.{reverse}
use gox_browser.Artifact.Local.{escapes}

abbrev pub has_slash : Text → Bool
has_slash s = any (λ c. c == b'/') s

-- An element of a path that is the name of something.
abbrev pub IsName : Text → Type 0
IsName s =
    (eq_text s [] ≡ false)
    × (eq_text s (codes ".") ≡ false)
    × (eq_text s (codes "..") ≡ false)
    × (has_slash s ≡ false)

unfoldable pub NoSlash : Text → Type 0
NoSlash s = has_slash s ≡ false

attach-All :
    (c : ℕ) (parts : List Text)
    → (c == b'/') ≡ false
    → All NoSlash parts
    → All NoSlash (attach c parts)
unfolding NoSlash
attach-All c [] h all = (rw h refl, tt)
attach-All c (s ∷ parts) h (first, all) = (rw h first, all)

pub split_path-All : (s : Text) → All NoSlash (split_path s)
unfolding NoSlash split_path
split_path-All [] = (refl, tt)
split_path-All (c ∷ s) = elim (Bool-cases (c == b'/')) [
  | inl slash ↦ rw slash (refl, split_path-All s)
  | inr past ↦ rw past (attach-All c (split_path s) past (split_path-All s))
]

go_up-All : (c : Cleaned) → All IsName c.names → All IsName (go_up c).names
go_up-All c all = popped c.ups c.names all
  where
    popped :
        (n : ℕ) (names : List Text)
        → All IsName names
        → All IsName (go_up (record { ups = n; names = names })).names
    popped n [] rest = tt
    popped n (s ∷ names) (first, rest) = rest

pub clean_from-All :
    (parts : List Text) (c : Cleaned)
    → All NoSlash parts
    → All IsName c.names
    → All IsName (clean_from parts c).names
unfolding NoSlash clean_from
clean_from-All [] c h all = all
clean_from-All (s ∷ parts) c (first, h) all =
    elim (Bool-cases (eq_text s [] || eq_text s (codes "."))) [
      | inl skip ↦ rw (skip, clean_from) (clean_from-All parts c h all)
      | inr kept ↦ elim (Bool-cases (eq_text s (codes ".."))) [
        | inl up ↦ rw (kept, clean_from, up) (clean_from-All parts (go_up c) h (go_up-All c all))
        | inr down ↦
            let name : IsName s = (ground (arith, kept), ground (arith, kept), down, first) in
            rw (kept, clean_from, down)
              (clean_from-All parts (record c { names = s ∷ c.names }) h (name, all))
      ]
    ]

up_shown :
    (parts : List Text)
    → let path = shown (codes ".." ∷ parts) in
      (eq_text path (codes "..") || has_prefix path (codes "../")) ≡ true
unfolding join eq_text has_prefix
up_shown [] = refl
up_shown (s ∷ parts) = refl

-- The path is made of names only, and of one at least.
abbrev pub IsInside : Text → Type 0
IsInside path =
    (s : Text) × (parts : List Text) × (path ≡ join (s ∷ parts)) × All IsName (s ∷ parts)

shown-IsInside :
    (parts : List Text)
    → All IsName parts
    → eq_text (shown parts) (codes ".") ≡ false
    → IsInside (shown parts)
unfolding eq_text
shown-IsInside [] all h = absurd (ground (arith, h))
shown-IsInside (s ∷ parts) all h = (s, parts, refl, all)

reverse_aux-All :
    (parts done : List Text)
    → All IsName parts
    → All IsName done
    → All IsName (reverse_aux parts done)
reverse_aux-All [] done all k = k
reverse_aux-All (s ∷ parts) done (first, all) k = reverse_aux-All parts (s ∷ done) all (first, k)

ok_value : {A : Type 0} (a b : A) → ok a ≡ ok b → a ≡ b
ok_value a b h = cc

pub All-reverse : (parts : List Text) → All IsName parts → All IsName (reverse parts)
All-reverse parts all = reverse_aux-All parts [] all tt

ups-IsInside :
    (n : ℕ) (names : List Text)
    → let path = shown (up_names n ++ names) in
      All IsName names
      → (eq_text path (codes "..") || has_prefix path (codes "../")) ≡ false
      → eq_text path (codes ".") ≡ false
      → IsInside path
unfolding up_names
ups-IsInside zero names all h k = shown-IsInside names all k
ups-IsInside (suc n) names all h k = absurd (cc (h, up_shown (up_names n ++ names)))

ok_else :
    {A : Type 0} (b : Bool) (e : Error) (r : Result A) (a : A)
    → (if b then err e else r) ≡ ok a
    → (b ≡ false) × (r ≡ ok a)
ok_else true e r a h = cc
ok_else false e r a h = (refl, h)

-- A reference that `cleanRef` accepts is turned into a path of one or more names, joined by slashes:
-- no element of that path is empty, `.` or `..`, or holds a slash. A name may still have spaces around
-- it, as in ` ..`; of the key that `BuildKey` makes, which trims such spaces, nothing is said.
pub clean_ref-IsInside :
    (quote : Text → Text) (ref path : Text) → clean_ref quote ref ≡ ok path → IsInside path
unfolding clean_ref clean
clean_ref-IsInside quote ref path h =
    let c = clean_from (split_path ref) (record { ups = 0; names = [] }) in
    let names =
      clean_from-All (split_path ref) (record { ups = 0; names = [] }) (split_path-All ref) tt in
    let (a, h1) = ok_else (eq_text ref []) (plain (codes "artifact: empty ref")) _ path h in
    let (b, h2) =
      ok_else (has_prefix ref (codes "/"))
        (plain (codes "artifact: ref must be relative: " ++ quote ref)) _ path h1 in
    let (escapes, h3) =
      ok_else (eq_text (clean ref) (codes "..") || has_prefix (clean ref) (codes "../"))
        (plain (codes "artifact: ref escapes namespace: " ++ quote ref)) _ path h2 in
    let (root, h4) =
      ok_else (eq_text (clean ref) (codes "."))
        (plain (codes "artifact: ref resolves to namespace root: " ++ quote ref)) _ path h3 in
    let same : clean ref ≡ path = ok_value (clean ref) path h4 in
    subst IsInside same
      (ups-IsInside c.ups (reverse c.names) (All-reverse c.names names) escapes root)

-- The key of a reference forgets a space at its start. So two references can share a key, and where
-- `cleanRef` accepts an element of a space and two dots as a name, the key holds the two dots alone.
pub build_key_space :
    (namespace path : Text)
    → build_key (namespace ∷ (b' ' ∷ path) ∷ []) ≡ build_key (namespace ∷ path ∷ [])
unfolding build_key segments_of trim_space
build_key_space namespace path = refl
