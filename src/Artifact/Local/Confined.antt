-- ===== src/Artifact/Local/Confined.antt =====
-- Where the back end of artifact/local.go writes and reads.
use gox_browser.Prelude.{
  ◌++◌, ◌==◌, Bool-cases, List, [], arith, inl, inr, or-eq_true, refl, sym, true, ℕ, ◌∷◌, ◌≡◌,
  append-nil, All, Bool, append_assoc, false, if◌then◌else◌, ◌⊎◌, some, ap, ◌∙◌,
}
use gox_browser.Prelude.Text.{Text, codes, eq_text, eq_text_sound, has_prefix, has_prefix_sound}
use gox_browser.Artifact.{attach, split_path, clean_from, join, reverse, Cleaned}
use gox_browser.Artifact.Local.{
  is_below, Files, confined, escapes, join_paths, path_for_write, local_get, local_put,
  path_for_read, resolved_base, write_at, unread, unresolved, read_by,
}
use gox_browser.Artifact.Refs.{All-reverse, IsName, clean_from-All, split_path-All}
use gox_browser.Errors.{Error, err, ok, Result}
use mathlib.Core.List.{reverse}

attach-append :
    (c : ℕ) (parts rest : List Text)
    → ¬ (parts ≡ [])
    → attach c (parts ++ rest) ≡ attach c parts ++ rest
attach-append c [] rest h = absurd (h refl)
attach-append c (s ∷ parts) rest h = refl

kept_given :
    (b : Bool) (c : ℕ) (parts : List Text) → ¬ ((if b then [] ∷ parts else attach c parts) ≡ [])
kept_given true c parts h = ground arith
kept_given false c [] h = ground arith
kept_given false c (s ∷ parts) h = ground arith

split_path-given : (s : Text) → ¬ (split_path s ≡ [])
unfolding split_path
split_path-given [] h = ground arith
split_path-given (c ∷ s) h = kept_given (c == b'/') c (split_path s) h

-- A slash ends an element.
split_path-append : (s t : Text) → split_path (s ++ b'/' ∷ t) ≡ split_path s ++ split_path t
unfolding split_path
split_path-append [] t = refl
split_path-append (c ∷ s) t = elim (Bool-cases (c == b'/')) [
  | inl slash ↦ rw (slash, split_path-append s t) refl
  | inr past ↦
      rw
        (
          past,
          split_path-append s t,
          attach-append c (split_path s) (split_path t) (split_path-given s),
        )
        refl
]

-- The elements of the path are those of the base, and further ones.
abbrev pub Extends : Text → Text → Type 0
Extends base path = (rest : List Text) × (split_path path ≡ split_path base ++ rest)

is_below-Extends : (base path : Text) → is_below base path ≡ true → Extends base path
unfolding is_below
is_below-Extends base path h =
    elim (or-eq_true (eq_text path base) (has_prefix path (base ++ codes "/")) h) [
      | inl same ↦
          ([], ap split_path (eq_text_sound path base same) ∙ sym (append-nil (split_path base)))
      | inr below ↦
          let (t, e) = has_prefix_sound path (base ++ codes "/") below in
          (split_path t, rw (e, append_assoc base (codes "/") t) (split_path-append base t))
    ]

Result-cases : {A : Type 0} (r : Result A) → ((e : Error) × (r ≡ err e)) ⊎ ((a : A) × (r ≡ ok a))
Result-cases (ok a) = inr (a, refl)
Result-cases (err e) = inl (e, refl)

-- An absolute path of names, without `.` and `..`.
abbrev pub IsPlain : Text → Type 0
IsPlain path = (names : List Text) × (path ≡ b'/' ∷ join names) × All IsName names

join_paths-IsPlain : (base key : Text) → IsPlain (join_paths base key)
unfolding join_paths
join_paths-IsPlain base key =
    let parts = split_path (base ++ codes "/" ++ key) in
    let start_ : Cleaned = record { ups = 0; names = [] } in
    let c = clean_from parts start_ in
    (
      reverse c.names,
      refl,
      All-reverse c.names
          (clean_from-All parts start_ (split_path-All (base ++ codes "/" ++ key)) tt),
    )

module _ {W : Type 0} (files : Files W) (base_dir : Text) where
  -- Either the path stands below the base, or it is refused.
  confined-cases :
      (key base path : Text)
      → ((e : Error) × (confined files base_dir key base path ≡ err e))
        ⊎ (Extends base path × (confined files base_dir key base path ≡ ok path))
  confined-cases key base path = elim (Bool-cases (is_below base path)) [
    | inl below ↦ inr (is_below-Extends base path below, rw below refl)
    | inr outside ↦ inl (escapes files base_dir key, rw outside refl)
  ]

  path_for_write-cases :
      (w : W) (key base : Text)
      → files.abs w base_dir ≡ ok base
      → ((e : Error) × (path_for_write files base_dir w key ≡ err e))
        ⊎ ((path : Text) × IsPlain path
            × Extends base path
            × (path_for_write files base_dir w key ≡ ok path))
  unfolding path_for_write
  path_for_write-cases w key base h = elim (confined-cases key base (join_paths base key)) [
    | inl (e, refused) ↦ inl (e, rw (path_for_write, h, refused) refl)
    | inr (below, given) ↦ inr (
      join_paths base key,
      join_paths-IsPlain base key,
      below,
      rw (path_for_write, h, given) refl,
    )
  ]

  path_for_read-cases :
      (w : W) (key base : Text)
      → files.abs w base_dir ≡ ok base
      → ((e : Error) × (path_for_read files base_dir w key ≡ err e))
        ⊎ ((path : Text) × Extends (resolved_base files base_dir w base) path
            × (path_for_read files base_dir w key ≡ ok path))
  unfolding path_for_read
  path_for_read-cases w key base h =
      elim (Result-cases (files.eval_symlinks w (join_paths base key))) [
        | inl (e, lost) ↦ inl (e, rw (path_for_read, h, lost) refl)
        | inr (path, led) ↦ elim (confined-cases key (resolved_base files base_dir w base) path) [
          | inl (e, refused) ↦ inl (e, rw (path_for_read, h, led, refused) refl)
          | inr (below, given) ↦ inr (path, below, rw (path_for_read, h, led, given) refl)
        ]
      ]

  -- With `base` the absolute path of the base directory: `Put` either refuses the key and changes nothing,
  -- or writes at a path without `.` and `..` whose elements are those of the base and further ones.
  -- `Get` fails, or gives the bytes of a file whose path, behind all links, has the elements of the base
  -- behind its links and further ones.
  pub local_confined :
      (w : W) (key base kind : Text) (bytes : List ℕ)
      → files.abs w base_dir ≡ ok base
      → (((e : Error) × (local_put files base_dir w key bytes kind ≡ (w, some e)))
          ⊎ ((path : Text) × IsPlain path
              × Extends base path
              × (local_put files base_dir w key bytes kind
                  ≡ write_at files base_dir key path bytes w)))
        × (((e : Error) × (local_get files base_dir w key ≡ (w, err e)))
            ⊎ ((path : Text) × (content : List ℕ) × Extends
                  (resolved_base files base_dir w base)
                  path
                × (files.read_file w path ≡ ok content)
                × (local_get files base_dir w key ≡ (w, ok content))))
  unfolding local_put local_get
  local_confined w key base kind bytes h = (
    elim (path_for_write-cases w key base h) [
      | inl (e, refused) ↦ inl (e, rw (local_put, refused) refl)
      | inr (path, plain_path, below, given) ↦
          inr (path, plain_path, below, rw (local_put, given) refl)
    ],
    elim (path_for_read-cases w key base h) [
      | inl (e, refused) ↦ inl (
        unresolved files base_dir (codes "artifact: read " ++ files.quote key) e,
        rw (local_get, read_by, refused) refl,
      )
      | inr (path, below, given) ↦ elim (Result-cases (files.read_file w path)) [
        | inl (e, unread_file) ↦ inl (
          unread files base_dir (codes "artifact: read " ++ files.quote key) e,
          rw (local_get, read_by, given, unread_file) refl,
        )
        | inr (content, bytes_read) ↦
            inr (path, content, below, bytes_read, rw (local_get, read_by, given, bytes_read) refl)
      ]
    ],
  )
