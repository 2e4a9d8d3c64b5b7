-- ===== src/Artifact.antt =====
-- artifact/artifact.go and `cleanRef` of artifact/dir.go: keys, content types and references. The
-- quoting of `%q` and the table of `strings.ToLower` are arguments.
pub mod Directory
pub mod Refs
pub mod Stores
pub mod S3
pub mod Local
use gox_browser.Prelude.{
  ◌+◌, ◌++◌, ◌==◌, Bool, List, Option, [], if◌then◌else◌, suc, zero, ◌||◌, ℕ, ◌∷◌, length, none,
  some,
}
use gox_browser.Errors.{
  Error, Result, err, ok, plain, wrap, sentinel, sign_url_unsupported, artifact_not_found,
}
use gox_browser.Prelude.Text.{Text, codes, eq_text, has_prefix, trim_space}
use gox_browser.Detector.{to_lower}
use mathlib.Core.List.{reverse}

-- `ErrNotFound` and `ErrSignURLUnsupported`.
abbrev pub err_not_found : Error
err_not_found = sentinel artifact_not_found

abbrev pub err_sign_url_unsupported : Error
err_sign_url_unsupported = sentinel sign_url_unsupported

-- `strings.Join(parts, "/")`.
unfoldable pub join : List Text → Text
join [] = []
join (s ∷ parts) = elim parts [ [] ↦ s | t ∷ ts ↦ s ++ b'/' ∷ join parts ]

unfoldable pub segments_of : List Text → List Text
segments_of [] = []
segments_of (p ∷ parts) =
    let rest = segments_of parts in elim (trim_space p) [ [] ↦ rest | c ∷ cs ↦ (c ∷ cs) ∷ rest ]

unfoldable pub build_key : List Text → Text
unfolding join segments_of
build_key parts = join (segments_of parts)

-- `filepath.Ext`: what follows the last dot of the last element, with it.
unfoldable pub extension_from : Text → Text → Text
extension_from best [] = best
extension_from best (c ∷ s) =
    extension_from (if c == b'/' then [] else if c == b'.' then c ∷ s else best) s

abbrev pub content_types : List (Text × Text)
content_types =
    (codes ".png", codes "image/png")
    ∷ (codes ".jpg", codes "image/jpeg")
    ∷ (codes ".jpeg", codes "image/jpeg")
    ∷ (codes ".gif", codes "image/gif")
    ∷ (codes ".webp", codes "image/webp")
    ∷ (codes ".json", codes "application/json")
    ∷ (codes ".html", codes "text/html")
    ∷ (codes ".htm", codes "text/html")
    ∷ (codes ".txt", codes "text/plain")
    ∷ (codes ".css", codes "text/css")
    ∷ (codes ".js", codes "application/javascript")
    ∷ (codes ".xml", codes "application/xml")
    ∷ (codes ".pdf", codes "application/pdf")
    ∷ (codes ".csv", codes "text/csv")
    ∷ (codes ".yaml", codes "application/x-yaml")
    ∷ (codes ".yml", codes "application/x-yaml")
    ∷ []

unfoldable pub type_of_extension : List (Text × Text) → Text → Text
type_of_extension [] e = codes "application/octet-stream"
type_of_extension ((x, kind) ∷ table) e = if eq_text e x then kind else type_of_extension table e

unfoldable pub detect_content_type : (ℕ → ℕ) → Text → Text
unfolding extension_from type_of_extension
detect_content_type lower name =
    type_of_extension content_types (to_lower lower (extension_from [] name))

abbrev pub attach : ℕ → List Text → List Text
attach c [] = (c ∷ []) ∷ []
attach c (s ∷ parts) = (c ∷ s) ∷ parts

-- The elements of a path between its slashes.
unfoldable pub split_path : Text → List Text
split_path [] = [] ∷ []
split_path (c ∷ s) = let rest = split_path s in if c == b'/' then [] ∷ rest else attach c rest

-- A relative path in the course of `path.Clean`: the number of its leading `..`, and the names behind
-- them, the last one first.
pub record Cleaned : Type 0 where
  pub ups : ℕ
  pub names : List Text

abbrev pub go_up : Cleaned → Cleaned
go_up c = elim c.names [
  | [] ↦ record c { ups = c.ups + 1 }
  | s ∷ names ↦ record c { names = names }
]

unfoldable pub clean_from : List Text → Cleaned → Cleaned
clean_from [] c = c
clean_from (s ∷ parts) c = clean_from parts (
    if eq_text s [] || eq_text s (codes ".")
    then c
    else if eq_text s (codes "..")
    then go_up c
    else record c { names = s ∷ c.names })

unfoldable pub up_names : ℕ → List Text
up_names zero = []
up_names (suc n) = codes ".." ∷ up_names n

abbrev pub shown : List Text → Text
shown [] = codes "."
shown (s ∷ parts) = join (s ∷ parts)

-- `path.Clean` of a path that is relative and not empty.
unfoldable pub clean : Text → Text
unfolding join split_path clean_from up_names
clean path =
    let c = clean_from (split_path path) (record { ups = 0; names = [] }) in
    shown (up_names c.ups ++ reverse c.names)

module _ (quote : Text → Text) where
  unfoldable pub clean_ref : Text → Result Text
  unfolding clean
  clean_ref ref =
      if eq_text ref []
      then err (plain (codes "artifact: empty ref"))
      else if has_prefix ref (codes "/")
      then err (plain (codes "artifact: ref must be relative: " ++ quote ref))
      else if eq_text (clean ref) (codes "..") || has_prefix (clean ref) (codes "../")
      then err (plain (codes "artifact: ref escapes namespace: " ++ quote ref))
      else if eq_text (clean ref) (codes ".")
      then err (plain (codes "artifact: ref resolves to namespace root: " ++ quote ref))
      else ok (clean ref)
