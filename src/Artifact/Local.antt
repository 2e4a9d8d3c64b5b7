-- ===== src/Artifact/Local.antt =====
-- artifact/local.go: the back end over the file system, which is an argument. The separator of
-- paths is the slash.
pub mod Confined
use gox_browser.Prelude.{
  ◌++◌, Bool, List, Option, [], false, if◌then◌else◌, none, some, true, ◌||◌, ℕ, ◌∷◌,
}
use gox_browser.Errors.{
  Error, Result, err, ok, plain, sentinel, wrap, sign_url_unsupported, artifact_not_found,
}
use gox_browser.Artifact.Directory.{Storer}
use gox_browser.Stream.{Stream}
use gox_browser.Prelude.Text.{Text, codes, eq_text, has_prefix}
use gox_browser.Artifact.{
  clean_from, join, split_path, reverse, err_not_found, err_sign_url_unsupported,
}
use gox_browser.Artifact.S3.{wrapped_error}
use gox_browser.Prelude.Int.{ℤ}
use mathlib.Core.List.{reverse}

-- The file system: a call that only reads does not change it. `copy_to` gives the bytes that it wrote
-- to an opened file.
pub record Files (W : Type 0) : Type 0 where
  pub quote : Text → Text
  pub is_not_exist : Error → Bool
  pub abs : W → Text → Result Text
  pub eval_symlinks : W → Text → Result Text
  pub dir_of : Text → Text
  pub mkdir_all : W → Text → W × Option Error
  pub write_file : W → Text → List ℕ → W × Option Error
  pub create_file : W → Text → W × Option Error
  pub copy_to : W → Text → Stream → W × List ℕ × Option Error
  pub read_file : W → Text → Result (List ℕ)
  pub open_file : W → Text → Result Stream
  pub stat : W → Text → Option Error

-- `filepath.Join` behind an absolute path: what leads above the root stays there.
unfoldable pub join_paths : Text → Text → Text
join_paths base key =
    let c = clean_from (split_path (base ++ codes "/" ++ key)) (record { ups = 0; names = [] }) in
    b'/' ∷ join (reverse c.names)

unfoldable pub is_below : Text → Text → Bool
is_below base path = eq_text path base || has_prefix path (base ++ codes "/")

module _ {W : Type 0} (files : Files W) (base_dir : Text) where
  abbrev pub escapes : Text → Error
  escapes key = plain (codes "artifact: key " ++ files.quote key ++ codes " escapes base dir")

  abbrev pub confined : Text → Text → Text → Result Text
  confined key base path = if is_below base path then ok path else err (escapes key)

  unfoldable pub path_for_write : W → Text → Result Text
  unfolding is_below join_paths
  path_for_write w key = elim (files.abs w base_dir) [
    | err e ↦ err e
    | ok base ↦ confined key base (join_paths base key)
  ]

  -- The base directory without links, or itself where they cannot be followed.
  abbrev pub resolved_base : W → Text → Text
  resolved_base w base = elim (files.eval_symlinks w base) [ ok path ↦ path | err e ↦ base ]

  unfoldable pub path_for_read : W → Text → Result Text
  unfolding is_below join_paths
  path_for_read w key = elim (files.abs w base_dir) [
    | err e ↦ err e
    | ok base ↦ elim (files.eval_symlinks w (join_paths base key)) [
      | err e ↦ err e
      | ok path ↦ confined key (resolved_base w base) path
    ]
  ]

  abbrev pub write_at : Text → Text → List ℕ → W → W × Option Error
  write_at key full bytes w =
      let (w1, made) = files.mkdir_all w (files.dir_of full) in
      let (w2, written) = files.write_file w1 full bytes in
      elim made [
        | some e ↦ (w1, some (wrap (codes "artifact: mkdir") e))
        | none ↦ (w2, wrapped_error (codes "artifact: write " ++ files.quote key) written)
      ]

  unfoldable pub local_put : W → Text → List ℕ → Text → W × Option Error
  unfolding path_for_write
  local_put w key bytes kind = elim (path_for_write w key) [
    | err e ↦ (w, some e)
    | ok full ↦ write_at key full bytes w
  ]

  abbrev pub copy_at : Text → Text → Stream → W → W × List ℕ × Option Error
  copy_at key full stream w =
      let (w1, made) = files.mkdir_all w (files.dir_of full) in
      let (w2, opened) = files.create_file w1 full in
      let (w3, bytes, copied) = files.copy_to w2 full stream in
      elim made [
        | some e ↦ (w1, [], some (wrap (codes "artifact: mkdir") e))
        | none ↦ elim opened [
          | some e ↦ (w2, [], some (wrap (codes "artifact: open " ++ files.quote key) e))
          | none ↦ (w3, bytes, wrapped_error (codes "artifact: copy " ++ files.quote key) copied)
        ]
      ]

  unfoldable pub local_put_reader : W → Text → Stream → Text → W × List ℕ × Option Error
  unfolding path_for_write
  local_put_reader w key stream kind = elim (path_for_write w key) [
    | err e ↦ (w, [], some e)
    | ok full ↦ copy_at key full stream w
  ]

  -- The error of a path that cannot be resolved.
  abbrev pub unresolved : Text → Error → Error
  unresolved text e = if files.is_not_exist e then wrap text err_not_found else e

  abbrev pub unread : Text → Error → Error
  unread text e = wrap text (if files.is_not_exist e then err_not_found else e)

  -- `Get` and `Reader`, which differ in their text and in the last call.
  abbrev pub read_by : {A : Type 0} → Text → (W → Text → Result A) → W → Text → Result A
  read_by text call w key = elim (path_for_read w key) [
    | err e ↦ err (unresolved (text ++ files.quote key) e)
    | ok full ↦ elim (call w full) [
      | ok a ↦ ok a
      | err e ↦ err (unread (text ++ files.quote key) e)
    ]
  ]

  unfoldable pub local_get : W → Text → W × Result (List ℕ)
  unfolding path_for_read
  local_get w key = (w, read_by (codes "artifact: read ") files.read_file w key)

  unfoldable pub local_reader : W → Text → W × Result Stream
  unfolding path_for_read
  local_reader w key = (w, read_by (codes "artifact: open ") files.open_file w key)

  abbrev pub absent_file : Error → Error → Result Bool
  absent_file e reported = if files.is_not_exist e then ok false else err reported

  unfoldable pub local_exists : W → Text → W × Result Bool
  unfolding path_for_read
  local_exists w key = (
    w,
    elim (path_for_read w key) [
      | err e ↦ absent_file e e
      | ok full ↦ elim (files.stat w full) [
        | none ↦ ok true
        | some e ↦ absent_file e (wrap (codes "artifact: stat " ++ files.quote key) e)
      ]
    ],
  )

  abbrev pub local_sign_url : W → Text → ℤ → W × Result Text
  local_sign_url w key ttl = (w, err err_sign_url_unsupported)

  abbrev pub local_storer : Storer W
  local_storer = record {
    put = local_put;
    get = local_get;
    exists = local_exists;
    put_reader = local_put_reader;
    reader = local_reader;
    sign_url = local_sign_url;
  }
