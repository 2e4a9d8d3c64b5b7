-- ===== src/Artifact/Directory/Refused.antt =====
-- What a directory with a refused namespace does (artifact/dir.go).
use gox_browser.Prelude.{◌++◌, List, Option, [], refl, some, subst, ℕ, ◌≡◌}
use gox_browser.Artifact.Directory.{
  Dir, Storer, Tools, dir_exists, dir_get, dir_put, finalize, load_index, open_dir, dir_put_reader,
  dir_reader, dir_sign_url,
}
use gox_browser.Errors.{Error, err, wrap}
use gox_browser.Prelude.Text.{Text, codes}
use gox_browser.Artifact.{clean_ref}
use gox_browser.Stream.{Stream}
use gox_browser.Prelude.Int.{ℤ}

module _ {W : Type 0} (store : Storer W) (tools : Tools W) where
  abbrev refusal_of : Text → Error → Error
  refusal_of namespace e = wrap (codes "artifact: invalid namespace " ++ tools.quote namespace) e

  abbrev refused : Text → Error → Dir
  refused namespace e = record {
    namespace = namespace;
    invalid = some (refusal_of namespace e);
    entries = [];
  }

  open_dir-refused :
      (namespace : Text) (e : Error)
      → clean_ref tools.quote namespace ≡ err e
      → refused namespace e ≡ open_dir store tools namespace
  unfolding open_dir
  open_dir-refused namespace e h = rw (h, open_dir) refl

  -- A directory whose namespace is refused never reaches its back end: every operation gives back the
  -- same error, and changes neither the back end nor the entries.
  pub refused_dir :
      (namespace ref : Text) (e : Error) (bytes : List ℕ) (tags : Option (List (Text × Text)))
      (stream : Stream) (ttl : ℤ) (w : W)
      → clean_ref tools.quote namespace ≡ err e
      → let d = open_dir store tools namespace in
        let refusal = wrap (codes "artifact: invalid namespace " ++ tools.quote namespace) e in
        (dir_put store tools ref bytes tags w d ≡ (w, d, some refusal))
        × (dir_get store tools ref w d ≡ (w, err refusal))
        × (dir_exists store tools ref w d ≡ (w, err refusal))
        × (finalize store tools w d ≡ (w, some refusal))
        × (load_index store tools w d ≡ (w, err refusal))
        × (dir_put_reader store tools ref stream tags w d ≡ (w, d, some refusal))
        × (dir_reader store tools ref w d ≡ (w, err refusal))
        × (dir_sign_url store tools ref ttl w d ≡ (w, err refusal))
  unfolding dir_put dir_get dir_exists finalize load_index dir_put_reader dir_reader dir_sign_url
  refused_dir namespace ref e bytes tags stream ttl w h =
      subst
        (λ d.
          (dir_put store tools ref bytes tags w d ≡ (w, d, some (refusal_of namespace e)))
          × (dir_get store tools ref w d ≡ (w, err (refusal_of namespace e)))
          × (dir_exists store tools ref w d ≡ (w, err (refusal_of namespace e)))
          × (finalize store tools w d ≡ (w, some (refusal_of namespace e)))
          × (load_index store tools w d ≡ (w, err (refusal_of namespace e)))
          × (dir_put_reader store tools ref stream tags w d ≡ (w, d, some (refusal_of namespace e)))
          × (dir_reader store tools ref w d ≡ (w, err (refusal_of namespace e)))
          × (dir_sign_url store tools ref ttl w d ≡ (w, err (refusal_of namespace e))))
        (open_dir-refused namespace e h) (refl, refl, refl, refl, refl, refl, refl, refl)
