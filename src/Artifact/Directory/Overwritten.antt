-- ===== src/Artifact/Directory/Overwritten.antt =====
-- A reference that is put twice (artifact/dir.go, artifact/index.go).
use gox_browser.Prelude.{
  ◌++◌, Bool-cases, List, Option, [], arith, if_false, inl, inr, none, refl, some, sym, ℕ, ◌∙◌, ◌∷◌,
  ◌≡◌,
}
use gox_browser.Artifact.Directory.{
  ArtifactEntry, Storer, Tools, dir_get, dir_put, entry_for, find_entry,
}
use gox_browser.Artifact.Stores.{IsStorer, View}
use gox_browser.Prelude.Text.{Text, eq_text}
use gox_browser.Artifact.{clean_ref}
use gox_browser.Artifact.Directory.Roundtrip.{
  dir_get-found, dir_put-stores, find_entry-append, put_world, valid_dir, view-put,
}
use gox_browser.Errors.{ok}

find_entry-kept :
    (r : Text) (entries later : List ArtifactEntry) (e : ArtifactEntry)
    → find_entry r entries ≡ some e
    → find_entry r (entries ++ later) ≡ some e
unfolding find_entry
find_entry-kept r [] later e h = ground arith
find_entry-kept r (x ∷ entries) later e h = elim (Bool-cases (eq_text x.ref r)) [
  | inl hit ↦ rw (sym h, hit) refl
  | inr other ↦
      rw
        (
          other,
          find_entry-kept r entries later e
              (sym (if_false (eq_text x.ref r) (some x) (find_entry r entries) other) ∙ h),
        )
        refl
]

module _ {W : Type 0} (store : Storer W) (tools : Tools W) (view : View W)
    (lawful : IsStorer store view) where
  -- After two `Put`s of one reference, the first of which made its first entry, `Get` gives the bytes of
  -- the second, but the index finds the entry of the first, with its size and checksum.
  pub put_twice :
      (namespace ref r : Text) (entries : List ArtifactEntry) (old_bytes new_bytes : List ℕ)
      (tags : Option (List (Text × Text))) (w : W)
      → clean_ref tools.quote ref ≡ ok r
      → find_entry r entries ≡ none
      → let one = dir_put store tools ref old_bytes tags w (valid_dir namespace entries) in
        let two = dir_put store tools ref new_bytes tags one.0 one.1 in
        ((dir_get store tools ref two.0 two.1).1 ≡ ok new_bytes)
        × (find_entry r two.1.entries ≡ some (entry_for store tools r old_bytes tags))
  put_twice namespace ref r entries old_bytes new_bytes tags w cleaned fresh =
      let w1 = put_world store tools namespace r old_bytes w in
      let one = entry_for store tools r old_bytes tags in
      let two = entry_for store tools r new_bytes tags in
      let some_entries = entries ++ one ∷ [] in
      rw
        (
          dir_put-stores store tools view lawful namespace ref r entries old_bytes tags w cleaned,
          dir_put-stores store tools view lawful namespace ref r some_entries new_bytes tags w1
              cleaned,
        )
        (
          dir_get-found store tools view lawful namespace ref r (some_entries ++ two ∷ []) new_bytes
              (put_world store tools namespace r new_bytes w1) cleaned
              (view-put store tools view lawful w1 _ new_bytes _),
          find_entry-kept r some_entries (two ∷ []) one
              (find_entry-append r entries one fresh refl),
        )
