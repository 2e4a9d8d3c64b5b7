-- ===== src/Artifact/Directory/Roundtrip.antt =====
-- What a directory (artifact/dir.go) reads back, over a back end that keeps its contract.
use gox_browser.Prelude.{
  ◌++◌, List, Option, [], ap, none, refl, some, ℕ, ◌∙◌, ◌∷◌, ◌≡◌, Bool, Bool-cases, arith, false,
  if◌then◌else◌, if_false, inl, inr, sym, true,
}
use gox_browser.Artifact.Directory.{
  ArtifactEntry, Dir, Storer, Tools, dir_put, entry_for, find_entry, record_entry, put_at, Index,
  dir_get, finalize, index_of, load_index,
}
use gox_browser.Errors.{Error, Result, err, ok, is, artifact_not_found}
use gox_browser.Artifact.Stores.{
  IsStorer, View, found, get_answer, lookup_answer, put_answer, stored, broke, missing,
}
use gox_browser.Prelude.Text.{Text, eq_text_refl, eq_text, codes}
use gox_browser.Artifact.{clean_ref, detect_content_type, build_key}

-- A directory whose namespace was accepted.
abbrev pub valid_dir : Text → List ArtifactEntry → Dir
valid_dir namespace entries = record { namespace = namespace; invalid = none; entries = entries }

-- The back end behind a `Put` of the cleaned reference `r`, and behind `Finalize`.
abbrev pub put_world : {W : Type 0} → Storer W → Tools W → Text → Text → List ℕ → W → W
put_world store tools namespace r bytes w =
    (store.put w (build_key (namespace ∷ r ∷ [])) bytes (detect_content_type tools.lower r)).0

abbrev pub final_world : {W : Type 0} → Storer W → Text → List ℕ → W → W
final_world store namespace bytes w =
    (store.put w (build_key (namespace ∷ codes "index.json" ∷ [])) bytes
      (codes "application/json")).0

stored-none : (e : Option Error) → put_answer e ≡ stored → e ≡ none
unfolding put_answer
stored-none none h = refl
stored-none (some e) h = ground arith

err_unfound : (b : Bool) (bytes : List ℕ) → (if b then missing else broke) ≡ found bytes → ⊥
err_unfound true bytes h = ground arith
err_unfound false bytes h = ground arith

some-none :
    (x : ArtifactEntry) (o : Option ArtifactEntry) (b : Bool)
    → b ≡ true
    → (if b then some x else o) ≡ none
    → ⊥
some-none x o true h e = ground arith
some-none x o false h e = ground arith

found-ok : (r : Result (List ℕ)) (bytes : List ℕ) → get_answer r ≡ found bytes → r ≡ ok bytes
unfolding get_answer
found-ok (ok a) bytes h = cc
found-ok (err e) bytes h = absurd (err_unfound (is e artifact_not_found) bytes h)

pub find_entry-append :
    (r : Text) (entries : List ArtifactEntry) (e : ArtifactEntry)
    → find_entry r entries ≡ none
    → e.ref ≡ r
    → find_entry r (entries ++ e ∷ []) ≡ some e
unfolding find_entry
find_entry-append r [] e fresh same = rw (same, eq_text_refl r) refl
find_entry-append r (x ∷ entries) e fresh same = elim (Bool-cases (eq_text x.ref r)) [
  | inl hit ↦ absurd (some-none x _ (eq_text x.ref r) hit fresh)
  | inr other ↦
      rw
        (
          other,
          find_entry-append r entries e
              (sym (if_false (eq_text x.ref r) (some x) (find_entry r entries) other) ∙ fresh) same,
        )
        refl
]

module _ {W : Type 0} (store : Storer W) (tools : Tools W) (view : View W)
    (lawful : IsStorer store view) where
  put-none :
      (w : W) (key : Text) (bytes : List ℕ) (kind : Text) → (store.put w key bytes kind).1 ≡ none
  put-none w key bytes kind = stored-none _ (lawful.puts w key bytes kind)

  get-found :
      (w : W) (key : Text) (bytes : List ℕ)
      → view w key ≡ some bytes
      → (store.get w key).1 ≡ ok bytes
  get-found w key bytes h = found-ok _ bytes (lawful.gets w key ∙ ap lookup_answer h)

  abbrev key_of : Text → Text → Text
  key_of namespace r = build_key (namespace ∷ r ∷ [])

  put_at-stores :
      (d : Dir) (r : Text) (bytes : List ℕ) (tags : Option (List (Text × Text))) (w : W)
      → put_at store tools r bytes tags w d ≡ (
        put_world store tools d.namespace r bytes w,
        record_entry store tools (entry_for store tools r bytes tags) d,
        none,
      )
  put_at-stores d r bytes tags w =
      rw (put_at, put-none w (key_of d.namespace r) bytes (detect_content_type tools.lower r)) refl

  pub dir_put-stores :
      (namespace ref r : Text) (entries : List ArtifactEntry) (bytes : List ℕ)
      (tags : Option (List (Text × Text))) (w : W)
      → clean_ref tools.quote ref ≡ ok r
      → dir_put store tools ref bytes tags w (valid_dir namespace entries) ≡ (
        put_world store tools namespace r bytes w,
        valid_dir namespace (entries ++ entry_for store tools r bytes tags ∷ []),
        none,
      )
  unfolding dir_put
  dir_put-stores namespace ref r entries bytes tags w cleaned =
      rw (dir_put, cleaned) (put_at-stores (valid_dir namespace entries) r bytes tags w)

  finalize-stores :
      (namespace : Text) (entries : List ArtifactEntry) (w : W) (enc : List ℕ)
      → tools.marshal_index (index_of store tools w (valid_dir namespace entries)) ≡ ok enc
      → finalize store tools w (valid_dir namespace entries)
        ≡ (final_world store namespace enc w, none)
  unfolding finalize
  finalize-stores namespace entries w enc h =
      rw (h, put-none w (key_of namespace (codes "index.json")) enc (codes "application/json")) refl

  pub view-put :
      (w : W) (key : Text) (bytes : List ℕ) (kind : Text)
      → view (store.put w key bytes kind).0 key ≡ some bytes
  view-put w key bytes kind = lawful.put_view w key bytes kind key ∙ rw (eq_text_refl key) refl

  view-put_other :
      (w : W) (key : Text) (bytes : List ℕ) (kind k : Text) (kept : Option (List ℕ))
      → eq_text k key ≡ false
      → view w k ≡ kept
      → view (store.put w key bytes kind).0 k ≡ kept
  view-put_other w key bytes kind k kept other h = lawful.put_view w key bytes kind k ∙ rw other h

  pub dir_get-found :
      (namespace ref r : Text) (entries : List ArtifactEntry) (bytes : List ℕ) (w : W)
      → clean_ref tools.quote ref ≡ ok r
      → view w (key_of namespace r) ≡ some bytes
      → (dir_get store tools ref w (valid_dir namespace entries)).1 ≡ ok bytes
  unfolding dir_get
  dir_get-found namespace ref r entries bytes w cleaned h =
      rw (dir_get, cleaned) (get-found w (key_of namespace r) bytes h)

  load_index-found :
      (namespace : Text) (entries : List ArtifactEntry) (enc : List ℕ) (index : Index) (w : W)
      → view w (key_of namespace (codes "index.json")) ≡ some enc
      → tools.unmarshal_index enc ≡ ok index
      → (load_index store tools w (valid_dir namespace entries)).1 ≡ ok index
  unfolding load_index
  load_index-found namespace entries enc index w h decoded =
      rw (get-found w (key_of namespace (codes "index.json")) enc h, decoded) refl

  -- Over a back end that keeps its contract and a codec that reads its index back: `Put` of a reference
  -- that `cleanRef` accepts succeeds, and so does `Finalize` after it. Then `Get` gives the bytes that
  -- were put, unless the reference has the key of the index, and `LoadIndex` gives the index with the
  -- entries so far and that of this artifact at their end.
  pub dir_roundtrip :
      (namespace ref r : Text) (entries : List ArtifactEntry) (bytes enc : List ℕ)
      (tags : Option (List (Text × Text))) (w : W)
      → clean_ref tools.quote ref ≡ ok r
      → eq_text (build_key (namespace ∷ r ∷ [])) (build_key (namespace ∷ codes "index.json" ∷ []))
        ≡ false
      → let w1 = put_world store tools namespace r bytes w in
        let w2 = final_world store namespace enc w1 in
        let d = valid_dir namespace (entries ++ entry_for store tools r bytes tags ∷ []) in
        tools.marshal_index (index_of store tools w1 d) ≡ ok enc
        → tools.unmarshal_index enc ≡ ok (index_of store tools w1 d)
        → (dir_put store tools ref bytes tags w (valid_dir namespace entries) ≡ (w1, d, none))
          × (finalize store tools w1 d ≡ (w2, none))
          × ((dir_get store tools ref w2 d).1 ≡ ok bytes)
          × ((load_index store tools w2 d).1 ≡ ok (index_of store tools w1 d))
  dir_roundtrip namespace ref r entries bytes enc tags w cleaned apart encoded decoded =
      let w1 = put_world store tools namespace r bytes w in
      let all = entries ++ entry_for store tools r bytes tags ∷ [] in
      (
        dir_put-stores namespace ref r entries bytes tags w cleaned,
        finalize-stores namespace all w1 enc encoded,
        dir_get-found namespace ref r all bytes (final_world store namespace enc w1) cleaned (
            view-put_other w1 _ enc _ (key_of namespace r) (some bytes) apart
              (view-put w _ bytes _)),
        load_index-found namespace all enc _ (final_world store namespace enc w1)
            (view-put w1 _ enc _) decoded,
      )
