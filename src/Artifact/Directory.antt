-- ===== src/Artifact/Directory.antt =====
-- artifact/dir.go and artifact/index.go: the directory of a namespace over a storage back end, and its
-- index. The back end, JSON and the hash are arguments. A stream that is put gives back the bytes that
-- the back end took from it.
pub mod Refused
pub mod Roundtrip
pub mod Overwritten
use gox_browser.Prelude.{
  ◌+◌, ◌++◌, Bool, List, Option, [], if◌then◌else◌, length, none, some, ℕ, ◌∷◌,
}
use gox_browser.Errors.{Error, Result, err, ok, wrap}
use gox_browser.Prelude.Text.{Text, codes, eq_text}
use gox_browser.Artifact.{build_key, clean_ref, detect_content_type}
use gox_browser.Stream.{Stream}
use gox_browser.Prelude.Int.{ℤ}

pub record Storer (W : Type 0) : Type 0 where
  pub put : W → Text → List ℕ → Text → W × Option Error
  pub get : W → Text → W × Result (List ℕ)
  pub exists : W → Text → W × Result Bool
  pub put_reader : W → Text → Stream → Text → W × List ℕ × Option Error
  pub reader : W → Text → W × Result Stream
  pub sign_url : W → Text → ℤ → W × Result Text

-- An entry of the index; the tags are pairs, `none` is the nil map, and `size` counts bytes.
pub record ArtifactEntry : Type 0 where
  pub ref : Text
  pub content_type : Text
  pub size : ℕ
  pub checksum : Text
  pub tags : Option (List (Text × Text))

pub record IndexStats : Type 0 where
  pub count : ℕ
  pub total_size : ℕ

pub record Index : Type 0 where
  pub version : Text
  pub namespace : Text
  pub generated_at : ℕ
  pub artifacts : List ArtifactEntry
  pub stats : IndexStats

unfoldable pub find_entry : Text → List ArtifactEntry → Option ArtifactEntry
find_entry ref [] = none
find_entry ref (e ∷ entries) = if eq_text e.ref ref then some e else find_entry ref entries

unfoldable pub refs : List ArtifactEntry → List Text
refs [] = []
refs (e ∷ entries) = e.ref ∷ refs entries

abbrev pub tag : Text → List (Text × Text) → Text
tag k [] = []
tag k ((x, v) ∷ tags) = if eq_text x k then v else tag k tags

abbrev pub tag_of : ArtifactEntry → Text → Text
tag_of e k = elim e.tags [ none ↦ [] | some tags ↦ tag k tags ]

unfoldable pub by_kind : Text → List ArtifactEntry → List ArtifactEntry
by_kind kind [] = []
by_kind kind (e ∷ entries) =
    let rest = by_kind kind entries in
    if eq_text (tag_of e (codes "kind")) kind then e ∷ rest else rest

-- `Dir`; `invalid` is the error of a namespace that is refused.
pub record Dir : Type 0 where
  pub namespace : Text
  pub invalid : Option Error
  pub entries : List ArtifactEntry

-- What a directory calls beside its back end.
pub record Tools (W : Type 0) : Type 0 where
  pub quote : Text → Text
  pub lower : ℕ → ℕ
  pub sha256 : List ℕ → Text
  pub unix_time : W → ℕ
  pub marshal_index : Index → Result (List ℕ)
  pub unmarshal_index : List ℕ → Result Index

abbrev pub sizes : List ArtifactEntry → ℕ
sizes [] = 0
sizes (e ∷ entries) = e.size + sizes entries

module _ {W : Type 0} (store : Storer W) (tools : Tools W) where
  -- `Store.Dir`.
  unfoldable pub open_dir : Text → Dir
  open_dir namespace = elim (clean_ref tools.quote namespace) [
    | ok cleaned ↦ record { namespace = cleaned; invalid = none; entries = [] }
    | err e ↦ record {
      namespace = namespace;
      invalid = some (wrap (codes "artifact: invalid namespace " ++ tools.quote namespace) e);
      entries = [];
    }
  ]

  abbrev pub dir_key : Dir → Text → Text
  dir_key d ref = build_key (d.namespace ∷ ref ∷ [])

  -- The reference that an operation works on.
  abbrev pub admitted : Dir → Text → Result Text
  admitted d ref = elim d.invalid [ some e ↦ err e | none ↦ clean_ref tools.quote ref ]

  -- The entry of the artifact `bytes` under the reference `r`.
  abbrev pub entry_for : Text → List ℕ → Option (List (Text × Text)) → ArtifactEntry
  entry_for r bytes tags = record {
    ref = r;
    content_type = detect_content_type tools.lower r;
    size = length bytes;
    checksum = codes "sha256:" ++ tools.sha256 bytes;
    tags = tags;
  }

  abbrev pub record_entry : ArtifactEntry → Dir → Dir
  record_entry e d = record d { entries = d.entries ++ e ∷ [] }

  -- `Put` of a reference that is cleaned.
  abbrev pub put_at : Text → List ℕ → Option (List (Text × Text)) → W → Dir → W × Dir × Option Error
  put_at r bytes tags w d =
      let (w1, error) = store.put w (dir_key d r) bytes (detect_content_type tools.lower r) in
      elim error [
        | some e ↦ (w1, d, some e)
        | none ↦ (w1, record_entry (entry_for r bytes tags) d, none)
      ]

  unfoldable pub dir_put :
      Text → List ℕ → Option (List (Text × Text)) → W → Dir → W × Dir × Option Error
  dir_put ref bytes tags w d = elim (admitted d ref) [
    | err e ↦ (w, d, some e)
    | ok r ↦ put_at r bytes tags w d
  ]

  abbrev pub put_reader_at :
      Text → Stream → Option (List (Text × Text)) → W → Dir → W × Dir × Option Error
  put_reader_at r stream tags w d =
      let (w1, bytes, error) =
        store.put_reader w (dir_key d r) stream (detect_content_type tools.lower r) in
      elim error [
        | some e ↦ (w1, d, some e)
        | none ↦ (w1, record_entry (entry_for r bytes tags) d, none)
      ]

  unfoldable pub dir_put_reader :
      Text → Stream → Option (List (Text × Text)) → W → Dir → W × Dir × Option Error
  dir_put_reader ref stream tags w d = elim (admitted d ref) [
    | err e ↦ (w, d, some e)
    | ok r ↦ put_reader_at r stream tags w d
  ]

  unfoldable pub dir_reader : Text → W → Dir → W × Result Stream
  dir_reader ref w d = elim (admitted d ref) [
    | err e ↦ (w, err e)
    | ok r ↦ store.reader w (dir_key d r)
  ]

  unfoldable pub dir_sign_url : Text → ℤ → W → Dir → W × Result Text
  dir_sign_url ref ttl w d = elim (admitted d ref) [
    | err e ↦ (w, err e)
    | ok r ↦ store.sign_url w (dir_key d r) ttl
  ]

  unfoldable pub dir_get : Text → W → Dir → W × Result (List ℕ)
  dir_get ref w d = elim (admitted d ref) [ err e ↦ (w, err e) | ok r ↦ store.get w (dir_key d r) ]

  unfoldable pub dir_exists : Text → W → Dir → W × Result Bool
  dir_exists ref w d = elim (admitted d ref) [
    | err e ↦ (w, err e)
    | ok r ↦ store.exists w (dir_key d r)
  ]

  -- The index that `Finalize` writes.
  abbrev pub index_of : W → Dir → Index
  index_of w d = record {
    version = codes "v1";
    namespace = d.namespace;
    generated_at = tools.unix_time w;
    artifacts = d.entries;
    stats = record { count = length d.entries; total_size = sizes d.entries };
  }

  unfoldable pub finalize : W → Dir → W × Option Error
  finalize w d = elim d.invalid [
    | some e ↦ (w, some e)
    | none ↦ elim (tools.marshal_index (index_of w d)) [
      | err e ↦ (w, some (wrap (codes "artifact: marshal index") e))
      | ok bytes ↦ store.put w (dir_key d (codes "index.json")) bytes (codes "application/json")
    ]
  ]

  unfoldable pub load_index : W → Dir → W × Result Index
  load_index w d = elim d.invalid [
    | some e ↦ (w, err e)
    | none ↦
        let got = store.get w (dir_key d (codes "index.json")) in
        elim got.1 [
          | err e ↦ (got.0, err e)
          | ok bytes ↦ elim (tools.unmarshal_index bytes) [
            | ok index ↦ (got.0, ok index)
            | err e ↦ (got.0, err (wrap (codes "artifact: unmarshal index") e))
          ]
        ]
  ]
