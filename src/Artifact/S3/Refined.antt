-- ===== src/Artifact/S3/Refined.antt =====
-- The back end of artifact/s3.go keeps the contract of a back end, over a service that works.
use gox_browser.Prelude.{
  ◌++◌, ==_refl, List, Option, Option-cases, [], inl, inr, none, or_true, refl, some, true, ℕ, ◌∙◌,
  ◌∷◌, ◌≡◌,
}
use gox_browser.Errors.{Error, err, is, ok}
use gox_browser.Artifact.Stores.{
  IsStorer, View, exists_answer, get_answer, is_present, lookup_answer, present, put_answer, stored,
  updated,
}
use gox_browser.Artifact.S3.{
  S3, S3Store, full_key, is_s3_not_found, s3_exists, s3_get, s3_put, s3_storer, s3_timeout,
}
use gox_browser.Artifact.Stores.Runs.{StoreCall, run_map, run_store, run_store-refines}
use gox_browser.Prelude.Text.{Text, eq_text}
use gox_browser.Fetch.{failed}

-- The documented behaviour of the service, as long as it answers within the timeout that the
-- back end sets: objects by bucket and key, and the error of an object that is missing.
pub record IsWorking {W : Type 0} (client : S3 W) (objects : W → Text → Text → Option (List ℕ))
    : Type 0 where
  pub put_works :
      (w : W) (bucket key : Text) (bytes : List ℕ) (kind : Text)
      → (client.put_object w (some s3_timeout) bucket key bytes kind).1 ≡ none
  pub put_objects :
      (w : W) (bucket key : Text) (bytes : List ℕ) (kind k : Text)
      → objects (client.put_object w (some s3_timeout) bucket key bytes kind).0 bucket k
        ≡ updated (objects w bucket) key bytes k
  pub get_works :
      (w : W) (bucket key : Text) (bytes : List ℕ)
      → objects w bucket key ≡ some bytes
      → (client.get_object w (some s3_timeout) bucket key).1
        ≡ ok (record { bytes = bytes; broken = none })
  pub get_fails :
      (w : W) (bucket key : Text)
      → objects w bucket key ≡ none
      → (e : Error) × ((client.get_object w (some s3_timeout) bucket key).1 ≡ err e)
        × (client.is_no_such_key e ≡ true)
  pub get_objects :
      (w : W) (bucket key k : Text)
      → objects (client.get_object w (some s3_timeout) bucket key).0 bucket k ≡ objects w bucket k
  pub head_works :
      (w : W) (bucket key : Text) (bytes : List ℕ)
      → objects w bucket key ≡ some bytes
      → (client.head_object w (some s3_timeout) bucket key).1 ≡ none
  pub head_fails :
      (w : W) (bucket key : Text)
      → objects w bucket key ≡ none
      → (e : Error) × ((client.head_object w (some s3_timeout) bucket key).1 ≡ some e)
        × (client.is_not_found e ≡ true)
  pub head_objects :
      (w : W) (bucket key k : Text)
      → objects (client.head_object w (some s3_timeout) bucket key).0 bucket k ≡ objects w bucket k

module _ {W : Type 0} (client : S3 W) (s : S3Store) (objects : W → Text → Text → Option (List ℕ))
    (works : IsWorking client objects) where
  -- The objects of the bucket below the prefix.
  abbrev pub s3_view : View W
  s3_view w key = objects w s.bucket (full_key s key)

  s3_puts :
      (w : W) (key : Text) (bytes : List ℕ) (kind : Text)
      → put_answer (s3_put client s w key bytes kind).1 ≡ stored
  unfolding s3_put put_answer
  s3_puts w key bytes kind = rw (works.put_works w s.bucket (full_key s key) bytes kind) refl

  eq_text-append : (p a b : Text) → eq_text (p ++ a) (p ++ b) ≡ eq_text a b
  unfolding eq_text
  eq_text-append [] a b = refl
  eq_text-append (c ∷ p) a b = rw (==_refl c) (eq_text-append p a b)

  s3_put_view :
      (w : W) (key : Text) (bytes : List ℕ) (kind k : Text)
      → s3_view (s3_put client s w key bytes kind).0 k ≡ updated (s3_view w) key bytes k
  unfolding s3_put
  s3_put_view w key bytes kind k =
      works.put_objects w s.bucket (full_key s key) bytes kind (full_key s k)
      ∙ rw (eq_text-append s.prefix k key) refl

  s3_gets :
      (w : W) (key : Text) → get_answer (s3_get client s w key).1 ≡ lookup_answer (s3_view w key)
  unfolding s3_get get_answer is_s3_not_found is
  s3_gets w key = elim (Option-cases (s3_view w key)) [
    | inl absent ↦
        let (e, failed, known) = works.get_fails w s.bucket (full_key s key) absent in
        rw (absent, failed, known) refl
    | inr (bytes, kept) ↦ rw (kept, works.get_works w s.bucket (full_key s key) bytes kept) refl
  ]

  s3_finds :
      (w : W) (key : Text)
      → exists_answer (s3_exists client s w key).1 ≡ present (is_present (s3_view w key))
  unfolding s3_exists exists_answer is_s3_not_found
  s3_finds w key = elim (Option-cases (s3_view w key)) [
    | inl absent ↦
        let (e, failed, known) = works.head_fails w s.bucket (full_key s key) absent in
        rw (absent, failed, known, or_true (client.is_no_such_key e)) refl
    | inr (bytes, kept) ↦ rw (kept, works.head_works w s.bucket (full_key s key) bytes kept) refl
  ]

  pub s3_storer-IsStorer : IsStorer (s3_storer client s) s3_view
  unfolding s3_get s3_exists
  s3_storer-IsStorer = record {
    puts = s3_puts;
    put_view = s3_put_view;
    gets = s3_gets;
    get_view = λ w key k. works.get_objects w s.bucket (full_key s key) (full_key s k);
    finds = s3_finds;
    exists_view = λ w key k. works.head_objects w s.bucket (full_key s key) (full_key s k);
  }

  -- Over a service that works, every sequence of calls of `Put`, `Get` and `Exists` on the back end is
  -- answered as by a map from keys to bytes, the objects of the bucket below the prefix: a key that is
  -- missing is answered with `ErrNotFound`.
  pub s3_refines :
      (calls : List StoreCall) (w : W)
      → run_store (s3_storer client s) calls w ≡ run_map calls (s3_view w)
  s3_refines calls w = run_store-refines (s3_storer client s) s3_view s3_storer-IsStorer calls w
