-- ===== src/Examples/StoreRuns.antt =====
-- Examples for the artifacts: a back end that keeps nothing, and counts its calls.
use gox_browser.Prelude.{◌+◌, [], false, none, refl, some, ℕ, ◌∷◌, ◌≡◌}
use gox_browser.Prelude.Text.{codes, trim_space, eq_text, has_prefix}
use gox_browser.Errors.{err, ok, plain, wrap}
use gox_browser.Artifact.Refs.{IsInside, build_key_space, clean_ref-IsInside}
use gox_browser.Artifact.Directory.{
  Storer, Tools, dir_exists, dir_get, dir_put, finalize, load_index, open_dir, dir_put_reader,
  dir_reader, dir_sign_url,
}
use gox_browser.Artifact.{
  build_key, clean, clean_from, clean_ref, join, segments_of, split_path, up_names,
}
use gox_browser.Artifact.Directory.Refused.{refused_dir}
use gox_browser.Stream.{Stream}
use gox_browser.Prelude.Int.{pos}

abbrev empty_store : Storer ℕ
empty_store = record {
  put = λ w key bytes kind. (w + 1, none);
  get = λ w key. (w + 1, err (plain (codes "artifact: not found")));
  exists = λ w key. (w + 1, ok false);
  put_reader = λ w key stream kind. (w + 1, stream.bytes, none);
  reader = λ w key. (w + 1, err (plain (codes "artifact: not found")));
  sign_url = λ w key ttl. (w + 1, err (plain (codes "artifact: not found")));
}

abbrev test_stream : Stream
test_stream = record { bytes = 1 ∷ 2 ∷ []; broken = none }

abbrev test_tools : Tools ℕ
test_tools = record {
  quote = λ s. s;
  lower = λ c. c;
  sha256 = λ bytes. codes "00";
  unix_time = λ w. w;
  marshal_index = λ index. ok [];
  unmarshal_index = λ bytes. err (plain (codes "unexpected end of JSON input"));
}

clean_ref-IsInside_example : IsInside (codes "b/c.png")
unfolding clean_ref clean join split_path clean_from up_names eq_text has_prefix
clean_ref-IsInside_example =
    clean_ref-IsInside (λ s. s) (codes "./a/..//b/c.png") (codes "b/c.png") refl

spaced_keys_agree :
    build_key (codes "runs" ∷ codes " ../x" ∷ []) ≡ build_key (codes "runs" ∷ codes "../x" ∷ [])
spaced_keys_agree = build_key_space (codes "runs") (codes "../x")

-- The reference of that example is accepted, and its key leaves the namespace.
spaced_ref_accepted : clean_ref (λ s. s) (codes " ../x") ≡ ok (codes " ../x")
unfolding clean_ref clean join split_path clean_from up_names eq_text has_prefix
spaced_ref_accepted = refl

spaced_key : build_key (codes "runs" ∷ codes " ../x" ∷ []) ≡ codes "runs/../x"
unfolding build_key segments_of trim_space join
spaced_key = refl

refused_dir_example :
    let d = open_dir empty_store test_tools (codes "../x") in
    let refusal =
      wrap
        (codes "artifact: invalid namespace ../x")
        (plain (codes "artifact: ref escapes namespace: ../x")) in
    (dir_put empty_store test_tools (codes "a") (1 ∷ []) none 5 d ≡ (5, d, some refusal))
    × (dir_get empty_store test_tools (codes "a") 5 d ≡ (5, err refusal))
    × (dir_exists empty_store test_tools (codes "a") 5 d ≡ (5, err refusal))
    × (finalize empty_store test_tools 5 d ≡ (5, some refusal))
    × (load_index empty_store test_tools 5 d ≡ (5, err refusal))
    × (dir_put_reader empty_store test_tools (codes "a") test_stream none 5 d
        ≡ (5, d, some refusal))
    × (dir_reader empty_store test_tools (codes "a") 5 d ≡ (5, err refusal))
    × (dir_sign_url empty_store test_tools (codes "a") (pos 60) 5 d ≡ (5, err refusal))
unfolding clean_ref clean join split_path clean_from up_names eq_text has_prefix
refused_dir_example =
    refused_dir empty_store test_tools (codes "../x") (codes "a")
      (plain (codes "artifact: ref escapes namespace: ../x")) (1 ∷ []) none test_stream (pos 60) 5
      refl
