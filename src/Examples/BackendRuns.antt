-- ===== src/Examples/BackendRuns.antt =====
-- Examples for the back ends of artifacts: a service whose state is the map of its objects, and a file
-- system without links that holds one file.
use gox_browser.Errors.{Error, Result, err, ok, plain}
use gox_browser.Artifact.S3.Refined.{IsWorking, s3_refines, s3_view, s3_storer-IsStorer}
use gox_browser.Prelude.{
  List, Option, [], ap, false, if◌then◌else◌, none, refl, some, true, ℕ, ◌∷◌, ◌≡◌, ◌+◌, ◌⊎◌,
}
use gox_browser.Artifact.S3.{S3, S3Store, s3_storer, new_s3_store}
use gox_browser.Artifact.Stores.Runs.{
  StoreCall, exists_call, get_call, put_call, run_map, run_store,
}
use gox_browser.Stream.{Stream}
use gox_browser.Prelude.Text.{Text, codes, eq_text, eq_text_refl, has_prefix, trim_space}
use gox_browser.Artifact.Stores.{found, present, stored, updated, missing}
use gox_browser.Artifact.Directory.{
  ArtifactEntry, Index, Tools, dir_get, dir_put, entry_for, finalize, find_entry, index_of,
  load_index,
}
use gox_browser.Artifact.Local.Confined.{Extends, IsPlain, local_confined}
use gox_browser.Artifact.Local.{
  Files, local_get, local_put, resolved_base, write_at, is_below, join_paths,
}
use gox_browser.Artifact.{
  build_key, clean, clean_from, clean_ref, detect_content_type, extension_from, join, segments_of,
  split_path, type_of_extension, up_names,
}
use gox_browser.Artifact.Directory.Roundtrip.{dir_roundtrip, final_world, put_world, valid_dir}
use gox_browser.Artifact.Directory.Overwritten.{put_twice}
use gox_browser.Prelude.Strings.{has_suffix}

abbrev Objects : Type 0
Objects = Text → Text → Option (List ℕ)

abbrev no_such_key : Error
no_such_key = plain (codes "NoSuchKey")

abbrev put_in : Objects → Text → Text → List ℕ → Objects
put_in w bucket key bytes b k = if eq_text b bucket then updated (w b) key bytes k else w b k

abbrev object_of : Option (List ℕ) → Result Stream
object_of none = err no_such_key
object_of (some bytes) = ok (record { bytes = bytes; broken = none })

abbrev head_of : Option (List ℕ) → Option Error
head_of none = some no_such_key
head_of (some bytes) = none

abbrev test_s3 : S3 Objects
test_s3 = record {
  quote = λ s. s;
  is_no_such_key = λ e. true;
  is_not_found = λ e. true;
  error_code = λ e. none;
  put_object = λ w limit bucket key bytes kind. (put_in w bucket key bytes, none);
  upload = λ w limit bucket key stream kind. (put_in w bucket key stream.bytes, stream.bytes, none);
  get_object = λ w limit bucket key. (w, object_of (w bucket key));
  head_object = λ w limit bucket key. (w, head_of (w bucket key));
  presign_get = λ w bucket key ttl. (w, ok key);
}

test_s3-IsWorking : IsWorking test_s3 (λ w. w)
test_s3-IsWorking = record {
  put_works = λ w bucket key bytes kind. refl;
  put_objects = λ w bucket key bytes kind k. rw (eq_text_refl bucket) refl;
  get_works = λ w bucket key bytes h. ap object_of h;
  get_fails = λ w bucket key h. (no_such_key, ap object_of h, refl);
  get_objects = λ w bucket key k. refl;
  head_works = λ w bucket key bytes h. ap head_of h;
  head_fails = λ w bucket key h. (no_such_key, ap head_of h, refl);
  head_objects = λ w bucket key k. refl;
}

abbrev runs_store : S3Store
runs_store = record { bucket = codes "b"; prefix = codes "p/" }

abbrev no_objects : Objects
no_objects b k = none

abbrev some_calls : List StoreCall
some_calls =
    get_call (codes "k")
    ∷ put_call (codes "k") (1 ∷ 2 ∷ []) (codes "text/plain")
    ∷ get_call (codes "k")
    ∷ exists_call (codes "l")
    ∷ []

s3_refines_example :
    run_store (s3_storer test_s3 runs_store) some_calls no_objects
    ≡ run_map some_calls (s3_view test_s3 runs_store (λ w. w) test_s3-IsWorking no_objects)
s3_refines_example = s3_refines test_s3 runs_store (λ w. w) test_s3-IsWorking some_calls no_objects

calls_answered :
    run_map some_calls (λ k. none) ≡ missing ∷ stored ∷ found (1 ∷ 2 ∷ []) ∷ present false ∷ []
unfolding run_map eq_text
calls_answered = refl

-- The directory over that service.
abbrev report_entry : ArtifactEntry
report_entry = record {
  ref = codes "a.txt";
  content_type = codes "text/plain";
  size = 2;
  checksum = codes "sha256:00";
  tags = none;
}

abbrev report_index : Index
report_index = record {
  version = codes "v1";
  namespace = codes "runs";
  generated_at = 5;
  artifacts = report_entry ∷ [];
  stats = record { count = 1; total_size = 2 };
}

abbrev report_tools : Tools Objects
report_tools = record {
  quote = λ s. s;
  lower = λ c. c;
  sha256 = λ bytes. codes "00";
  unix_time = λ w. 5;
  marshal_index = λ index. ok (7 ∷ []);
  unmarshal_index = λ bytes. ok report_index;
}

report_cleaned : clean_ref (λ s. s) (codes "./a.txt") ≡ ok (codes "a.txt")
unfolding clean_ref clean join split_path clean_from up_names eq_text has_prefix
report_cleaned = refl

keys_apart :
    eq_text
      (build_key (codes "runs" ∷ codes "a.txt" ∷ []))
      (build_key (codes "runs" ∷ codes "index.json" ∷ []))
    ≡ false
unfolding build_key segments_of trim_space join eq_text
keys_apart = refl

report_indexed :
    report_index
    ≡ index_of (s3_storer test_s3 runs_store) report_tools no_objects (
        valid_dir (codes "runs") (
          entry_for (s3_storer test_s3 runs_store) report_tools (codes "a.txt") (1 ∷ 2 ∷ []) none
          ∷ []))
unfolding detect_content_type extension_from type_of_extension eq_text
report_indexed = refl

dir_roundtrip_example :
    let store = s3_storer test_s3 runs_store in
    let w1 = put_world store report_tools (codes "runs") (codes "a.txt") (1 ∷ 2 ∷ []) no_objects in
    let w2 = final_world store (codes "runs") (7 ∷ []) w1 in
    let e = entry_for store report_tools (codes "a.txt") (1 ∷ 2 ∷ []) none in
    let d = valid_dir (codes "runs") (e ∷ []) in
    (dir_put store report_tools
        (codes "./a.txt")
        (1 ∷ 2 ∷ [])
        none
        no_objects
        (valid_dir (codes "runs") [])
      ≡ (w1, d, none))
    × (finalize store report_tools w1 d ≡ (w2, none))
    × ((dir_get store report_tools (codes "./a.txt") w2 d).1 ≡ ok (1 ∷ 2 ∷ []))
    × ((load_index store report_tools w2 d).1 ≡ ok (index_of store report_tools w1 d))
dir_roundtrip_example =
    dir_roundtrip (s3_storer test_s3 runs_store) report_tools
      (s3_view test_s3 runs_store (λ w. w) test_s3-IsWorking)
      (s3_storer-IsStorer test_s3 runs_store (λ w. w) test_s3-IsWorking) (codes "runs")
      (codes "./a.txt") (codes "a.txt") [] (1 ∷ 2 ∷ []) (7 ∷ []) none no_objects report_cleaned
      keys_apart refl (ap ok report_indexed)

put_twice_example :
    let store = s3_storer test_s3 runs_store in
    let one =
      dir_put store report_tools
        (codes "./a.txt")
        (1 ∷ [])
        none
        no_objects
        (valid_dir (codes "runs") []) in
    let two = dir_put store report_tools (codes "./a.txt") (1 ∷ 2 ∷ []) none one.0 one.1 in
    ((dir_get store report_tools (codes "./a.txt") two.0 two.1).1 ≡ ok (1 ∷ 2 ∷ []))
    × (find_entry (codes "a.txt") two.1.entries
        ≡ some (entry_for store report_tools (codes "a.txt") (1 ∷ []) none))
unfolding find_entry
put_twice_example =
    put_twice (s3_storer test_s3 runs_store) report_tools
      (s3_view test_s3 runs_store (λ w. w) test_s3-IsWorking)
      (s3_storer-IsStorer test_s3 runs_store (λ w. w) test_s3-IsWorking) (codes "runs")
      (codes "./a.txt") (codes "a.txt") [] (1 ∷ []) (1 ∷ 2 ∷ []) none no_objects report_cleaned refl

abbrev test_files : Files ℕ
test_files = record {
  quote = λ s. s;
  is_not_exist = λ e. false;
  abs = λ w path. ok (codes "/srv");
  eval_symlinks = λ w path. ok path;
  dir_of = λ path. codes "/srv";
  mkdir_all = λ w path. (w, none);
  write_file = λ w path bytes. (w + 1, none);
  create_file = λ w path. (w, none);
  copy_to = λ w path stream. (w + 1, stream.bytes, none);
  read_file = λ w path. ok (4 ∷ []);
  open_file = λ w path. ok (record { bytes = 4 ∷ []; broken = none });
  stat = λ w path. none;
}

local_confined_example :
    let path_of = local_put test_files (codes "srv") 0 (codes "a/x") (1 ∷ []) [] in
    (((e : Error) × (path_of ≡ (0, some e)))
      ⊎ ((path : Text) × IsPlain path
          × Extends (codes "/srv") path
          × (path_of ≡ write_at test_files (codes "srv") (codes "a/x") path (1 ∷ []) 0)))
    × (((e : Error) × (local_get test_files (codes "srv") 0 (codes "a/x") ≡ (0, err e)))
        ⊎ ((path : Text) × (content : List ℕ) × Extends
              (resolved_base test_files (codes "srv") 0 (codes "/srv"))
              path
            × (test_files.read_file 0 path ≡ ok content)
            × (local_get test_files (codes "srv") 0 (codes "a/x") ≡ (0, ok content))))
local_confined_example =
    local_confined test_files (codes "srv") 0 (codes "a/x") (codes "/srv") [] (1 ∷ []) refl

links_joined : join_paths (codes "/srv/a") (codes "../x/./y") ≡ codes "/srv/x/y"
unfolding join_paths clean_from split_path join eq_text
links_joined = refl

sibling_refused : is_below (codes "/srv/a") (codes "/srv/ab") ≡ false
unfolding is_below eq_text has_prefix
sibling_refused = refl

prefix_ended :
    new_s3_store (record {
      endpoint = [];
      bucket = codes "b";
      region = [];
      access_key = [];
      secret_key = [];
      prefix = codes "p";
    })
    ≡ runs_store
unfolding new_s3_store eq_text has_suffix has_prefix
prefix_ended = refl
