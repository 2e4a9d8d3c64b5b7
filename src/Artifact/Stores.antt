-- ===== src/Artifact/Stores.antt =====
-- What the interface `Storer` of artifact/artifact.go promises: a back end is a map from keys to
-- bytes.
pub mod Runs
use gox_browser.Prelude.{Bool, List, Option, false, if◌then◌else◌, none, some, true, ℕ, ◌≡◌}
use gox_browser.Errors.{Error, Result, err, is, ok, artifact_not_found}
use gox_browser.Artifact.Directory.{Storer}
use gox_browser.Prelude.Text.{Text, eq_text}

-- The map that a state of the back end stands for.
abbrev pub View : Type 0 → Type 0
View W = W → Text → Option (List ℕ)

abbrev pub updated : (Text → Option (List ℕ)) → Text → List ℕ → Text → Option (List ℕ)
updated m key bytes k = if eq_text k key then some bytes else m k

-- What a caller sees of an answer: `missing` is an error in which `errors.Is` finds `ErrNotFound`.
pub data Answer : Type 0 where
  stored : Answer
  found : List ℕ → Answer
  missing : Answer
  present : Bool → Answer
  broke : Answer

unfoldable pub put_answer : Option Error → Answer
put_answer none = stored
put_answer (some e) = broke

unfoldable pub get_answer : Result (List ℕ) → Answer
get_answer (ok bytes) = found bytes
get_answer (err e) = if is e artifact_not_found then missing else broke

unfoldable pub exists_answer : Result Bool → Answer
exists_answer (ok b) = present b
exists_answer (err e) = broke

abbrev pub lookup_answer : Option (List ℕ) → Answer
lookup_answer none = missing
lookup_answer (some bytes) = found bytes

abbrev pub is_present : Option (List ℕ) → Bool
is_present none = false
is_present (some bytes) = true

-- The contract of a back end that works.
pub record IsStorer {W : Type 0} (store : Storer W) (view : View W) : Type 0 where
  pub puts :
      (w : W) (key : Text) (bytes : List ℕ) (kind : Text)
      → put_answer (store.put w key bytes kind).1 ≡ stored
  pub put_view :
      (w : W) (key : Text) (bytes : List ℕ) (kind : Text) (k : Text)
      → view (store.put w key bytes kind).0 k ≡ updated (view w) key bytes k
  pub gets : (w : W) (key : Text) → get_answer (store.get w key).1 ≡ lookup_answer (view w key)
  pub get_view : (w : W) (key : Text) (k : Text) → view (store.get w key).0 k ≡ view w k
  pub finds :
      (w : W) (key : Text)
      → exists_answer (store.exists w key).1 ≡ present (is_present (view w key))
  pub exists_view : (w : W) (key : Text) (k : Text) → view (store.exists w key).0 k ≡ view w k
