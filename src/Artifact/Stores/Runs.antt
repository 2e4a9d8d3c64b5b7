-- ===== src/Artifact/Stores/Runs.antt =====
-- Runs of calls on a back end (the interface `Storer` of artifact/artifact.go), and on the map that
-- it stands for.
use mathlib.Core.Path.{fun_ext}
use gox_browser.Artifact.Stores.{
  Answer, IsStorer, View, exists_answer, get_answer, is_present, lookup_answer, present, put_answer,
  stored, updated,
}
use gox_browser.Prelude.{List, Option, [], refl, ℕ, ◌∷◌, ◌≡◌}
use gox_browser.Artifact.Directory.{Storer}
use gox_browser.Prelude.Text.{Text}
use gox_browser.Driver.{after}

pub data StoreCall : Type 0 where
  put_call : Text → List ℕ → Text → StoreCall
  get_call : Text → StoreCall
  exists_call : Text → StoreCall

module _ {W : Type 0} (store : Storer W) where
  abbrev pub call_store : StoreCall → W → W × Answer
  call_store (put_call key bytes kind) w =
      let (w1, e) = store.put w key bytes kind in (w1, put_answer e)
  call_store (get_call key) w = let (w1, r) = store.get w key in (w1, get_answer r)
  call_store (exists_call key) w = let (w1, r) = store.exists w key in (w1, exists_answer r)

  -- The answers to the calls, one after the other.
  unfoldable pub run_store : List StoreCall → W → List Answer
  run_store [] w = []
  run_store (c ∷ calls) w = let (w1, a) = call_store c w in a ∷ run_store calls w1

abbrev pub call_map : StoreCall → (Text → Option (List ℕ)) → (Text → Option (List ℕ)) × Answer
call_map (put_call key bytes kind) m = (updated m key bytes, stored)
call_map (get_call key) m = (m, lookup_answer (m key))
call_map (exists_call key) m = (m, present (is_present (m key)))

unfoldable pub run_map : List StoreCall → (Text → Option (List ℕ)) → List Answer
run_map [] m = []
run_map (c ∷ calls) m = let (m1, a) = call_map c m in a ∷ run_map calls m1

module _ {W : Type 0} (store : Storer W) (view : View W) (lawful : IsStorer store view) where
  -- Maps that agree at every key are one map.
  call-agrees :
      (c : StoreCall) (w : W)
      → ((call_store store c w).1 ≡ (call_map c (view w)).1)
        × ((k : Text) → view (call_store store c w).0 k ≡ (call_map c (view w)).0 k)
  call-agrees (put_call key bytes kind) w =
      (lawful.puts w key bytes kind, lawful.put_view w key bytes kind)
  call-agrees (get_call key) w = (lawful.gets w key, lawful.get_view w key)
  call-agrees (exists_call key) w = (lawful.finds w key, lawful.exists_view w key)

  pub run_store-refines :
      (calls : List StoreCall) (w : W) → run_store store calls w ≡ run_map calls (view w)
  unfolding run_store run_map
  run_store-refines [] w = refl
  run_store-refines (c ∷ calls) w =
      let (answer, after) = call-agrees c w in
      rw (answer, run_store-refines calls (call_store store c w).0, fun_ext after) refl
