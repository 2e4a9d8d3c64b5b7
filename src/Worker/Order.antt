-- ===== src/Worker/Order.antt =====
-- Which task a result belongs to (browser/worker.go).
pub mod Batches
pub mod Over
use mathlib.Core.List.{Memᴰ}
use gox_browser.Prelude.{
  ◌++◌, ◌<◌, ◌==◌, ==_iff, Bool-cases, List, [], ap, arith, get_elem?, inl, inr, length, refl, some,
  subst, suc, zero, ℕ, ◌∙◌, ◌∷◌, ◌≡◌, ◌≢◌, ◌⊎◌,
}
use gox_browser.Worker.{Task, TaskResult, set_at}

module _ {ℓ} {A : Type ℓ} where
  pub Memᴰ-removed :
      (x y : A) (pre post : List A) → Memᴰ x (pre ++ y ∷ post) → (x ≡ y) ⊎ Memᴰ x (pre ++ post)
  Memᴰ-removed x y [] post (Memᴰ.head e) = inl e
  Memᴰ-removed x y [] post (Memᴰ.tail m) = inr m
  Memᴰ-removed x y (z ∷ pre) post (Memᴰ.head e) = inr (Memᴰ.head e)
  Memᴰ-removed x y (z ∷ pre) post (Memᴰ.tail m) = elim (Memᴰ-removed x y pre post m) [
    | inl e ↦ inl e
    | inr k ↦ inr (Memᴰ.tail k)
  ]

  pub Memᴰ-middle : (x : A) (pre post : List A) → Memᴰ x (pre ++ x ∷ post)
  Memᴰ-middle x [] post = Memᴰ.head refl
  Memᴰ-middle x (z ∷ pre) post = Memᴰ.tail (Memᴰ-middle x pre post)

  pub Memᴰ-kept : (x y : A) (pre post : List A) → Memᴰ x (pre ++ post) → Memᴰ x (pre ++ y ∷ post)
  Memᴰ-kept x y [] post m = Memᴰ.tail m
  Memᴰ-kept x y (z ∷ pre) post (Memᴰ.head e) = Memᴰ.head e
  Memᴰ-kept x y (z ∷ pre) post (Memᴰ.tail m) = Memᴰ.tail (Memᴰ-kept x y pre post m)

-- The result of the task `t` stands at the index `i`.
abbrev pub IsDone : List TaskResult → ℕ → Task → Type 0
IsDone results i t = (r : TaskResult) × (get_elem? results i ≡ some r) × (r.url ≡ t.url)

pub set_at-same :
    (i : ℕ) (r : TaskResult) (results : List TaskResult)
    → i < length results
    → get_elem? (set_at i r results) i ≡ some r
set_at-same i r [] h = absurd (omega arith)
set_at-same zero r (x ∷ results) h = refl
set_at-same (suc i) r (x ∷ results) h = set_at-same i r results (omega arith)

pub set_at-other :
    (i j : ℕ) (r : TaskResult) (results : List TaskResult)
    → i ≢ j
    → get_elem? (set_at i r results) j ≡ get_elem? results j
set_at-other i j r [] h = refl
set_at-other zero zero r (x ∷ results) h = absurd (h refl)
set_at-other zero (suc j) r (x ∷ results) h = refl
set_at-other (suc i) zero r (x ∷ results) h = refl
set_at-other (suc i) (suc j) r (x ∷ results) h = set_at-other i j r results (λ e. h (ap suc e))

pub length-set_at :
    (i : ℕ) (r : TaskResult) (results : List TaskResult)
    → length (set_at i r results) ≡ length results
length-set_at i r [] = refl
length-set_at zero r (x ∷ results) = refl
length-set_at (suc i) r (x ∷ results) = ap suc (length-set_at i r results)

-- Writing the result of a task at its index makes it done, and undoes no other.
pub set_at-IsDone :
    (tasks : List Task) (i j : ℕ) (t v : Task) (r : TaskResult) (results : List TaskResult)
    → get_elem? tasks i ≡ some t
    → get_elem? tasks j ≡ some v
    → length results ≡ length tasks
    → i < length tasks
    → r.url ≡ t.url
    → (IsDone results j v ⊎ (i ≡ j))
    → IsDone (set_at i r results) j v
set_at-IsDone tasks i j t v r results g k l b u (inr e) =
    let here_at = set_at-same i r results (omega arith) in
    (r, subst (λ n. get_elem? (set_at i r results) n ≡ some r) e here_at, cc (e, g, k, u))
set_at-IsDone tasks i j t v r results g k l b u (inl (x, at_j, url_eq)) =
    elim (Bool-cases (i == j)) [
      | inl same ↦
          let e = (==_iff i j).0 same in
          let at_i = set_at-same i r results (omega arith) in
          (r, subst (λ n. get_elem? (set_at i r results) n ≡ some r) e at_i, cc (e, g, k, u))
      | inr other ↦ (x, set_at-other i j r results (λ e. ground (arith, other, e)) ∙ at_j, url_eq)
    ]
