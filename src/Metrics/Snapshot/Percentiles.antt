-- ===== src/Metrics/Snapshot/Percentiles.antt =====
-- What the percentiles of a snapshot are (browser/metrics.go).
use mathlib.Core.List.{Memᴰ}
use gox_browser.Prelude.{
  ◌<◌, All, Bool-cases, List, [], ap, arith, get_elem?, inl, inr, leb, leb→le, length, none, refl,
  some, suc, zero, ℕ, ◌∙◌, ◌∷◌, ◌≡◌, ◌≤◌, ◌*◌, ◌-◌, ◌/◌,
}
use gox_browser.Metrics.Snapshot.{insert_sorted, sort, percentile, snapshot}
use gox_browser.Metrics.{Metrics}

abbrev pub IsSorted : List ℕ → Type 0
IsSorted [] = Unit
IsSorted (x ∷ xs) = All (λ y. x ≤ y) xs × IsSorted xs

All-le : (a b : ℕ) (xs : List ℕ) → a ≤ b → All (λ y. b ≤ y) xs → All (λ y. a ≤ y) xs
All-le a b [] h all = tt
All-le a b (x ∷ xs) h (first, all) = (omega arith, All-le a b xs h all)

insert_sorted-All :
    (a d : ℕ) (xs : List ℕ) → a ≤ d → All (λ y. a ≤ y) xs → All (λ y. a ≤ y) (insert_sorted d xs)
unfolding insert_sorted
insert_sorted-All a d [] h all = (h, tt)
insert_sorted-All a d (x ∷ xs) h (first, all) = elim (Bool-cases (leb d x)) [
  | inl before ↦ rw before (h, (first, all))
  | inr after ↦ rw after (first, insert_sorted-All a d xs h all)
]

insert_sorted-IsSorted : (d : ℕ) (xs : List ℕ) → IsSorted xs → IsSorted (insert_sorted d xs)
unfolding insert_sorted
insert_sorted-IsSorted d [] s = (tt, tt)
insert_sorted-IsSorted d (x ∷ xs) (all, s) = elim (Bool-cases (leb d x)) [
  | inl before ↦ let le = leb→le d x before in rw before ((le, All-le d x xs le all), (all, s))
  | inr after ↦
      rw after (insert_sorted-All x d xs (ground (arith, after)) all, insert_sorted-IsSorted d xs s)
]

sort-IsSorted : (xs : List ℕ) → IsSorted (sort xs)
unfolding sort
sort-IsSorted [] = tt
sort-IsSorted (x ∷ xs) = insert_sorted-IsSorted x (sort xs) (sort-IsSorted xs)

swapped :
    (d x e : ℕ) (xs ys : List ℕ)
    → (Memᴰ e ys → Memᴰ e (d ∷ xs))
    → Memᴰ e (x ∷ ys)
    → Memᴰ e (d ∷ x ∷ xs)
swapped d x e xs ys f (Memᴰ.head q) = Memᴰ.tail (Memᴰ.head q)
swapped d x e xs ys f (Memᴰ.tail k) = elim (f k) [
  | Memᴰ.head q ↦ Memᴰ.head q
  | Memᴰ.tail l ↦ Memᴰ.tail (Memᴰ.tail l)
]

insert_sorted-Mem : (d e : ℕ) (xs : List ℕ) → Memᴰ e (insert_sorted d xs) → Memᴰ e (d ∷ xs)
unfolding insert_sorted
insert_sorted-Mem d e [] m = m
insert_sorted-Mem d e (x ∷ xs) m =
    let ih = insert_sorted-Mem d e xs in
    elim (Bool-cases (leb d x)) [
      | inl before ↦ rw before at m
      | inr after ↦ swapped d x e xs (insert_sorted d xs) ih (rw after at m)
    ]

sort-Mem : (e : ℕ) (xs : List ℕ) → Memᴰ e (sort xs) → Memᴰ e xs
unfolding sort
sort-Mem e [] m = m
sort-Mem e (x ∷ xs) m = elim (insert_sorted-Mem x e (sort xs) m) [
  | Memᴰ.head q ↦ Memᴰ.head q
  | Memᴰ.tail k ↦ Memᴰ.tail (sort-Mem e xs k)
]

insert_sorted-length : (d : ℕ) (xs : List ℕ) → length (insert_sorted d xs) ≡ suc (length xs)
unfolding insert_sorted
insert_sorted-length d [] = refl
insert_sorted-length d (x ∷ xs) = elim (Bool-cases (leb d x)) [
  | inl before ↦ rw before refl
  | inr after ↦ rw after (ap suc (insert_sorted-length d xs))
]

sort-length : (xs : List ℕ) → length (sort xs) ≡ length xs
unfolding sort
sort-length [] = refl
sort-length (x ∷ xs) = insert_sorted-length x (sort xs) ∙ ap suc (sort-length xs)

-- The sample at an index, as `percentile` reads it.
abbrev sample_at : List ℕ → ℕ → ℕ
sample_at xs i = elim (get_elem? xs i) [ none ↦ 0 | some d ↦ d ]

sample_at-Mem : (xs : List ℕ) (i : ℕ) → i < length xs → Memᴰ (sample_at xs i) xs
sample_at-Mem [] i h = absurd (omega arith)
sample_at-Mem (x ∷ xs) zero h = Memᴰ.head refl
sample_at-Mem (x ∷ xs) (suc i) h = Memᴰ.tail (sample_at-Mem xs i (omega arith))

sample_at-All :
    (P : ℕ → Type 0) (xs : List ℕ) (i : ℕ) → i < length xs → All P xs → P (sample_at xs i)
sample_at-All P [] i h all = absurd (omega arith)
sample_at-All P (x ∷ xs) zero h (first, all) = first
sample_at-All P (x ∷ xs) (suc i) h (first, all) = sample_at-All P xs i (omega arith) all

sample_at-le :
    (xs : List ℕ) (i j : ℕ) → IsSorted xs → i ≤ j → j < length xs → sample_at xs i ≤ sample_at xs j
sample_at-le [] i j s h k = absurd (omega arith)
sample_at-le (x ∷ xs) zero zero s h k = omega arith
sample_at-le (x ∷ xs) zero (suc j) (all, s) h k = sample_at-All (λ y. x ≤ y) xs j (omega arith) all
sample_at-le (x ∷ xs) (suc i) zero s h k = absurd (omega arith)
sample_at-le (x ∷ xs) (suc i) (suc j) (all, s) h k =
    sample_at-le xs i j s (omega arith) (omega arith)

-- Over at least one sample the percentiles of a snapshot are samples of the window, and they are
-- ordered: the median is at most the 95th percentile, and that at most the 99th.
pub snapshot_percentiles :
    (m : Metrics)
    → 0 < length m.latencies
    → Memᴰ (snapshot m).p50_latency m.latencies
      × Memᴰ (snapshot m).p95_latency m.latencies
      × Memᴰ (snapshot m).p99_latency m.latencies
      × ((snapshot m).p50_latency ≤ (snapshot m).p95_latency)
      × ((snapshot m).p95_latency ≤ (snapshot m).p99_latency)
unfolding snapshot percentile
snapshot_percentiles m h =
    let xs = sort m.latencies in
    let same = sort-length m.latencies in
    let s = sort-IsSorted m.latencies in
    let sample : (i : ℕ) → i < length xs → Memᴰ (sample_at xs i) m.latencies =
      λ i q. sort-Mem (sample_at xs i) m.latencies (sample_at-Mem xs i q) in
    let i = (length xs - 1) * 50 / 100 in
    let j = (length xs - 1) * 95 / 100 in
    let k = (length xs - 1) * 99 / 100 in
    (
      sample i (omega (arith, same)),
      sample j (omega (arith, same)),
      sample k (omega (arith, same)),
      sample_at-le xs i j s (omega arith) (omega (arith, same)),
      sample_at-le xs j k s (omega arith) (omega (arith, same)),
    )
