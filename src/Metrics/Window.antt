-- ===== src/Metrics/Window.antt =====
-- Which samples the window of latencies holds (browser/metrics.go).
use gox_browser.Prelude.{
  ◌++◌, ◌-◌, List, [], arith, drop, length, refl, suc, zero, ℕ, ◌∷◌, ◌≡◌, ◌≤◌, ◌+◌, Bool-cases, ap,
  append-nil, append_assoc, inl, inr, leb, leb→le, length-append, sym, true, ◌∙◌,
}
use gox_browser.Metrics.{Metrics, max_latency_samples, push_latency, record_latency, new_metrics}

module _ {ℓ} {A : Type ℓ} where
  length-drop : (n : ℕ) (xs : List A) → length (drop n xs) ≡ length xs - n
  length-drop zero xs = omega arith
  length-drop (suc n) [] = omega arith
  length-drop (suc n) (x ∷ xs) = omega (arith, length-drop n xs)

  drop_next : (n : ℕ) (xs : List A) → drop 1 (drop n xs) ≡ drop (suc n) xs
  drop_next zero xs = refl
  drop_next (suc n) [] = refl
  drop_next (suc n) (x ∷ xs) = drop_next n xs

  drop-append : (n : ℕ) (xs ys : List A) → n ≤ length xs → drop n (xs ++ ys) ≡ drop n xs ++ ys
  drop-append zero xs ys h = refl
  drop-append (suc n) [] ys h = absurd (omega arith)
  drop-append (suc n) (x ∷ xs) ys h = drop-append n xs ys (omega arith)

-- The last samples that the window has room for.
abbrev pub latest : List ℕ → List ℕ
latest ds = drop (length ds - max_latency_samples) ds

push_latency-latest : (d : ℕ) (ds : List ℕ) → push_latency d (latest ds) ≡ latest (ds ++ d ∷ [])
unfolding push_latency
push_latency-latest d ds =
    let extra = length ds - max_latency_samples in
    let grown : length (ds ++ d ∷ []) ≡ length ds + 1 = length-append ds (d ∷ []) in
    elim (Bool-cases (leb max_latency_samples (length ds))) [
      | inl full ↦
          let room = leb→le max_latency_samples (length ds) full in
          let filled : leb max_latency_samples (length (latest ds)) ≡ true =
            rw (length-drop extra ds) (ground (arith, room)) in
          let more : length (ds ++ d ∷ []) - max_latency_samples ≡ suc extra =
            omega (arith, grown, room) in
          rw (filled, more, drop-append (suc extra) ds (d ∷ []) (omega (arith, room)))
            (ap (λ xs. xs ++ d ∷ []) (drop_next extra ds))
      | inr short ↦
          let none_out : extra ≡ 0 = ground (arith, short) in
          let still : length (ds ++ d ∷ []) - max_latency_samples ≡ 0 =
            ground (arith, short, grown) in
          rw (none_out, still, short) refl
    ]

-- The metrics after a sequence of samples.
abbrev pub record_latencies : List ℕ → Metrics → Metrics
record_latencies [] m = m
record_latencies (d ∷ ds) m = record_latencies ds (record_latency d m)

record_latencies-latest :
    (ds before : List ℕ) (m : Metrics)
    → m.latencies ≡ latest before
    → (record_latencies ds m).latencies ≡ latest (before ++ ds)
unfolding record_latency
record_latencies-latest [] before m h = h ∙ ap latest (sym (append-nil before))
record_latencies-latest (d ∷ ds) before m h =
    let pushed : (record_latency d m).latencies ≡ latest (before ++ d ∷ []) =
      ap (push_latency d) h ∙ push_latency-latest d before in
    record_latencies-latest ds (before ++ d ∷ []) (record_latency d m) pushed
    ∙ ap latest (append_assoc before (d ∷ []) ds)

-- From new metrics, the window holds the last 1000 samples, or all of them while they are fewer, in
-- the order in which they were recorded.
pub record_latency-window : (ds : List ℕ) → (record_latencies ds new_metrics).latencies ≡ latest ds
record_latency-window ds = record_latencies-latest ds [] new_metrics refl
