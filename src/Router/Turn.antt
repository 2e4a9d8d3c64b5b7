-- ===== src/Router/Turn.antt =====
-- Which endpoint the router picks in turn (browser/browserless/router.go).
use native.Mathlib.Nat.{mod-eq_of_lt, add-mod_right}
use gox_browser.Prelude.{
  ◌%◌, ◌+◌, ◌-◌, ◌<◌, ◌≤◌, [], ◌∷◌, Bool, false, if◌then◌else◌, Bool-cases, List, Option, ◌^◌, ap,
  arith, inl, inr, length, none, some, suc, true, zero, ℕ, ◌∙◌, ◌≡◌, refl, subst,
}
use gox_browser.Router.{Endpoint, healthy_at, round_robin, pick_round_robin}

-- An endpoint at the index that a pick gives.
abbrev pub IsHealthyPick : List Endpoint → Option ℕ → Type 0
IsHealthyPick es none = ⊥
IsHealthyPick es (some i) = healthy_at es i ≡ true

-- The steps of the counter that other picks take in the last `k` rounds of a pick.
unfoldable pub steps : (ℕ → ℕ) → ℕ → ℕ
steps others zero = 0
steps others (suc k) = others k + steps others k

abbrev pub as_number : Bool → ℕ
as_number b = if b then 1 else 0

-- How many endpoints are healthy.
unfoldable pub count_healthy : List Endpoint → ℕ
count_healthy [] = 0
count_healthy (e ∷ es) = as_number e.healthy + count_healthy es

-- How many of the `m` values of the counter from `rr` on stand for a healthy one of `n` endpoints.
unfoldable healthy_in : List Endpoint → ℕ → ℕ → ℕ → ℕ
healthy_in es n rr zero = 0
healthy_in es n rr (suc m) = as_number (healthy_at es (rr % n)) + healthy_in es n (suc rr) m

module _ (es : List Endpoint) (n : ℕ) where
  healthy_in-le : (rr m : ℕ) → healthy_in es n rr m ≤ m
  unfolding healthy_in
  healthy_in-le rr zero = omega arith
  healthy_in-le rr (suc m) = ground (arith, healthy_in-le (suc rr) m)

  healthy_in-add :
      (rr s m : ℕ) → healthy_in es n rr (s + m) ≡ healthy_in es n rr s + healthy_in es n (rr + s) m
  unfolding healthy_in
  healthy_in-add rr zero m =
      let a : 0 + m ≡ m = omega arith in
      let b : rr + 0 ≡ rr = omega arith in rw (a, b) (omega arith)
  healthy_in-add rr (suc s) m =
      let a : suc s + m ≡ suc (s + m) = omega arith in
      let b : rr + suc s ≡ suc rr + s = omega arith in
      rw (a, b) (omega (arith, healthy_in-add (suc rr) s m))

  -- The values of one round stand for all endpoints, from whatever value they start.
  healthy_in-shift : (rr : ℕ) → healthy_in es n (suc rr) n ≡ healthy_in es n rr n
  unfolding healthy_in
  healthy_in-shift rr =
      let front = healthy_in-add rr 1 n in
      let back = healthy_in-add rr n 1 in
      let a : 1 + n ≡ n + 1 = omega arith in
      let b : rr + 1 ≡ suc rr = omega arith in
      let front1 : healthy_in es n rr (n + 1)
          ≡ as_number (healthy_at es (rr % n)) + 0 + healthy_in es n (suc rr) n =
        subst
          (λ x.
            healthy_in es n rr x
            ≡ as_number (healthy_at es (rr % n)) + 0 + healthy_in es n (suc rr) n)
          a
          (subst
            (λ x.
              healthy_in es n rr (1 + n)
              ≡ as_number (healthy_at es (rr % n)) + 0 + healthy_in es n x n)
            b front) in
      let back1 : healthy_in es n rr (n + 1)
          ≡ healthy_in es n rr n + (as_number (healthy_at es (rr % n)) + 0) =
        subst
          (λ x.
            healthy_in es n rr (n + 1) ≡ healthy_in es n rr n + (as_number (healthy_at es x) + 0))
          (add-mod_right rr n) back in
      omega (arith, front1, back1)

  healthy_in-start : (rr : ℕ) → healthy_in es n rr n ≡ healthy_in es n 0 n
  healthy_in-start zero = refl
  healthy_in-start (suc rr) = healthy_in-shift rr ∙ healthy_in-start rr

  healthy_in-from :
      (ds : List Endpoint) (i : ℕ)
      → i + length ds ≡ n
      → ((j : ℕ) → healthy_at es (i + j) ≡ healthy_at ds j)
      → healthy_in es n i (length ds) ≡ count_healthy ds
  unfolding healthy_in count_healthy
  healthy_in-from [] i h same = refl
  healthy_in-from (d ∷ ds) i h same =
      let within : i % n ≡ i = mod-eq_of_lt (omega (arith, h)) in
      let first : healthy_at es (i % n) ≡ d.healthy =
        ap (healthy_at es) (within ∙ omega arith) ∙ same 0 in
      let rest =
        healthy_in-from ds (suc i) (omega (arith, h))
          (λ j. ap (healthy_at es) (omega arith) ∙ same (suc j)) in
      rw first (omega (arith, rest))

healthy_in-count :
    (es : List Endpoint) (rr : ℕ) → healthy_in es (length es) rr (length es) ≡ count_healthy es
healthy_in-count es rr =
    healthy_in-start es (length es) rr
    ∙ healthy_in-from es (length es) es 0 (omega arith) (λ j. ap (healthy_at es) (omega arith))

missed :
    (es : List Endpoint) (n rr m : ℕ)
    → healthy_at es (rr % n) ≡ false
    → healthy_in es n rr (suc m) ≡ healthy_in es n (suc rr) m
unfolding healthy_in
missed es n rr m miss = rw miss (omega arith)

-- A pick with `k` rounds to go passes over fewer values than stand for healthy endpoints.
round_robin-finds :
    (k : ℕ) (es : List Endpoint) (others : ℕ → ℕ) (rr m : ℕ)
    → m ≤ k
    → steps others k < healthy_in es (length es) rr m
    → rr + k + steps others k < 2 ^ 64
    → IsHealthyPick es (round_robin k es others rr).1
unfolding round_robin steps
round_robin-finds zero es others rr m h less small =
    let bound = healthy_in-le es (length es) rr m in absurd (omega (arith, bound))
round_robin-finds (suc k) es others rr m h less small =
    let n = length es in
    let s = others k in
    let bound = healthy_in-le es n rr m in
    let skipped = healthy_in-le es n rr s in
    let seen_eq : (rr + s) % 2 ^ 64 ≡ rr + s = mod-eq_of_lt (omega (arith, small)) in
    let next_eq : (rr + s + 1) % 2 ^ 64 ≡ suc (rr + s) =
      mod-eq_of_lt (omega (arith, small)) ∙ omega arith in
    let split_eq : s + suc (m - suc s) ≡ m = omega (arith, bound, less) in
    let all_seen : healthy_in es n rr m
        ≡ healthy_in es n rr s + healthy_in es n (rr + s) (suc (m - suc s)) =
      subst
        (λ x.
          healthy_in es n rr x ≡ healthy_in es n rr s + healthy_in es n (rr + s) (suc (m - suc s)))
        split_eq (healthy_in-add es n rr s (suc (m - suc s))) in
    elim (Bool-cases (healthy_at es ((rr + s) % n))) [
      | inl hit ↦ rw (seen_eq, hit) hit
      | inr miss ↦
          let rest_of : healthy_in es n (rr + s) (suc (m - suc s))
              ≡ healthy_in es n (suc (rr + s)) (m - suc s) =
            missed es n (rr + s) _ miss in
          rw (seen_eq, miss, next_eq)
            (round_robin-finds k es others (suc (rr + s)) (m - suc s) (omega (arith, h, split_eq))
              (omega (arith, less, all_seen, rest_of, skipped)) (omega (arith, small)))
    ]

-- Picking in turn, while other picks move the counter too: a healthy endpoint is picked whenever the
-- steps that the others take during the pick are fewer than the healthy endpoints, as long as the
-- counter does not reach 2^64 meanwhile. So a pick that nothing disturbs finds a healthy endpoint if
-- there is one.
pub pick_round_robin-IsHealthyPick :
    (es : List Endpoint) (others : ℕ → ℕ) (rr : ℕ)
    → steps others (length es) < count_healthy es
    → rr + length es + steps others (length es) < 2 ^ 64
    → IsHealthyPick es (pick_round_robin es others rr).1
unfolding pick_round_robin
pick_round_robin-IsHealthyPick es others rr few small =
    let all_healthy = healthy_in-count es rr in
    round_robin-finds (length es) es others rr (length es) (omega arith)
      (omega (arith, few, all_healthy)) small
