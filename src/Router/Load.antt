-- ===== src/Router/Load.antt =====
-- Which endpoint the router picks by load (browser/browserless/router.go).
-- A pick from the index `i` on: a healthy endpoint of the list with no more load than any healthy one,
-- and less than those before it; or, where no healthy endpoint is below the limit, none.
use gox_browser.Prelude.{
  ◌+◌, All, Bool-cases, List, Option, [], arith, get_elem?, inl, inr, refl, some, true, ℕ, ◌∷◌, ◌≡◌,
  ap, suc, ◌∙◌, none, subst, sym, zero,
}
use gox_browser.Router.{Endpoint, least_load, load, pick_least_load}
use gox_browser.Prelude.Int.{ltb_ℤ, max_int, min_int, wrap_int-fits, ℤ, ◌+ℤ◌, ◌≤ℤ◌}

abbrev pub IsLeast : List Endpoint → Endpoint → Type 0
IsLeast [] e = Unit
IsLeast (d ∷ es) e = (d.healthy ≡ true → load e ≤ℤ load d) × IsLeast es e

abbrev pub IsAbove : ℤ → List Endpoint → Type 0
IsAbove limit [] = Unit
IsAbove limit (d ∷ es) = (d.healthy ≡ true → limit ≤ℤ load d) × IsAbove limit es

-- The outcome of the loop over `es` from the index `i`, with the best load so far.
data Scanned (i : ℕ) (es : List Endpoint) (best : Option ℕ) (limit : ℤ) (r : Option ℕ)
    : Type 0 where
  nothing : r ≡ best → IsAbove limit es → Scanned i es best limit r
  found :
      (k : ℕ) (e : Endpoint)
      → r ≡ some (i + k)
      → get_elem? es k ≡ some e
      → e.healthy ≡ true
      → IsAbove (load e) es
      → ltb_ℤ (load e) limit ≡ true
      → Scanned i es best limit r

IsAbove-le : (a b : ℤ) (es : List Endpoint) → a ≤ℤ b → IsAbove b es → IsAbove a es
IsAbove-le a b [] h above = tt
IsAbove-le a b (e ∷ es) h (first, above) =
    ((λ k. omega (arith, first k, h)), IsAbove-le a b es h above)

module _ (i : ℕ) (e : Endpoint) (es : List Endpoint) (best : Option ℕ) (limit : ℤ)
    (r : Option ℕ) where
  -- The head is passed over.
  Scanned-passed :
      (e.healthy ≡ true → limit ≤ℤ load e)
      → Scanned (suc i) es best limit r
      → Scanned i (e ∷ es) best limit r
  Scanned-passed h (nothing q above) = nothing q (h, above)
  Scanned-passed h (found k d q g well above less) =
      found (suc k) d (q ∙ ap some (omega arith)) g well ((λ y. ground (arith, h y, less)), above)
        less

  -- The head becomes the best one.
  Scanned-chosen :
      e.healthy ≡ true
      → ltb_ℤ (load e) limit ≡ true
      → Scanned (suc i) es (some i) (load e) r
      → Scanned i (e ∷ es) best limit r
  Scanned-chosen well better (nothing q above) =
      found 0 e (q ∙ ap some (omega arith)) refl well ((λ y. omega arith), above) better
  Scanned-chosen well better (found k d q g w above less) =
      found (suc k) d (q ∙ ap some (omega arith)) g w ((λ y. ground (arith, less)), above)
        (ground (arith, less, better))

least_load-Scanned :
    (i : ℕ) (es : List Endpoint) (best : Option ℕ) (limit : ℤ)
    → Scanned i es best limit (least_load i es best limit)
unfolding least_load
least_load-Scanned i [] best limit = nothing refl tt
least_load-Scanned i (e ∷ es) best limit = elim (Bool-cases e.healthy) [
  | inr ill ↦ simp ill (
      Scanned-passed i e es best limit _ (λ y. absurd (cc (y, ill)))
        (least_load-Scanned (suc i) es best limit))
  | inl well ↦ elim (Bool-cases (ltb_ℤ (load e) limit)) [
    | inl better ↦
        simp (well, better)
          (Scanned-chosen i e es best limit _ well better
            (least_load-Scanned (suc i) es (some i) (load e)))
    | inr worse ↦
        simp (well, worse)
          (Scanned-passed i e es best limit _ (λ y. ground (arith, worse))
            (least_load-Scanned (suc i) es best limit))
  ]
]

IsAbove-at :
    (limit : ℤ) (es : List Endpoint) (k : ℕ) (e : Endpoint)
    → IsAbove limit es
    → get_elem? es k ≡ some e
    → e.healthy ≡ true
    → limit ≤ℤ load e
IsAbove-at limit [] k e above g well = absurd (cc g)
IsAbove-at limit (d ∷ es) zero e (first, above) g well =
    let same : d ≡ e = cc g in
    subst (λ x. limit ≤ℤ load x) same (first (subst (λ x. x.healthy ≡ true) (sym same) well))
IsAbove-at limit (d ∷ es) (suc k) e (first, above) g well = IsAbove-at limit es k e above g well

pick-found :
    (es : List Endpoint) (i : ℕ)
    → least_load 0 es none max_int ≡ some i
    → pick_least_load es ≡ some i
unfolding pick_least_load
pick-found es i q = rw (q, pick_least_load) refl

-- The requests that an endpoint runs and those that wait for it.
abbrev pub requests : Endpoint → ℤ
requests e = e.pressure.running +ℤ e.pressure.queued

-- Both numbers together are an `int`.
abbrev pub IsSmall : Endpoint → Type 0
IsSmall e = (min_int ≤ℤ requests e) × (requests e ≤ℤ max_int)

-- No healthy endpoint of the list has fewer requests.
abbrev pub IsLeastBusy : Endpoint → List Endpoint → Type 0
IsLeastBusy best [] = Unit
IsLeastBusy best (d ∷ es) = (d.healthy ≡ true → requests best ≤ℤ requests d) × IsLeastBusy best es

load-requests : (e : Endpoint) → IsSmall e → load e ≡ requests e
load-requests e (low, high) = wrap_int-fits (requests e) low high

All-at :
    (P : Endpoint → Type 0) (es : List Endpoint) (k : ℕ) (e : Endpoint)
    → All P es
    → get_elem? es k ≡ some e
    → P e
All-at P [] k e all g = absurd (cc g)
All-at P (d ∷ es) zero e (first, all) g = let same : d ≡ e = cc g in subst P same first
All-at P (d ∷ es) (suc k) e (first, all) g = All-at P es k e all g

IsAbove-IsLeastBusy :
    (best : Endpoint) (es : List Endpoint)
    → IsSmall best
    → All IsSmall es
    → IsAbove (load best) es
    → IsLeastBusy best es
IsAbove-IsLeastBusy best [] small all above = tt
IsAbove-IsLeastBusy best (d ∷ es) small (first, all) (low, above) =
    let a = load-requests best small in
    let b = load-requests d first in
    (
      (λ well. subst (λ x. x ≤ℤ requests d) a (subst (λ x. load best ≤ℤ x) b (low well))),
      IsAbove-IsLeastBusy best es small all above,
    )

-- Picking by load, where the sum of the running and the queued requests of every endpoint is an
-- `int`, and less than the largest one for some healthy endpoint: the picked index is that of a
-- healthy endpoint, and no healthy endpoint has fewer running and queued requests together.
pub pick_least_load_lem :
    (es : List Endpoint) (k : ℕ) (e : Endpoint)
    → All IsSmall es
    → get_elem? es k ≡ some e
    → e.healthy ≡ true
    → ltb_ℤ (requests e) max_int ≡ true
    → (i : ℕ) × (best : Endpoint) × (pick_least_load es ≡ some i)
      × (get_elem? es i ≡ some best)
      × (best.healthy ≡ true)
      × IsLeastBusy best es
unfolding pick_least_load
pick_least_load_lem es k e small g well less = elim (least_load-Scanned 0 es none max_int) [
  | nothing q above ↦
      let over =
        subst (λ x. max_int ≤ℤ x) (load-requests e (All-at IsSmall es k e small g))
          (IsAbove-at max_int es k e above g well) in
      absurd (ground (arith, over, less))
  | found i best q at_i fine above below ↦ (
    i,
    best,
    pick-found es i (q ∙ ap some (omega arith)),
    at_i,
    fine,
    IsAbove-IsLeastBusy best es (All-at IsSmall es i best small at_i) small above,
  )
]
