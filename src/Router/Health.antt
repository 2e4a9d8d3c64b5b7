-- ===== src/Router/Health.antt =====
-- What the health marks of the router say (browser/browserless/router.go).
-- An endpoint after a health check, next to the one before it: healthy exactly as the last answer says,
-- with the pressure of that answer, or unhealthy with its old pressure; all else is kept.
use gox_browser.Prelude.{
  Bool, List, Option, [], arith, false, none, refl, some, subst, sym, true, ◌||◌, ◌∙◌, ◌∷◌, ◌≡◌,
}
use gox_browser.Router.{
  Endpoint, Http, PressureInfo, Router, check_all, checked, fetch_pressure, health_check_all,
  last_error,
}
use gox_browser.Errors.{Error, Result, err, ok}
use gox_browser.Fetch.{failed}

abbrev pub Answered : Result PressureInfo → Endpoint → Endpoint → Type 0
Answered (ok p) e d = (d.healthy ≡ p.is_available) × (d.pressure ≡ p)
Answered (err error) e d = (d.healthy ≡ false) × (d.pressure ≡ e.pressure)

abbrev pub SameNode : Endpoint → Endpoint → Type 0
SameNode e d = (d.url ≡ e.url) × (d.token ≡ e.token) × (d.weight ≡ e.weight)

abbrev pub is_err {ℓ} : {A : Type ℓ} → Result A → Bool
is_err (ok a) = false
is_err (err e) = true

abbrev pub has_error : Option Error → Bool
has_error none = false
has_error (some e) = true

module _ {W C : Type 0} (http : Http W C) (ctx : C) where
  -- The endpoints after a check against those before it, from the state in which it starts, and
  -- whether a request failed.
  abbrev pub Asked : List Endpoint → List Endpoint → Bool → W → Type 0
  Asked [] [] failed w = failed ≡ false
  Asked [] (d ∷ ds) failed w = ⊥
  Asked (e ∷ es) [] failed w = ⊥
  Asked (e ∷ es) (d ∷ ds) failed w =
      let r = fetch_pressure http ctx e w in
      SameNode e d
      × Answered r.1 e d
      × ((rest : Bool) × (failed ≡ (is_err r.1 || rest)) × Asked es ds rest r.0)

  has_error-last :
      (r : Result PressureInfo) (last : Option Error) (rest : Bool)
      → (has_error (last_error http r last) || rest) ≡ (has_error last || (is_err r || rest))
  has_error-last r last rest = ground arith

  checked-SameNode :
      (r : Result PressureInfo) (e : Endpoint)
      → SameNode e (checked http r e) × Answered r e (checked http r e)
  checked-SameNode (ok p) e = ((refl, refl, refl), (refl, refl))
  checked-SameNode (err error) e = ((refl, refl, refl), (refl, refl))

  check_all-Asked :
      (es : List Endpoint) (last : Option Error) (w : W)
      → let r = check_all http ctx es last w in
        (failed : Bool) × (has_error r.2 ≡ (has_error last || failed)) × Asked es r.1 failed w
  unfolding check_all
  check_all-Asked [] last w = (false, ground arith, refl)
  check_all-Asked (e ∷ es) last w =
      let r = fetch_pressure http ctx e w in
      let (rest, same, asked) = check_all-Asked es (last_error http r.1 last) r.0 in
      let (node, answered) = checked-SameNode r.1 e in
      (
        is_err r.1 || rest,
        same ∙ has_error-last r.1 last rest,
        (node, answered, (rest, refl, asked)),
      )

  -- A health check asks every endpoint in turn. It keeps the addresses, tokens and weights; it marks
  -- an endpoint healthy exactly when the answer says that it is available, and unhealthy when there
  -- is no answer, with the pressure of the answer or else the old one; and it returns an error
  -- exactly when some request failed.
  pub health_check_all-Asked :
      (r : Router) (w : W)
      → let x = health_check_all http ctx r w in Asked r.endpoints x.1.endpoints (has_error x.2) w
  unfolding health_check_all
  health_check_all-Asked r w =
      let (failed, same, asked) = check_all-Asked r.endpoints none w in
      subst (λ b. Asked r.endpoints (check_all http ctx r.endpoints none w).1 b w) (sym same) asked
