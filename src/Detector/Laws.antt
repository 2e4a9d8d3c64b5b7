-- ===== src/Detector/Laws.antt =====
-- When a page counts as blocked (browser/detector.go).
use gox_browser.Prelude.{
  ◌++◌, Bool, List, Option, [], any, arith, false, ltb, map, none, refl, some, true, ◌||◌, ℕ, ◌∷◌,
  ◌≡◌, inl, inr, sym, ◌∙◌, ◌↔◌, ◌⊎◌,
}
use gox_browser.Prelude.Text.{Text, codes, contains, len, trim_space}
use gox_browser.Prelude.Strings.{Holds, any-Holds}
use gox_browser.Detector.{
  akamai_signals, cf_signals, detect, first_signal, verdict, waf_title_signals,
}

abbrev is_some : Option Text → Bool
is_some none = false
is_some (some s) = true

is_some-first_signal :
    (test : Text → Bool) (signals : List Text)
    → is_some (first_signal test signals) ≡ any test signals
unfolding first_signal
is_some-first_signal test [] = refl
is_some-first_signal test (s ∷ signals) = ground (arith, is_some-first_signal test signals)

verdict-blocked :
    (short : Bool) (cf akamai title : Option Text)
    → (verdict short cf akamai title).blocked
      ≡ (short || is_some cf || is_some akamai || is_some title)
unfolding verdict
verdict-blocked short cf akamai title = ground arith

-- The signals of Cloudflare and of Akamai.
abbrev pub page_signals : List Text
page_signals =
    codes "just a moment"
    ∷ codes "checking your browser"
    ∷ codes "cf-browser-verification"
    ∷ codes "cf_chl_opt"
    ∷ codes "ray id"
    ∷ codes "turnstile"
    ∷ codes "attention required"
    ∷ codes "access denied"
    ∷ codes "reference #"
    ∷ codes "akamai"
    ∷ []

any-append : (f : Text → Bool) (xs ys : List Text) → any f (xs ++ ys) ≡ (any f xs || any f ys)
any-append f [] ys = refl
any-append f (x ∷ xs) ys = ground (arith, any-append f xs ys)

any-either :
    (f g : Text → Bool) (xs : List Text) → any (λ s. f s || g s) xs ≡ (any f xs || any g xs)
any-either f g [] = refl
any-either f g (x ∷ xs) = ground (arith, any-either f g xs)

or_iff : (a b : Bool) {A B : Type 0} → (a ≡ true) ↔ A → (b ≡ true) ↔ B → ((a || b) ≡ true) ↔ (A ⊎ B)
or_iff true b f g = ((λ h. inl (f.0 refl)), (λ x. refl))
or_iff false b f g =
    ((λ h. inr (g.0 h)), (λ x. elim x [ inl y ↦ absurd (cc (f.1 y)) | inr y ↦ g.1 y ]))

regrouped :
    (short cf1 cf2 ak1 ak2 waf cf ak page heading : Bool)
    → cf ≡ (cf1 || cf2)
    → ak ≡ (ak1 || ak2)
    → page ≡ (cf1 || ak1)
    → heading ≡ (cf2 || ak2)
    → (short || cf || ak || waf) ≡ (short || (page || (heading || waf)))
regrouped short cf1 cf2 ak1 ak2 waf cf ak page heading a b c d = ground (arith, a, b, c, d)

module _ (lower : ℕ → ℕ) where
  detect_tests :
      (html title : Text) (status : ℕ)
      → (detect lower html title status).blocked ≡ (
          ltb (len (trim_space html)) 100
          || (any (contains (map lower html)) (cf_signals ++ akamai_signals)
              || (any (contains (map lower title)) (cf_signals ++ akamai_signals)
                  || any (contains (map lower title)) waf_title_signals)))
  unfolding detect
  detect_tests html title status =
      let page = contains (map lower html) in
      let heading = contains (map lower title) in
      let either : Text → Bool = λ s. page s || heading s in
      verdict-blocked _ (first_signal either cf_signals) (first_signal either akamai_signals)
        (first_signal heading waf_title_signals)
      ∙ rw
          (
            is_some-first_signal either cf_signals,
            is_some-first_signal either akamai_signals,
            is_some-first_signal heading waf_title_signals,
          )
          (regrouped (ltb (len (trim_space html)) 100) (any page cf_signals)
            (any heading cf_signals) (any page akamai_signals) (any heading akamai_signals)
            (any heading waf_title_signals) (any either cf_signals) (any either akamai_signals)
            (any page (cf_signals ++ akamai_signals)) (any heading (cf_signals ++ akamai_signals))
            (any-either page heading cf_signals) (any-either page heading akamai_signals)
            (any-append page cf_signals akamai_signals)
            (any-append heading cf_signals akamai_signals))

  -- The detector blocks a page exactly when its text without the space around it is shorter than 100
  -- bytes, or one of the ten Cloudflare and Akamai signals stands somewhere in the page or in its
  -- title in lower case, or one of the eight firewall signals stands in the title in lower case. The
  -- status code plays no part.
  pub detect_iff :
      (html title : Text) (status : ℕ)
      → ((detect lower html title status).blocked ≡ true) ↔ (
          (ltb (len (trim_space html)) 100 ≡ true)
          ⊎ (Holds (map lower html) page_signals
              ⊎ (Holds (map lower title) page_signals
                  ⊎ Holds (map lower title) (
                      codes "captcha"
                      ∷ codes "are you a robot"
                      ∷ codes "bot detection"
                      ∷ codes "please verify you are a human"
                      ∷ codes "access denied"
                      ∷ codes "blocked"
                      ∷ codes "forbidden"
                      ∷ codes "security check"
                      ∷ []))))
  detect_iff html title status =
      let page = map lower html in
      let heading = map lower title in
      let both = cf_signals ++ akamai_signals in
      let tests =
        or_iff (ltb (len (trim_space html)) 100)
          (any (contains page) both
            || (any (contains heading) both || any (contains heading) waf_title_signals))
          ((λ h. h), (λ h. h))
          (or_iff (any (contains page) both)
            (any (contains heading) both || any (contains heading) waf_title_signals)
            (any-Holds page both)
            (or_iff (any (contains heading) both) (any (contains heading) waf_title_signals)
              (any-Holds heading both) (any-Holds heading waf_title_signals))) in
      let same = detect_tests html title status in
      ((λ h. tests.0 (sym same ∙ h)), (λ x. same ∙ tests.1 x))
