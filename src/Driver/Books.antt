-- ===== src/Driver/Books.antt =====
-- A number that the state determines, such as a count of pages, across the calls of the library
-- and across the steps of Session.
use gox_browser.Driver.{
  ◌>>=◌, ◌>>◌, Call, Decision, Request, Rod, ignoring, return, wrapping, fail, rescue,
}
use gox_browser.Prelude.{
  Bool, List, Option, get_elem?, if◌then◌else◌, length, none, not, some, ℕ, ◌∙◌, ◌≡◌,
}
use gox_browser.Driver.Triples.{
  Meets, Meets-bind, Meets-if, Meets-ignoring, Meets-wrapping, Meets-fail, Meets-return,
  Meets-rescue, Meets-then,
}
use gox_browser.Prelude.Text.{Text}
use gox_browser.Types.{Viewport, default_viewport}
use gox_browser.Driver.Session.{
  at_index, choose, chosen_viewport, fingerprint, same_viewport, setup_request_interception, total,
  run,
}
use gox_browser.Fingerprint.{locales, timezones, viewports}
use gox_browser.Errors.{Error}

abbrev pub At : {W : Type 0} → (W → ℕ) → ℕ → W → Type 0
At live n w = live w ≡ n

-- The call leaves the number as it is, unless it panics.
pub record Keeps {W A : Type 0} (live : W → ℕ) (m : Call W A) : Type 0 where
  pub kept : (n : ℕ) → Meets (At live n) m (λ a. At live n) (At live n)

module _ {W A B : Type 0} {live : W → ℕ} where
  pub Keeps-bind :
      (m : Call W A) (f : A → Call W B)
      → Keeps live m
      → ((a : A) → Keeps live (f a))
      → Keeps live (m >>= f)
  Keeps-bind m f h k = record { kept = λ n. Meets-bind m f (h.kept n) (λ a. (k a).kept n) }

module _ {W B : Type 0} {live : W → ℕ} where
  pub Keeps-then :
      (m : Call W Unit) (k : Call W B) → Keeps live m → Keeps live k → Keeps live (m >> k)
  Keeps-then m k h g = Keeps-bind m (λ u. k) h (λ u. g)

module _ {W A : Type 0} {live : W → ℕ} where
  pub Keeps-wrapping : (text : Text) (m : Call W A) → Keeps live m → Keeps live (wrapping text m)
  Keeps-wrapping text m h = record { kept = λ n. Meets-wrapping text m (h.kept n) }

  pub Keeps-rescue :
      (m : Call W A) (h : Error → Call W A)
      → Keeps live m
      → ((e : Error) → Keeps live (h e))
      → Keeps live (rescue m h)
  Keeps-rescue m h a b = record { kept = λ n. Meets-rescue m h (a.kept n) (λ e. (b e).kept n) }

  pub Keeps-if :
      (b : Bool) (m k : Call W A) → Keeps live m → Keeps live k → Keeps live (if b then m else k)
  Keeps-if b m k h g = record { kept = λ n. Meets-if b m k (h.kept n) (g.kept n) }

  pub Keeps-return : (a : A) → Keeps live (return a)
  Keeps-return a = record { kept = λ n. Meets-return a (λ w h. h) }

  pub Keeps-fail : (e : Error) → Keeps live (fail {S = W} {A = A} e)
  Keeps-fail e = record { kept = λ n. Meets-fail e (λ w h. h) }

  pub Keeps-at_index : (a : Option A) → Keeps live (at_index a)
  Keeps-at_index none = record { kept = λ n. record { ends = λ w h. tt } }
  Keeps-at_index (some a) = record { kept = λ n. record { ends = λ w h. h } }

module _ {W : Type 0} {live : W → ℕ} where
  pub Keeps-ignoring : (m : Call W Unit) → Keeps live m → Keeps live (ignoring m)
  Keeps-ignoring m h = record { kept = λ n. Meets-ignoring m (h.kept n) }

-- The call leaves the number as it is, and gives no error.
pub record Sure {W A : Type 0} (live : W → ℕ) (m : Call W A) : Type 1 where
  pub kept_surely : (n : ℕ) (E : W → Type 0) → Meets (At live n) m (λ a. At live n) E

module _ {W A B : Type 0} {live : W → ℕ} where
  pub Sure-bind :
      (m : Call W A) (f : A → Call W B)
      → Sure live m
      → ((a : A) → Sure live (f a))
      → Sure live (m >>= f)
  Sure-bind m f h k = record {
    kept_surely = λ n E. Meets-bind m f (h.kept_surely n E) (λ a. (k a).kept_surely n E);
  }

module _ {W B : Type 0} {live : W → ℕ} where
  pub Sure-then :
      (m : Call W Unit) (k : Call W B) → Keeps live m → Sure live k → Sure live (ignoring m >> k)
  Sure-then m k h g = record {
    kept_surely =
        λ n E. Meets-then (ignoring m) k (Meets-ignoring m (h.kept n)) (g.kept_surely n E);
  }

module _ {W A : Type 0} {live : W → ℕ} where
  pub Sure-if :
      (b : Bool) (m k : Call W A) → Sure live m → Sure live k → Sure live (if b then m else k)
  Sure-if b m k h g = record {
    kept_surely = λ n E. Meets-if b m k (h.kept_surely n E) (g.kept_surely n E);
  }

  pub Sure-return : (a : A) → Sure live (return a)
  Sure-return a = record { kept_surely = λ n E. Meets-return a (λ w h. h) }

  pub Sure-at_index : (a : Option A) → Sure live (at_index a)
  Sure-at_index none = record { kept_surely = λ n E. record { ends = λ w h. tt } }
  Sure-at_index (some a) = record { kept_surely = λ n E. record { ends = λ w h. h } }

  pub Sure-total : (m : W → W × A) → ((w : W) → live (m w).0 ≡ live w) → Sure live (total m)
  Sure-total m h = record { kept_surely = λ n E. record { ends = λ w k. h w ∙ k } }

  pub Sure-Keeps : (m : Call W A) → Sure live m → Keeps live m
  Sure-Keeps m h = record { kept = λ n. h.kept_surely n (At live n) }

-- The calls on a page that change neither the pages nor the connections.
pub record Quiet {W C K G R L : Type 0} (rod : Rod W C K G R L) (live : W → ℕ) : Type 0 where
  pub quiet_int_n : (n : ℕ) (w : W) → live (rod.int_n n w).0 ≡ live w
  pub quiet_hijack : (g : G) (w : W) → live (rod.hijack g w).0 ≡ live w
  pub quiet_run_router : (r : R) (w : W) → live (rod.run_router r w) ≡ live w
  pub quiet_pages : (k : K) → Keeps live (rod.pages k)
  pub quiet_set_viewport : (g : G) (v : Viewport) → Keeps live (rod.set_viewport g v)
  pub quiet_set_timezone : (g : G) (t : Text) → Keeps live (rod.set_timezone g t)
  pub quiet_set_locale : (g : G) (t : Text) → Keeps live (rod.set_locale g t)
  pub quiet_add_handler :
      (r : R) (decide : Request → Decision) → Keeps live (rod.add_handler r decide)
  pub quiet_stop_router : (r : R) → Keeps live (rod.stop_router r)

module _ {W C K G R L : Type 0} (rod : Rod W C K G R L) (live : W → ℕ)
    (quiet : Quiet rod live) where
  Sure-choose : {A : Type 0} (choices : List A) → Sure live (choose rod choices)
  Sure-choose choices =
      Sure-bind _ _ (Sure-total (rod.int_n (length choices)) (quiet.quiet_int_n (length choices)))
        (λ i. Sure-at_index (get_elem? choices i))

  Sure-chosen_viewport : (v : Viewport) → Sure live (chosen_viewport rod v)
  Sure-chosen_viewport v =
      Sure-if (same_viewport v default_viewport) _ _ (Sure-choose viewports) (Sure-return v)

  pub Sure-fingerprint :
      (random : Bool) (g : G) (v : Viewport) → Sure live (fingerprint rod random g v)
  unfolding fingerprint
  Sure-fingerprint random g v = Sure-if (not random) _ _ (Sure-return v) (
      Sure-bind _ _ (Sure-chosen_viewport v) (λ viewport.
        Sure-bind _ _ (Sure-choose timezones) (λ tz.
          Sure-then (rod.set_timezone g tz) _ (quiet.quiet_set_timezone g tz) (
            Sure-bind _ _ (Sure-choose locales) (λ locale.
              Sure-then (rod.set_locale g locale) _ (quiet.quiet_set_locale g locale)
                (Sure-return viewport))))))

  pub Keeps-setup_request_interception :
      (text : Text) (decide : Request → Decision) (g : G)
      → Keeps live (setup_request_interception rod text decide g)
  unfolding setup_request_interception
  Keeps-setup_request_interception text decide g =
      Keeps-bind _ _ (Sure-Keeps _ (Sure-total (rod.hijack g) (quiet.quiet_hijack g))) (λ r.
        Keeps-then (wrapping text (rod.add_handler r decide)) _
          (Keeps-wrapping text _ (quiet.quiet_add_handler r decide))
          (Keeps-then (run rod r) (return r)
            (record { kept = λ n. record { ends = λ w h. quiet.quiet_run_router r w ∙ h } })
            (Keeps-return r)))
