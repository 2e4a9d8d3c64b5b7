-- ===== src/Pool/Balance.antt =====
-- Calls on an open pool return, and `InUse` goes up by one for each browser handed out and down by
-- one for each given back (browser/pool.go).
use gox_browser.Types.{AcquireOpts, BrowserType}
use gox_browser.Prelude.{
  Bool-cases, List, Option, Option-cases, [], ap, false, inl, inr, lookup, none, refl, some, ◌∙◌,
  ◌∷◌, ◌≡◌, ◌≢◌, map, if_false, subst, sym,
}
use gox_browser.Pool.{
  Ends, Entry, Pool, Section, Wake, cancelled, discard, idle_of, must_create, must_wait,
  no_provider, reused, set_idle, tick, counted,
}
use gox_browser.Io.{Io}
use gox_browser.Pool.Count.{Kept, Kept-refl, Kept-trans, set_idle-Kept}
use gox_browser.Errors.{Result, err, ok, Error, is_connection_error}
use gox_browser.Pool.Acquire.{
  acquire_rest, acquire_section, create_section, reuse, wait_for_instance, acquire,
}
use gox_browser.Prelude.Int.{inc, leb_ℤ, ℤ, dec, dec-inc}
use gox_browser.Metrics.{add_acquire_total}
use gox_browser.Pool.Release.{release, release_keep}

abbrev pub IsOpen : {B P : Type 0} → Pool B P → Type 0
IsOpen p = (p.closed ≡ false) × (p.instances ≢ none)

-- The schedule of a waiting goroutine reaches its cancellation, and until then the other goroutines
-- leave the pool open and the number of browsers in use as it was.
abbrev pub IsCalm : {W B P : Type 0} → List (Wake W (Pool B P)) → Type 0
IsCalm [] = ⊥
IsCalm (cancelled ∷ wakes) = Unit {0}
IsCalm {W} {B} {P} (tick others ∷ wakes) =
    ((w : W) (p : Pool B P) → IsOpen p → IsOpen (others w p).1 × ((others w p).1.in_use ≡ p.in_use))
    × IsCalm wakes

abbrev pub grown : {B : Type 0} → Result B → ℤ → ℤ
grown (ok b) i = inc i
grown (err e) i = i

abbrev raised : {B : Type 0} → Option B → ℤ → ℤ
raised none i = i
raised (some b) i = inc i

module _ {W B P C : Type 0} (io : Io W B P C) where
  abbrev pub Acquired : ℤ → W × Pool B P × Result B → Type 0
  Acquired i x = IsOpen x.1 × (x.1.in_use ≡ grown x.2 i)

  Kept-IsOpen : (p q : Pool B P) → Kept p q → IsOpen p → IsOpen q
  Kept-IsOpen p q k (c, m) = (k.closed_eq ∙ c, λ nil. m (k.open_eq.0 nil))

  reuse_raises :
      (ctx : C) (t : BrowserType) (es : List (Entry B)) (w : W) (p : Pool B P)
      → let r = reuse io ctx t es w p in Kept p r.1 × (r.1.in_use ≡ raised r.2 p.in_use)
  unfolding reuse
  reuse_raises ctx t [] w p = (Kept-refl p, refl)
  reuse_raises ctx t (e ∷ rest) w p =
      let ping = io.title w (io.with_timeout ctx p.cfg.ping_timeout) e.browser in
      let popped = set_idle t rest p in
      let (kept, same) = reuse_raises ctx t rest (io.close ping.0 e.browser).0 (discard popped) in
      elim (Option-cases ping.2) [
        | inl alive ↦ rw (alive, reuse) (set_idle-Kept p _ t rest refl refl refl, refl)
        | inr (error, dead) ↦
            rw (dead, reuse)
              (
                Kept-trans p (discard popped) _
                    (set_idle-Kept p (discard popped) t rest refl refl refl) kept,
                same,
              )
      ]

  wait_for_instance-Ends :
      (ctx : C) (t : BrowserType) (wakes : List (Wake W (Pool B P))) (w : W) (p : Pool B P) (i : ℤ)
      → IsCalm wakes
      → IsOpen p
      → p.in_use ≡ i
      → Ends (Acquired i) (wait_for_instance io ctx t wakes w p)
  unfolding wait_for_instance
  wait_for_instance-Ends ctx t [] w p i calm o u = calm
  wait_for_instance-Ends ctx t (cancelled ∷ wakes) w p i calm o u = (o, u)
  wait_for_instance-Ends ctx t (tick others ∷ wakes) w p i (quiet, calm) o u =
      let x = others w p in
      let (o1, u1) = quiet w p o in
      let r = reuse io ctx t (idle_of x.1 t) x.0 x.1 in
      let (kept, same) = reuse_raises ctx t (idle_of x.1 t) x.0 x.1 in
      let open_after = Kept-IsOpen x.1 r.1 kept o1 in
      elim (Option-cases r.2) [
        | inr (b, got) ↦
            rw (got, wait_for_instance) (open_after, (rw got at same) ∙ ap inc (u1 ∙ u))
        | inl nothing ↦
            rw (nothing, wait_for_instance)
              (wait_for_instance-Ends ctx t wakes r.0 r.1 i calm open_after
                ((rw nothing at same) ∙ u1 ∙ u))
      ]

  -- What `Acquire` finds at its unlock.
  abbrev Decided : ℤ → W × Pool B P × Section B P → Type 0
  Decided i (w, p, no_provider) = IsOpen p × (p.in_use ≡ i)
  Decided i (w, p, reused b) = IsOpen p × (p.in_use ≡ inc i)
  Decided i (w, p, must_wait) = IsOpen p × (p.in_use ≡ i)
  Decided i (w, p, must_create x) = IsOpen p × (p.in_use ≡ inc i)

  acquire_section-Decided :
      (ctx : C) (opts : AcquireOpts) (w : W) (p : Pool B P)
      → IsOpen p
      → Decided p.in_use (acquire_section io ctx opts w p)
  unfolding acquire_section
  acquire_section-Decided ctx opts w p o =
      let t = opts.browser_type in
      let r = reuse io ctx t (idle_of p t) w p in
      let (kept, same) = reuse_raises ctx t (idle_of p t) w p in
      let open_after = Kept-IsOpen p r.1 kept o in
      elim (Option-cases (lookup t p.providers)) [
        | inl missing ↦ rw (missing, acquire_section) (o, refl)
        | inr (x, found) ↦ elim (Option-cases r.2) [
          | inr (b, got) ↦ rw (found, acquire_section, got) (open_after, rw got at same)
          | inl nothing ↦ elim (Bool-cases (leb_ℤ r.1.cfg.max_instances r.1.total)) [
            | inl full ↦ rw (found, acquire_section, nothing, full) (open_after, rw nothing at same)
            | inr room ↦
                rw (found, acquire_section, nothing, room) (open_after, ap inc (rw nothing at same))
          ]
        ]
      ]

  create_section-Acquired :
      (w : W) (t : BrowserType) (r : Result B) (p : Pool B P) (i : ℤ)
      → IsOpen p
      → p.in_use ≡ inc i
      → Acquired i (w, (create_section io t r p).0, (create_section io t r p).1)
  unfolding create_section
  create_section-Acquired w t (ok b) p i o u = (o, u)
  create_section-Acquired w t (err e) p i o u = (o, ap dec u ∙ dec-inc i)

  acquire_rest-Ends :
      (ctx : C) (opts : AcquireOpts) (wakes : List (Wake W (Pool B P))) (w : W) (p : Pool B P)
      (s : Section B P) (i : ℤ)
      → IsCalm wakes
      → Decided i (w, p, s)
      → Ends (Acquired i) (acquire_rest io ctx opts wakes w p s)
  unfolding acquire_rest
  acquire_rest-Ends ctx opts wakes w p no_provider i calm d = d
  acquire_rest-Ends ctx opts wakes w p (reused b) i calm d = d
  acquire_rest-Ends ctx opts wakes w p must_wait i calm (o, u) =
      wait_for_instance-Ends ctx opts.browser_type wakes w p i calm o u
  acquire_rest-Ends ctx opts wakes w p (must_create x) i calm (o, u) =
      create_section-Acquired (io.create w ctx x opts).0 opts.browser_type
        (io.create w ctx x opts).1 p i o u

  -- `Acquire` on an open pool returns, and leaves it open with one more browser in use, or with an
  -- error and as many.
  pub acquire-Ends :
      (ctx : C) (opts : AcquireOpts) (wakes : List (Wake W (Pool B P))) (w : W) (p : Pool B P)
      → IsCalm wakes
      → IsOpen p
      → Ends (Acquired p.in_use) (acquire io ctx opts wakes w p)
  unfolding acquire
  acquire-Ends ctx opts wakes w p calm o =
      let q = counted add_acquire_total p in
      let r = acquire_section io ctx opts w q in
      subst (Ends (Acquired p.in_use)) (sym (if_false p.closed _ _ o.0)) (
        acquire_rest-Ends ctx opts wakes r.0 r.1 r.2 p.in_use calm
          (acquire_section-Decided ctx opts w q o))

  -- `Release` on an open pool returns, and leaves it open with one browser less in use.
  pub release-Ends :
      (b : B) (last : Option Error) (w : W) (p : Pool B P)
      → IsOpen p
      → Ends (λ x. IsOpen x.1 × (x.1.in_use ≡ dec p.in_use)) (release io b last w p)
  unfolding release release_keep
  release-Ends b last w p (o, m) = elim (Option-cases p.instances) [
    | inl nil ↦ absurd (m nil)
    | inr (map, some_map) ↦ elim (Bool-cases (is_connection_error last)) [
      | inl broken ↦ simp (o, broken, release) ((refl, m), refl)
      | inr healthy ↦ simp (o, healthy, some_map, release, release_keep) ((refl, λ k. cc k), refl)
    ]
  ]
