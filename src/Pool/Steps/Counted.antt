-- ===== src/Pool/Steps/Counted.antt =====
-- The counters of the pool under every interleaving of its callers (browser/pool.go).
use gox_browser.Prelude.{
  ◌+◌, ◌++◌, List, ap, arith, false, length, length-append, none, subst, sym, true, ℕ, ◌∙◌, ◌∷◌,
  ◌≡◌, ◌≤◌, refl, Option, some,
}
use gox_browser.Io.{Io}
use gox_browser.Pool.Count.{Kept, Tally, dec_eq, reuse-Tally, taken}
use gox_browser.Pool.{
  Pool, count_idle, register, Section, counted, idle_of, must_create, must_wait, no_provider,
  reused,
}
use gox_browser.Types.{PoolConfig, AcquireOpts, BrowserType}
use gox_browser.Pool.Steps.{
  System, Step, entered, handed, polled, settled, outside, registers, enters, polls, creates,
  create_fails, clears, closes, drops, evicts, gives_back, gives_back_broken, gives_back_late,
  keeps,
}
use gox_browser.Pool.Evict.{close_section}
use gox_browser.Pool.Acquire.{create_section, acquire_section, reuse}
use gox_browser.Prelude.Int.{pos, pos_part, dec}
use gox_browser.Pool.Release.{release_keep}
use gox_browser.Pool.Tallies.{acquire_section-Tally, evict_idle-Tally, granted, release_keep-Tally}
use gox_browser.Metrics.{add_acquire_total}

length-split :
    {A : Type 0} (xs : List A) (x : A) (pre post : List A)
    → xs ≡ pre ++ x ∷ post
    → length xs ≡ length (pre ++ post) + 1
length-split xs x pre post e =
    ap length e ∙ omega (arith, length-append pre (x ∷ post), length-append pre post)

count_idle-cong :
    {B P : Type 0} (p q : Pool B P) → q.instances ≡ p.instances → count_idle q ≡ count_idle p
count_idle-cong p q e = ap (λ i. count_idle (record p { instances = i })) e

-- Another pool with the same counters and lists.
Tally-shift :
    {B P : Type 0} (p q : Pool B P) (held held' more : ℕ)
    → Tally p held more
    → q.in_use ≡ p.in_use
    → q.total ≡ p.total
    → q.instances ≡ p.instances
    → held ≡ held'
    → Tally q held' more
Tally-shift p q held held' more v a b c e =
    subst (λ h. Tally q h more) e
      (record {
        in_use_eq = a ∙ v.in_use_eq;
        total_eq = b ∙ v.total_eq ∙ ap pos (omega (arith, count_idle-cong p q c));
      })

-- One browser less, that was outside.
Tally-drop :
    {B P : Type 0} (p q : Pool B P) (held held' more : ℕ)
    → Tally p held more
    → q.in_use ≡ dec p.in_use
    → q.total ≡ dec p.total
    → q.instances ≡ p.instances
    → held ≡ held' + 1
    → Tally q held' more
Tally-drop p q held held' more v a b c e = record {
  in_use_eq = a ∙ dec_eq p.in_use held' (v.in_use_eq ∙ ap pos e);
  total_eq =
      b
      ∙ dec_eq p.total (held' + more + count_idle q)
          (v.total_eq ∙ ap pos (omega (arith, count_idle-cong p q c)));
}

length-handed :
    {B : Type 0} (o : Option B) (bs : List B) → length (handed o bs) ≡ length bs + taken o
length-handed none bs = omega arith
length-handed (some b) bs = omega arith

module _ {W B P : Type 0} where
  -- The browsers outside the idle lists that the counters of the pool keep.
  abbrev pub out : System W B P → ℕ
  out s = s.creating + length s.held + length s.returning + length s.broken + s.late

  pub record Counted (s : System W B P) : Type 0 where
    pub tally : Tally s.pool (out s) s.shut
    pub within : out s + s.shut + count_idle s.pool ≤ pos_part s.pool.cfg.max_instances
    pub open_late : s.pool.closed ≡ false → s.late ≡ 0
    pub open_shut : s.pool.closed ≡ false → s.shut ≡ 0
    pub open_map : s.pool.instances ≡ none → s.pool.closed ≡ true

  carry :
      (s u : System W B P)
      → Counted s
      → Tally u.pool (out u) u.shut
      → Kept s.pool u.pool
      → out u + u.shut + count_idle u.pool ≤ pos_part s.pool.cfg.max_instances
      → u.late ≡ s.late
      → u.shut ≡ s.shut
      → Counted u
  carry s u c v k b l h = record {
    tally = v;
    within =
        subst (λ (x : PoolConfig). out u + u.shut + count_idle u.pool ≤ pos_part x.max_instances)
          (sym k.cfg_eq) b;
    open_late = λ o. l ∙ c.open_late (sym k.closed_eq ∙ o);
    open_shut = λ o. h ∙ c.open_shut (sym k.closed_eq ∙ o);
    open_map = λ o. k.closed_eq ∙ c.open_map (k.open_eq.0 o);
  }

  -- Same counters and lists, and as many browsers outside.
  recount :
      (s u : System W B P)
      → Counted s
      → u.pool.in_use ≡ s.pool.in_use
      → u.pool.total ≡ s.pool.total
      → u.pool.cfg ≡ s.pool.cfg
      → u.pool.closed ≡ s.pool.closed
      → u.pool.instances ≡ s.pool.instances
      → u.late ≡ s.late
      → u.shut ≡ s.shut
      → out s ≡ out u
      → Counted u
  recount s u c a b g d i l h e =
      carry s u c (Tally-shift s.pool u.pool (out s) (out u) u.shut (rw h c.tally) a b i e)
        (record { cfg_eq = g; closed_eq = d; open_eq = ((λ k. sym i ∙ k), (λ k. i ∙ k)) })
        (omega (arith, count_idle-cong s.pool u.pool i, c.within)) l h

  settled-Counted :
      (sec : Section B P) (s : System W B P)
      → Tally s.pool (out s + granted sec) s.shut
      → out s + granted sec + s.shut + count_idle s.pool ≤ pos_part s.pool.cfg.max_instances
      → (s.pool.closed ≡ false → (s.late ≡ 0) × (s.shut ≡ 0))
      → (s.pool.instances ≡ none → s.pool.closed ≡ true)
      → Counted (settled sec s)
  settled-Counted no_provider s v b o m = record {
    tally = Tally-shift s.pool _ (out s + 0) (out s) s.shut v refl refl refl (omega arith);
    within = omega arith;
    open_late = λ k. (o k).0;
    open_shut = λ k. (o k).1;
    open_map = m;
  }
  settled-Counted (reused x) s v b o m = record {
    tally = Tally-shift s.pool _ (out s + 1) _ s.shut v refl refl refl (omega arith);
    within = omega arith;
    open_late = λ k. (o k).0;
    open_shut = λ k. (o k).1;
    open_map = m;
  }
  settled-Counted must_wait s v b o m = record {
    tally = Tally-shift s.pool _ (out s + 0) (out s) s.shut v refl refl refl (omega arith);
    within = omega arith;
    open_late = λ k. (o k).0;
    open_shut = λ k. (o k).1;
    open_map = m;
  }
  settled-Counted (must_create x) s v b o m = record {
    tally = Tally-shift s.pool _ (out s + 1) _ s.shut v refl refl refl (omega arith);
    within = omega arith;
    open_late = λ k. (o k).0;
    open_shut = λ k. (o k).1;
    open_map = m;
  }

module _ {W B P C : Type 0} (io : Io W B P C) where
  enters-Counted :
      (ctx : C) (opts : AcquireOpts) (s : System W B P)
      → Counted s
      → Counted (entered io ctx opts s)
  enters-Counted ctx opts s c =
      let p = counted add_acquire_total s.pool in
      let r = acquire_section io ctx opts s.world p in
      let (v, k, b) =
        acquire_section-Tally io ctx opts s.world p (out s) s.shut
          (Tally-shift s.pool p (out s) (out s) s.shut c.tally refl refl refl refl) c.within in
      settled-Counted r.2 (record s { world = r.0; pool = r.1 }) v
        (subst
          (λ (x : PoolConfig).
            out s + granted r.2 + s.shut + count_idle r.1 ≤ pos_part x.max_instances)
          (sym k.cfg_eq) b)
        (λ o. (c.open_late (sym k.closed_eq ∙ o), c.open_shut (sym k.closed_eq ∙ o)))
        (λ o. k.closed_eq ∙ c.open_map (k.open_eq.0 o))

  polls-Counted :
      (ctx : C) (t : BrowserType) (s : System W B P) → Counted s → Counted (polled io ctx t s)
  polls-Counted ctx t s c =
      let r = reuse io ctx t (idle_of s.pool t) s.world s.pool in
      let (v, k, b) =
        reuse-Tally io ctx t (idle_of s.pool t) s.world s.pool (out s) s.shut refl c.tally in
      let grown : length (handed r.2 s.held) ≡ length s.held + taken r.2 =
        length-handed r.2 s.held in
      carry s (polled io ctx t s) c
        (Tally-shift r.1 r.1 (out s + taken r.2) (out (polled io ctx t s)) s.shut v refl refl refl
          (omega arith))
        k (omega (arith, c.within)) refl refl

  pub Step-Counted : (s u : System W B P) → Step io s u → Counted s → Counted u
  unfolding create_section register release_keep close_section
  Step-Counted s u (outside w e) c =
      subst Counted (sym e) (recount s _ c refl refl refl refl refl refl refl refl)
  Step-Counted s u (registers x e) c =
      subst Counted (sym e) (recount s _ c refl refl refl refl refl refl refl refl)
  Step-Counted s u (enters ctx opts e) c = subst Counted (sym e) (enters-Counted ctx opts s c)
  Step-Counted s u (polls ctx t e) c = subst Counted (sym e) (polls-Counted ctx t s c)
  Step-Counted s u (creates t b n some_n e) c =
      subst Counted (sym e) (recount s _ c refl refl refl refl refl refl refl (omega arith))
  Step-Counted s u (create_fails t error n some_n e) c = subst Counted (sym e) (
      carry s _ c (Tally-drop s.pool _ (out s) _ s.shut c.tally refl refl refl (omega arith))
        (record { cfg_eq = refl; closed_eq = refl; open_eq = ((λ k. k), (λ k. k)) })
        (omega (arith, c.within)) refl refl)
  Step-Counted s u (gives_back b pre post h o e) c = subst Counted (sym e) (
      recount s _ c refl refl refl refl refl refl refl
        (omega (arith, length-split s.held b pre post h)))
  Step-Counted s u (gives_back_broken b pre post h o e) c = subst Counted (sym e) (
      recount s _ c refl refl refl refl refl refl refl
        (omega (arith, length-split s.held b pre post h)))
  Step-Counted s u (gives_back_late b pre post h o e) c = subst Counted (sym e) (record {
    tally =
        Tally-shift s.pool s.pool (out s) _ s.shut c.tally refl refl refl
          (omega (arith, length-split s.held b pre post h));
    within = omega (arith, c.within, length-split s.held b pre post h);
    open_late = λ k. cc (o, k);
    open_shut = λ k. cc (o, k);
    open_map = c.open_map;
  })
  Step-Counted s u (keeps b pre post p h done e) c =
      let held = s.creating + length s.held + length (pre ++ post) + length s.broken + s.late in
      let fewer = length-split s.returning b pre post h in
      let (v, k, grown) = release_keep-Tally io s.world b s.pool p held s.shut done (
        Tally-shift s.pool s.pool (out s) (held + 1) s.shut c.tally refl refl refl
          (omega (arith, fewer))) in
      subst Counted (sym e) (carry s _ c v k (omega (arith, c.within, fewer)) refl refl)
  Step-Counted s u (drops b pre post h e) c = subst Counted (sym e) (
      carry s _ c
        (Tally-drop s.pool _ (out s) _ s.shut c.tally refl refl refl
          (omega (arith, length-split s.broken b pre post h)))
        (record { cfg_eq = refl; closed_eq = refl; open_eq = ((λ k. k), (λ k. k)) })
        (omega (arith, c.within, length-split s.broken b pre post h)) refl refl)
  Step-Counted s u (evicts e) c =
      let (v, k, b) = evict_idle-Tally io s.world s.pool (out s) s.shut c.tally in
      subst Counted (sym e) (carry s _ c v k (omega (arith, c.within)) refl refl)
  Step-Counted s u (closes o e) c = subst Counted (sym e) (record {
    tally = Tally-shift s.pool _ (out s) (out s) s.shut c.tally refl refl refl refl;
    within = c.within;
    open_late = λ k. cc k;
    open_shut = λ k. cc k;
    open_map = λ k. refl;
  })
  Step-Counted s u (clears o e) c = subst Counted (sym e) (record {
    tally = record {
      in_use_eq = c.tally.in_use_eq;
      total_eq = c.tally.total_eq ∙ ap pos (omega arith);
    };
    within = omega (arith, c.within);
    open_late = λ k. cc (o, k);
    open_shut = λ k. cc (o, k);
    open_map = λ k. o;
  })
