-- ===== src/Pool/Tallies.antt =====
-- The tally of instances through each locked section of browser/pool.go.
use native.Mathlib.Nat.{add-zero}
use gox_browser.Prelude.{
  ◌+◌, Bool-cases, List, Option-cases, [], ap, arith, inl, inr, length, refl, ℕ, ◌∙◌, ◌∷◌, ◌≡◌,
  lookup, false, ◌≤◌, subst, insert, some,
}
use gox_browser.Types.{AcquireOpts, BrowserType, PoolConfig}
use gox_browser.Pool.{
  Entry, Pool, Section, count_entries, must_create, must_wait, no_provider, reused, idle_of,
  count_idle, finished, or_nil,
}
use gox_browser.Io.{Io}
use gox_browser.Pool.Count.{
  Kept-refl, dec_eq, Tally, Kept, reuse-Tally, taken, inc_eq, count_entries-insert,
}
use gox_browser.Pool.Acquire.{acquire_section, reuse}
use gox_browser.Pool.Evict.{evict_entries, evict_idle, evict_types}
use gox_browser.Prelude.Int.{ltb_ℤ, pos, sub_ℕ, leb_ℤ, negsuc, pos_part, ℤ, inc, dec}
use gox_browser.Pool.Release.{release_keep}

-- What an instance that is thrown away leaves as it was.
record Spared {B P : Type 0} (p q : Pool B P) : Type 0 where
  in_use_eq : q.in_use ≡ p.in_use
  cfg_eq : q.cfg ≡ p.cfg
  closed_eq : q.closed ≡ p.closed
  instances_eq : q.instances ≡ p.instances

Spared-refl : {B P : Type 0} (p : Pool B P) → Spared p p
Spared-refl p = record { in_use_eq = refl; cfg_eq = refl; closed_eq = refl; instances_eq = refl }

Spared-trans : {B P : Type 0} {p q r : Pool B P} → Spared p q → Spared q r → Spared p r
Spared-trans k l = record {
  in_use_eq = l.in_use_eq ∙ k.in_use_eq;
  cfg_eq = l.cfg_eq ∙ k.cfg_eq;
  closed_eq = l.closed_eq ∙ k.closed_eq;
  instances_eq = l.instances_eq ∙ k.instances_eq;
}

-- What the locked section of `Acquire` holds for its caller afterwards.
abbrev pub granted : {B P : Type 0} → Section B P → ℕ
granted no_provider = 0
granted (reused b) = 1
granted must_wait = 0
granted (must_create x) = 1

module _ {W B P C : Type 0} (io : Io W B P C) where
  evict_entries-total :
      (now : ℕ) (es : List (Entry B)) (w : W) (p : Pool B P) (n : ℕ)
      → p.total ≡ pos (n + length es)
      → let r = evict_entries io now es w p in
        (r.1.total ≡ pos (n + length r.2)) × Spared p r.1 × (length r.2 ≤ length es)
  unfolding evict_entries
  evict_entries-total now [] w p n h = (h, Spared-refl p, omega arith)
  evict_entries-total now (e ∷ older) w p n h =
      let ih = evict_entries-total now older w p (n + 1) (h ∙ ap pos (omega arith)) in
      elim (Bool-cases (ltb_ℤ p.cfg.idle_timeout (sub_ℕ now e.last_used))) [
        | inl stale ↦
            rw (stale, evict_entries)
              (
                dec_eq _ (n + length (evict_entries io now older w p).2)
                    (ih.0 ∙ ap pos (omega arith)),
                Spared-trans ih.1 (record {
                  in_use_eq = refl;
                  cfg_eq = refl;
                  closed_eq = refl;
                  instances_eq = refl;
                }),
                omega arith,
              )
        | inr fresh ↦ rw (fresh, evict_entries) (ih.0 ∙ ap pos (omega arith), ih.1, omega arith)
      ]

  evict_types-total :
      (now : ℕ) (m : List (BrowserType × List (Entry B))) (w : W) (p : Pool B P) (n : ℕ)
      → p.total ≡ pos (n + count_entries m)
      → let r = evict_types io now m w p in
        (r.1.total ≡ pos (n + count_entries r.2))
        × Spared p r.1
        × (count_entries r.2 ≤ count_entries m)
  unfolding evict_types
  evict_types-total now [] w p n h = (h, Spared-refl p, omega arith)
  evict_types-total now ((t, es) ∷ m) w p n h =
      let one = evict_entries io now es w p in
      let first = evict_entries-total now es w p (n + count_entries m) (h ∙ ap pos (omega arith)) in
      let rest =
        evict_types-total now m one.0 one.1 (n + length one.2) (first.0 ∙ ap pos (omega arith)) in
      (rest.0 ∙ ap pos (omega arith), Spared-trans first.1 rest.1, omega arith)

  -- Eviction keeps the tally, and no list gets longer.
  pub evict_idle-Tally :
      (w : W) (p : Pool B P) (held more : ℕ)
      → Tally p held more
      → let q = (evict_idle io w p).1 in
        Tally q held more × Kept p q × (count_idle q ≤ count_idle p)
  unfolding evict_idle
  evict_idle-Tally w p held more v = elim (Option-cases p.instances) [
    | inl nil ↦ simp (nil, evict_idle) (v, Kept-refl p, omega arith)
    | inr (m, some_m) ↦
        let all : count_idle p ≡ count_entries m = ground (arith, some_m) in
        let (total, spared, fewer) =
          evict_types-total (io.now w) m w p (held + more)
            (v.total_eq ∙ ap pos (omega (arith, all))) in
        simp (some_m, evict_idle)
          (
            record { in_use_eq = spared.in_use_eq ∙ v.in_use_eq; total_eq = total },
            record {
              cfg_eq = spared.cfg_eq;
              closed_eq = spared.closed_eq;
              open_eq = ((λ k. cc k), (λ k. cc (k, some_m)));
            },
            omega arith,
          )
  ]

  full_or_room : (max : ℤ) (n : ℕ) → leb_ℤ max (pos n) ≡ false → n + 1 ≤ pos_part max
  full_or_room (pos m) n h = ground arith
  full_or_room (negsuc m) n h = ground arith

  -- One more instance, below the limit.
  grow-Tally :
      (p : Pool B P) (held more : ℕ)
      → Tally p held more
      → leb_ℤ p.cfg.max_instances p.total ≡ false
      → Tally (record p { total = inc p.total; in_use = inc p.in_use }) (held + 1) more
        × (held + 1 + more + count_idle p ≤ pos_part p.cfg.max_instances)
  grow-Tally p held more v room = (
    record {
      in_use_eq = inc_eq p.in_use held v.in_use_eq;
      total_eq = inc_eq p.total (held + more + count_idle p) v.total_eq ∙ ap pos (omega arith);
    },
    omega (
      arith,
      full_or_room p.cfg.max_instances (held + more + count_idle p) (rw v.total_eq at room),
    ),
  )

  -- The locked section of `Acquire` keeps the tally and the limit: it makes room for one more
  -- instance only below the limit.
  pub acquire_section-Tally :
      (ctx : C) (opts : AcquireOpts) (w : W) (p : Pool B P) (held more : ℕ)
      → Tally p held more
      → held + more + count_idle p ≤ pos_part p.cfg.max_instances
      → let r = acquire_section io ctx opts w p in
        Tally r.1 (held + granted r.2) more
        × Kept p r.1
        × (held + granted r.2 + more + count_idle r.1 ≤ pos_part p.cfg.max_instances)
  unfolding acquire_section
  acquire_section-Tally ctx opts w p held more v below =
      let t = opts.browser_type in
      let r = reuse io ctx t (idle_of p t) w p in
      let (tally, kept, fewer) = reuse-Tally io ctx t (idle_of p t) w p held more refl v in
      elim (Option-cases (lookup t p.providers)) [
        | inl missing ↦ rw (missing, acquire_section) (rw add-zero v, Kept-refl p, omega arith)
        | inr (x, found) ↦ elim (Option-cases r.2) [
          | inr (b, got) ↦
              rw (found, acquire_section, got) (rw got at tally, kept, ground (arith, ap taken got))
          | inl nothing ↦ elim (Bool-cases (leb_ℤ r.1.cfg.max_instances r.1.total)) [
            | inl full ↦
                rw (found, acquire_section, nothing, full)
                  (rw nothing at tally, kept, ground (arith, ap taken nothing))
            | inr room ↦
                rw (found, acquire_section, nothing, room)
                  (let (grown, fits) =
                      grow-Tally r.1 held more (rw add-zero at (rw nothing at tally)) room in
                    (
                      grown,
                      record {
                        cfg_eq = kept.cfg_eq;
                        closed_eq = kept.closed_eq;
                        open_eq = kept.open_eq;
                      },
                      subst
                          (λ (c : PoolConfig).
                            held + 1 + more + count_idle r.1 ≤ pos_part c.max_instances)
                          kept.cfg_eq fits,
                    ))
          ]
        ]
      ]

  pub release_keep_open :
      (w : W) (b : B) (p : Pool B P) (m : List (BrowserType × List (Entry B)))
      → p.instances ≡ some m
      → release_keep io w b p
        ≡ finished (record p {
          in_use = dec p.in_use;
          instances = some (
              insert
                (io.browser_type b)
                (record { browser = b; last_used = io.now w }
                  ∷ or_nil (lookup (io.browser_type b) m))
                m);
        })
  unfolding release_keep
  release_keep_open w b p m e = simp (e, release_keep)

  -- The locked section of `Release` moves one browser from outside to the idle lists.
  pub release_keep-Tally :
      (w : W) (b : B) (p q : Pool B P) (held more : ℕ)
      → release_keep io w b p ≡ finished q
      → Tally p (held + 1) more
      → Tally q held more × Kept p q × (count_idle q ≡ count_idle p + 1)
  unfolding release_keep
  release_keep-Tally w b p q held more h v = elim (Option-cases p.instances) [
    | inl nil ↦ absurd (ground (arith, nil))
    | inr (m, some_m) ↦
        let t = io.browser_type b in
        let entries = record { browser = b; last_used = io.now w } ∷ or_nil (lookup t m) in
        let counted_m = count_entries-insert t entries m in
        let before : count_idle p ≡ count_entries m = ground (arith, some_m) in
        let eq : q ≡ record p { in_use = dec p.in_use; instances = some (insert t entries m) } =
          cc (release_keep_open w b p m some_m, h) in
        rw eq (
          record {
            in_use_eq = dec_eq p.in_use held v.in_use_eq;
            total_eq = v.total_eq ∙ ap pos (omega (arith, before, counted_m));
          },
          record {
            cfg_eq = refl;
            closed_eq = refl;
            open_eq = ((λ k. cc k), (λ k. cc (k, some_m)));
          },
          omega (arith, before, counted_m),
        )
  ]
