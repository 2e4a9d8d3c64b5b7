-- ===== src/Pool/Eviction.antt =====
-- Which idle instances the health check keeps (browser/pool.go).
use gox_browser.Prelude.{
  Bool, Bool-cases, List, [], ap, if◌then◌else◌, inl, inr, lookup, not, refl, ℕ, ◌∷◌, ◌≡◌, ◌==◌,
  Option-cases, subst, arith, sym, ◌∙◌,
}
use gox_browser.Types.{BrowserType, PoolConfig}
use gox_browser.Pool.{Entry, Pool, or_nil, idle_of}
use gox_browser.Io.{Io}
use gox_browser.Pool.Evict.{evict_entries, evict_types, evict_idle}
use gox_browser.Prelude.Int.{ltb_ℤ, sub_ℕ, ℤ}

abbrev pub is_fresh : {B : Type 0} → ℤ → ℕ → Entry B → Bool
is_fresh limit now e = not (ltb_ℤ limit (sub_ℕ now e.last_used))

abbrev pub keep {ℓ} : {A : Type ℓ} → (A → Bool) → List A → List A
keep f [] = []
keep f (x ∷ xs) = if f x then x ∷ keep f xs else keep f xs

module _ {W B P C : Type 0} (io : Io W B P C) where
  evict_entries-keep :
      (now : ℕ) (es : List (Entry B)) (w : W) (p : Pool B P)
      → let r = evict_entries io now es w p in
        (r.2 ≡ keep (is_fresh p.cfg.idle_timeout now) es) × (r.1.cfg ≡ p.cfg)
  unfolding evict_entries
  evict_entries-keep now [] w p = (refl, refl)
  evict_entries-keep now (e ∷ older) w p =
      let (kept, same) = evict_entries-keep now older w p in
      elim (Bool-cases (ltb_ℤ p.cfg.idle_timeout (sub_ℕ now e.last_used))) [
        | inl stale ↦ rw (stale, evict_entries) (kept, same)
        | inr fresh ↦ rw (fresh, evict_entries) (ap (◌∷◌ e) kept, same)
      ]

  evict_types-keep :
      (now : ℕ) (m : List (BrowserType × List (Entry B))) (w : W) (p : Pool B P) (t : BrowserType)
      → or_nil (lookup t (evict_types io now m w p).2)
        ≡ keep (is_fresh p.cfg.idle_timeout now) (or_nil (lookup t m))
  unfolding evict_types
  evict_types-keep now [] w p t = refl
  evict_types-keep now ((j, es) ∷ m) w p t =
      let one = evict_entries io now es w p in
      let (kept, same) = evict_entries-keep now es w p in
      let later =
        subst
          (λ (c : PoolConfig).
            or_nil (lookup t (evict_types io now m one.0 one.1).2)
            ≡ keep (is_fresh c.idle_timeout now) (or_nil (lookup t m)))
          same (evict_types-keep now m one.0 one.1 t) in
      elim (Bool-cases (j == t)) [ inl hit ↦ rw hit kept | inr miss ↦ rw miss later ]

  -- The health check keeps, for every type and in their order, exactly the idle instances that have
  -- not been idle for longer than the limit.
  pub evict_idle_keeps :
      (w : W) (p : Pool B P) (t : BrowserType)
      → idle_of (evict_idle io w p).1 t
        ≡ keep (is_fresh p.cfg.idle_timeout (io.now w)) (idle_of p t)
  unfolding evict_idle
  evict_idle_keeps w p t = elim (Option-cases p.instances) [
    | inl nil ↦ ground (arith, nil)
    | inr (m, some_m) ↦
        let listed : idle_of p t ≡ or_nil (lookup t m) = ground (arith, some_m) in
        simp (some_m, evict_idle)
          (evict_types-keep (io.now w) m w p t
            ∙ ap (keep (is_fresh p.cfg.idle_timeout (io.now w))) (sym listed))
  ]
