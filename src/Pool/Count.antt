-- ===== src/Pool/Count.antt =====
-- How the operations of the pool change its two counters and the number of its idle instances.
use native.Mathlib.Nat.{add-zero}
use gox_browser.Prelude.{
  ◌+◌, List, Option, Option-cases, [], arith, inl, inr, insert, length, lookup, lookup-insert, none,
  some, ℕ, ◌∷◌, ◌≡◌, ap, refl, ◌↔◌, ◌∙◌, ◌≤◌,
}
use gox_browser.Types.{BrowserType}
use gox_browser.Pool.{Entry, Pool, count_entries, count_idle, idle_of, or_nil, set_idle, discard}
use gox_browser.Prelude.Int.{dec, dec-pos_suc, inc, inc-pos, pos, ℤ}
use gox_browser.Io.{Io}
use gox_browser.Pool.Acquire.{reuse}

-- How many instances a search hands out.
abbrev pub taken {ℓ} : {A : Type ℓ} → Option A → ℕ
taken none = 0
taken (some a) = 1

pub count_entries-insert :
    {B : Type 0} (t : BrowserType) (es : List (Entry B)) (m : List (BrowserType × List (Entry B)))
    → count_entries (insert t es m) + length (or_nil (lookup t m)) ≡ count_entries m + length es
count_entries-insert t es [] = omega arith
count_entries-insert t es ((j, v) ∷ m) = ground (arith, count_entries-insert t es m)

pub dec_eq : (i : ℤ) (n : ℕ) → i ≡ pos (n + 1) → dec i ≡ pos n
dec_eq i n e = rw e (dec-pos_suc n)

pub inc_eq : (i : ℤ) (n : ℕ) → i ≡ pos n → inc i ≡ pos (n + 1)
inc_eq i n e = rw e (inc-pos n)

module _ {B P : Type 0} where
  -- A popped entry.
  pub count_idle-pop :
      (p : Pool B P) (t : BrowserType) (e : Entry B) (rest : List (Entry B))
      → idle_of p t ≡ e ∷ rest
      → (count_idle p ≡ count_idle (set_idle t rest p) + 1) × (idle_of (set_idle t rest p) t ≡ rest)
  count_idle-pop p t e rest h = elim (Option-cases p.instances) [
    | inl nil ↦ ground (arith, nil)
    | inr (m, some_m) ↦ ground (arith, count_entries-insert t rest m, lookup-insert t t rest m)
  ]

  -- `held` instances stand outside the idle lists, and `total` counts them with `more` and the idle.
  pub record Tally (p : Pool B P) (held more : ℕ) : Type 0 where
    pub in_use_eq : p.in_use ≡ pos held
    pub total_eq : p.total ≡ pos (held + more + count_idle p)

  -- What no operation but `Register` and `Close` changes: the settings, and whether the pool is open.
  pub record Kept (p q : Pool B P) : Type 0 where
    pub cfg_eq : q.cfg ≡ p.cfg
    pub closed_eq : q.closed ≡ p.closed
    pub open_eq : (q.instances ≡ none) ↔ (p.instances ≡ none)

  pub Kept-refl : (p : Pool B P) → Kept p p
  Kept-refl p = record { cfg_eq = refl; closed_eq = refl; open_eq = ((λ h. h), (λ h. h)) }

  pub Kept-trans : (p q r : Pool B P) → Kept p q → Kept q r → Kept p r
  Kept-trans p q r k l = record {
    cfg_eq = l.cfg_eq ∙ k.cfg_eq;
    closed_eq = l.closed_eq ∙ k.closed_eq;
    open_eq = ((λ h. k.open_eq.0 (l.open_eq.0 h)), (λ h. l.open_eq.1 (k.open_eq.1 h)));
  }

  -- A new idle list for one type.
  pub set_idle-Kept :
      (p q : Pool B P) (t : BrowserType) (es : List (Entry B))
      → q.cfg ≡ p.cfg
      → q.closed ≡ p.closed
      → q.instances ≡ (set_idle t es p).instances
      → Kept p q
  set_idle-Kept p q t es c d h = elim (Option-cases p.instances) [
    | inl nil ↦ record { cfg_eq = c; closed_eq = d; open_eq = ((λ _. nil), (λ _. cc (h, nil))) }
    | inr (m, some_m) ↦ record {
      cfg_eq = c;
      closed_eq = d;
      open_eq = ((λ k. ground (arith, some_m)), (λ k. ground (arith, some_m)));
    }
  ]

  discard-Tally :
      (p : Pool B P) (t : BrowserType) (e : Entry B) (rest : List (Entry B)) (held more : ℕ)
      → idle_of p t ≡ e ∷ rest
      → Tally p held more
      → Tally (discard (set_idle t rest p)) held more
  discard-Tally p t e rest held more h v =
      let popped = (count_idle-pop p t e rest h).0 in
      record {
        in_use_eq = v.in_use_eq;
        total_eq =
            dec_eq p.total (held + more + count_idle (set_idle t rest p))
              (v.total_eq ∙ ap pos (omega arith));
      }

  take-Tally :
      (p : Pool B P) (t : BrowserType) (e : Entry B) (rest : List (Entry B)) (held more : ℕ)
      → idle_of p t ≡ e ∷ rest
      → Tally p held more
      → Tally (record (set_idle t rest p) { in_use = inc p.in_use }) (held + 1) more
  take-Tally p t e rest held more h v =
      let popped = (count_idle-pop p t e rest h).0 in
      record {
        in_use_eq = inc_eq p.in_use held v.in_use_eq;
        total_eq = v.total_eq ∙ ap pos (omega arith);
      }

module _ {W B P C : Type 0} (io : Io W B P C) where
  -- A search keeps the tally: what it hands out is held, what it throws away is counted no more.
  pub reuse-Tally :
      (ctx : C) (t : BrowserType) (es : List (Entry B)) (w : W) (p : Pool B P) (held more : ℕ)
      → idle_of p t ≡ es
      → Tally p held more
      → let r = reuse io ctx t es w p in
        Tally r.1 (held + taken r.2) more × Kept p r.1 × (count_idle r.1 + taken r.2 ≤ count_idle p)
  unfolding reuse
  reuse-Tally ctx t [] w p held more h v = (rw add-zero v, Kept-refl p, omega arith)
  reuse-Tally ctx t (e ∷ rest) w p held more h v =
      let ping = io.title w (io.with_timeout ctx p.cfg.ping_timeout) e.browser in
      let popped = set_idle t rest p in
      let (fewer, again) = count_idle-pop p t e rest h in
      let ih =
        reuse-Tally ctx t rest (io.close ping.0 e.browser).0 (discard popped) held more again
          (discard-Tally p t e rest held more h v) in
      elim (Option-cases ping.2) [
        | inl alive ↦
            rw (alive, reuse)
              (
                take-Tally p t e rest held more h v,
                set_idle-Kept p _ t rest refl refl refl,
                omega arith,
              )
        | inr (error, dead) ↦
            rw (dead, reuse)
              (
                ih.0,
                Kept-trans p (discard popped) _
                    (set_idle-Kept p (discard popped) t rest refl refl refl) ih.1,
                omega arith,
              )
      ]
