-- ===== src/Driver/Intercept/Decisions.antt =====
-- What the handlers of the two drivers block (browser/rod/provider.go,
-- browser/browserless/provider.go).
use mathlib.Core.List.{Memᴰ}
use mathlib.Core.List.{reverse, reverse-append, reverse-reverse}
use gox_browser.Prelude.{
  ◌++◌, List, any_complete, any_sound, ap, inl, inr, or-eq_true, or_true, refl, subst, sym, true,
  ◌↔◌, ◌∷◌, ◌≡◌, ◌⊎◌, ◌&&◌, Bool, [], false, if◌then◌else◌, not, arith,
}
use gox_browser.Prelude.Text.{
  Text, eq_text, eq_text_refl, eq_text_sound, has_prefix-append, has_prefix_sound,
}
use gox_browser.Prelude.Strings.{has_suffix}
use gox_browser.Driver.Intercept.{
  is_allowed_script_domain, is_listed, is_of_domain, InterceptConfig, browserless_decision,
  rod_decision, script_kind,
}
use gox_browser.Fetch.Attempts.{kinds}
use gox_browser.Router.Health.{Asked}
use gox_browser.Driver.{Decision, Request, block, let_pass}

has_suffix_sound : (s p : Text) → has_suffix s p ≡ true → (a : Text) × (s ≡ a ++ p)
unfolding has_suffix
has_suffix_sound s p h =
    let (t, e) = has_prefix_sound (reverse s) (reverse p) h in
    (
      reverse t,
      cc (reverse-reverse s, ap reverse e, reverse-append (reverse p) t, reverse-reverse p),
    )

has_suffix-append : (a p : Text) → has_suffix (a ++ p) p ≡ true
unfolding has_suffix
has_suffix-append a p = rw (reverse-append a p) (has_prefix-append (reverse p) (reverse a))

-- The host is the domain itself or stands below it.
abbrev pub IsOfDomain : Text → Text → Type 0
IsOfDomain host domain = (host ≡ domain) ⊎ ((a : Text) × (host ≡ a ++ b'.' ∷ domain))

is_of_domain_iff : (host domain : Text) → (is_of_domain host domain ≡ true) ↔ IsOfDomain host domain
is_of_domain_iff host domain = (
  (λ h. elim (or-eq_true (eq_text host domain) (has_suffix host (b'.' ∷ domain)) h) [
    | inl same ↦ inl (eq_text_sound host domain same)
    | inr below ↦ inr (has_suffix_sound host (b'.' ∷ domain) below)
  ]),
  (λ h. elim h [
    | inl same ↦ rw (same, eq_text_refl domain) refl
    | inr (a, below) ↦ rw (below, has_suffix-append a (b'.' ∷ domain)) (or_true _)
  ]),
)

-- The host is of one of the domains.
abbrev pub IsAllowed : Text → List Text → Type 0
IsAllowed host allowed = (domain : Text) × Memᴰ domain allowed × IsOfDomain host domain

is_allowed_script_domain_iff :
    (host : Text) (allowed : List Text)
    → (is_allowed_script_domain host allowed ≡ true) ↔ IsAllowed host allowed
unfolding is_allowed_script_domain
is_allowed_script_domain_iff host allowed = (
  (λ h.
      let (d, m, hit) = any_sound (is_of_domain host) allowed h in
      (d, m, (is_of_domain_iff host d).0 hit)),
  (λ (d, m, of). any_complete (is_of_domain host) allowed d m ((is_of_domain_iff host d).1 of)),
)

is_listed_iff : (kind : Text) (kinds : List Text) → (is_listed kind kinds ≡ true) ↔ Memᴰ kind kinds
unfolding is_listed
is_listed_iff kind kinds = (
  (λ h.
      let (k, m, hit) = any_sound (eq_text kind) kinds h in
      subst (λ x. Memᴰ x kinds) (sym (eq_text_sound kind k hit)) m),
  (λ m. any_complete (eq_text kind) kinds kind m (eq_text_refl kind)),
)

abbrev decided : Bool → Bool → Bool → Bool → Decision
decided listed third asked allowed =
    if listed
    then block
    else if third && asked
    then (if allowed then let_pass else block)
    else let_pass

decided_iff :
    (listed third asked allowed : Bool)
    → (decided listed third asked allowed ≡ block)
      ↔ ((listed ≡ true) ⊎ ((third ≡ true) × (asked ≡ true) × (allowed ≡ false)))
decided_iff true third asked allowed = ((λ h. inl refl), (λ h. refl))
decided_iff false true true true = (ground arith, ground arith)
decided_iff false true true false = ((λ h. inr (refl, refl, refl)), (λ h. refl))
decided_iff false true false allowed = (ground arith, ground arith)
decided_iff false false asked allowed = (ground arith, ground arith)

false_iff : (b : Bool) (P : Type 0) → (b ≡ true) ↔ P → (b ≡ false) ↔ ¬ P
false_iff true P (to, from) = ((λ h. absurd (ground arith)), (λ h. absurd (h (to refl))))
false_iff false P (to, from) = ((λ h p. ground (arith, from p)), (λ h. refl))

host_given : (host : Text) → (not (eq_text host []) ≡ true) ↔ ¬ (host ≡ [])
unfolding eq_text
host_given [] = ((λ h. absurd (ground arith)), (λ h. absurd (h refl)))
host_given (c ∷ s) = ((λ h e. ground arith), (λ h. refl))

-- A request is listed, or a test of the third party fails.
abbrev pub IsBlocked : InterceptConfig → Request → Type 0 → Type 0
IsBlocked cfg r Asked =
    Memᴰ r.kind cfg.block_resources
    ⊎ ((cfg.block_third_party_script ≡ true)
        × Asked
        × ¬ IsAllowed r.host cfg.allowed_script_domains)

blocked_iff :
    (cfg : InterceptConfig) (r : Request) (asked : Bool) (Asked : Type 0)
    → (asked ≡ true) ↔ Asked
    → (decided
          (is_listed r.kind cfg.block_resources)
          cfg.block_third_party_script
          asked
          (is_allowed_script_domain r.host cfg.allowed_script_domains)
        ≡ block)
      ↔ IsBlocked cfg r Asked
blocked_iff cfg r asked Asked (to, from) =
    let (listed_to, listed_from) = is_listed_iff r.kind cfg.block_resources in
    let (other_to, other_from) =
      false_iff (is_allowed_script_domain r.host cfg.allowed_script_domains) _
        (is_allowed_script_domain_iff r.host cfg.allowed_script_domains) in
    let (decided_to, decided_from) =
      decided_iff (is_listed r.kind cfg.block_resources) cfg.block_third_party_script asked
        (is_allowed_script_domain r.host cfg.allowed_script_domains) in
    (
      (λ h. elim (decided_to h) [
        | inl listed ↦ inl (listed_to listed)
        | inr (third, a, other) ↦ inr (third, to a, other_to other)
      ]),
      (λ h. elim h [
        | inl listed ↦ decided_from (inl (listed_from listed))
        | inr (third, a, other) ↦ decided_from (inr (third, from a, other_from other))
      ]),
    )

-- The rod driver blocks a request exactly when its kind is listed, or scripts of third parties are
-- to be blocked, it is a script, and its host is none of the allowed domains or below one. The
-- browserless driver asks in the second case only that the host is not empty, so it blocks requests
-- of every kind there.
pub blocks_iff :
    (cfg : InterceptConfig) (r : Request)
    → ((rod_decision cfg r ≡ block) ↔ IsBlocked cfg r (r.kind ≡ script_kind))
      × ((browserless_decision cfg r ≡ block) ↔ IsBlocked cfg r (¬ (r.host ≡ [])))
unfolding rod_decision browserless_decision
blocks_iff cfg r = (
  blocked_iff cfg r (eq_text r.kind script_kind) (r.kind ≡ script_kind)
      (eq_text_sound r.kind script_kind, (λ h. rw h (eq_text_refl script_kind))),
  blocked_iff cfg r (not (eq_text r.host [])) (¬ (r.host ≡ [])) (host_given r.host),
)
