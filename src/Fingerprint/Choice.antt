-- ===== src/Fingerprint/Choice.antt =====
-- What a random fingerprint consists of (browser/fingerprint.go).
-- What `rand.IntN` promises.
use gox_browser.Prelude.{
  ◌+◌, ◌++◌, ◌<◌, All, Bool-cases, List, [], ap, arith, drop, get_elem?, if◌then◌else◌, inl, inr,
  length, length-append, ltb, refl, some, suc, take, true, zero, ℕ, ◌∷◌, ◌≡◌, ◌≤◌, ◌⊎◌,
}
use gox_browser.Prelude.Text.{Text, codes, contains, has_prefix}
use gox_browser.Prelude.Int.{leb_ℤ, pos, pos_part, ℤ}
use gox_browser.Fingerprint.{platform_from_ua, random_user_agent, truncate_ua, user_agents}

abbrev pub IsIntN : (ℕ → ℕ) → Type 0
IsIntN int_n = (n : ℕ) → 0 < n → int_n n < n

All-get_elem? {ℓ} :
    {A : Type ℓ} (P : A → Type 0) (xs : List A) (i : ℕ)
    → All P xs
    → i < length xs
    → (x : A) × (get_elem? xs i ≡ some x) × P x
All-get_elem? P [] i all h = absurd (omega arith)
All-get_elem? P (x ∷ xs) zero (first, all) h = (x, refl, first)
All-get_elem? P (x ∷ xs) (suc i) (first, all) h = All-get_elem? P xs i all (omega arith)

-- The platform is that of the system which the user agent names.
abbrev pub Names : Text → Text → Type 0
Names ua platform =
    ((contains ua (codes "Windows") ≡ true) × (platform ≡ codes "Win32"))
    ⊎ (((contains ua (codes "Macintosh") ≡ true) × (platform ≡ codes "MacIntel"))
        ⊎ ((contains ua (codes "X11; Linux") ≡ true) × (platform ≡ codes "Linux x86_64")))

abbrev pub IsConsistent : Text → Type 0
IsConsistent ua = Names ua (platform_from_ua ua)

user_agents-IsConsistent : All IsConsistent user_agents
unfolding platform_from_ua contains has_prefix
user_agents-IsConsistent = (
  inl (refl, refl),
  (
    inr (inl (refl, refl)),
    (inl (refl, refl), (inr (inl (refl, refl)), (inr (inr (refl, refl)), tt))),
  ),
)

-- With any source of random numbers that stays below its bound, `RandomUserAgent` does not run out
-- of its list, and `PlatformFromUA` gives for its choice the platform of the system that the user
-- agent names.
pub random_user_agent-IsConsistent :
    (int_n : ℕ → ℕ)
    → IsIntN int_n
    → (ua : Text) × (random_user_agent int_n ≡ some ua) × IsConsistent ua
random_user_agent-IsConsistent int_n h =
    All-get_elem? IsConsistent user_agents (int_n 5) user_agents-IsConsistent (h 5 (omega arith))

length-take : (n : ℕ) (s : Text) → n ≤ length s → length (take n s) ≡ n
length-take zero s h = refl
length-take (suc n) [] h = absurd (omega arith)
length-take (suc n) (c ∷ s) h = ap suc (length-take n s (omega arith))

take-drop : (n : ℕ) (s : Text) → s ≡ take n s ++ drop n s
take-drop zero s = refl
take-drop (suc n) [] = refl
take-drop (suc n) (c ∷ s) = ap (◌∷◌ c) (take-drop n s)

-- A truncated user agent is the whole one, or a part of it from its start with three dots behind it;
-- it is never longer than the limit, 60 for a limit that is not positive, and the dots.
pub truncate_ua_lem :
    (ua : Text) (n : ℤ)
    → (length (truncate_ua ua n) ≤ (if leb_ℤ n (pos 0) then 60 else pos_part n) + 3)
      × ((truncate_ua ua n ≡ ua)
          ⊎ ((start : Text) × (rest : Text) × (ua ≡ start ++ rest)
              × (truncate_ua ua n ≡ start ++ codes "...")))
unfolding truncate_ua
truncate_ua_lem ua n =
    let limit = if leb_ℤ n (pos 0) then 60 else pos_part n in
    elim (Bool-cases (ltb limit (length ua))) [
      | inl over ↦
          let fits = length-take limit ua (ground (arith, over)) in
          let long = length-append (take limit ua) (codes "...") in
          rw over (
            omega (arith, fits, long),
            inr (take limit ua, drop limit ua, take-drop limit ua, refl),
          )
      | inr short ↦ rw short (ground (arith, short), inl refl)
    ]
