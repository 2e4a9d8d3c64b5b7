-- ===== src/Router.antt =====
-- browser/browserless/router.go: the router over the endpoints of a browserless service. A picked
-- endpoint is its index, since the source gives a pointer into the slice. Picks share a read lock, so
-- other picks can move the atomic counter in the middle of one; all else is under the write lock.
pub mod Load
pub mod Turn
pub mod Health
use gox_browser.Prelude.{
  ◌%◌, ◌&&◌, ◌*◌, ◌+◌, ◌++◌, ◌-◌, ◌==◌, Bool, List, Option, [], ◌^◌, false, get_elem?,
  if◌then◌else◌, length, ltb, none, not, some, suc, true, zero, ℕ, ◌∷◌,
}
use gox_browser.Prelude.Int.{◌+ℤ◌, ltb_ℤ, max_int, pos, wrap_int, ℤ}
use gox_browser.Errors.{Error, Result, err, ok, plain, wrap}
use gox_browser.Prelude.Text.{Text, codes, eq_text}
use gox_browser.Types.{second}

pub record PressureInfo : Type 0 where
  pub cpu : ℤ
  pub memory : ℤ
  pub running : ℤ
  pub queued : ℤ
  pub max_concurrent : ℤ
  pub is_available : Bool

pub record Endpoint : Type 0 where
  pub url : Text
  pub token : Text
  pub weight : ℤ
  pub healthy : Bool
  pub pressure : PressureInfo

-- What the router calls: requests, the bodies of their responses, JSON, and the texts of numbers.
pub record Http (W C : Type 0) : Type 0 where
  pub with_timeout : C → ℤ → C
  pub build_error : Text → Option Error
  pub send : W → C → Text → W × Result ℕ
  pub read_body : W → W × Text × Option Error
  pub decode : Text → Result PressureInfo
  pub decimal : ℤ → Text

-- `checking` tells that the goroutine of the health check was started, `stopped` that its channel is
-- closed.
pub record Router : Type 0 where
  pub endpoints : List Endpoint
  pub strategy : Text
  pub rr_index : ℕ
  pub checking : Bool
  pub stopped : Bool

unfoldable pub new_router : List Endpoint → Text → ℤ → Router
new_router endpoints strategy interval = record {
  endpoints = endpoints;
  strategy = strategy;
  rr_index = 0;
  checking = ltb 0 (length endpoints) && ltb_ℤ (pos 0) interval;
  stopped = false;
}

-- The sum wraps, like every Go `int`.
abbrev pub load : Endpoint → ℤ
load e = wrap_int (e.pressure.running +ℤ e.pressure.queued)

-- The loop of `pickLeastLoad` from the index `i` on.
unfoldable pub least_load : ℕ → List Endpoint → Option ℕ → ℤ → Option ℕ
least_load i [] best best_load = best
least_load i (e ∷ es) best best_load =
    let passed = least_load (suc i) es best best_load in
    let chosen = least_load (suc i) es (some i) (load e) in
    if not e.healthy then passed else if ltb_ℤ (load e) best_load then chosen else passed

unfoldable pub pick_least_load : List Endpoint → Option ℕ
pick_least_load es = elim (least_load 0 es none max_int) [
  | some i ↦ some i
  | none ↦ if ltb 0 (length es) then some 0 else none
]

-- An atomic counter of 64 bits.
abbrev pub next_index : ℕ → ℕ
next_index rr = (rr + 1) % 2 ^ 64

abbrev pub healthy_at : List Endpoint → ℕ → Bool
healthy_at es i = elim (get_elem? es i) [ none ↦ false | some e ↦ e.healthy ]

-- The loop of `pickRoundRobin` with `k` rounds to go: the counter after it and the pick. Other picks
-- share the lock and the counter: they take `others j` steps of it just before the round that leaves
-- `j` rounds to go.
unfoldable pub round_robin : ℕ → List Endpoint → (ℕ → ℕ) → ℕ → ℕ × Option ℕ
round_robin zero es others rr = (rr, if ltb 0 (length es) then some 0 else none)
round_robin (suc k) es others rr =
    let seen = (rr + others k) % 2 ^ 64 in
    let i = seen % length es in
    let rest = round_robin k es others (next_index seen) in
    if healthy_at es i then (next_index seen, some i) else rest

unfoldable pub pick_round_robin : List Endpoint → (ℕ → ℕ) → ℕ → ℕ × Option ℕ
unfolding round_robin
pick_round_robin es others rr = round_robin (length es) es others rr

unfoldable pub pick : (ℕ → ℕ) → Router → Router × Option ℕ
unfolding pick_least_load pick_round_robin
pick others r =
    let turn = pick_round_robin r.endpoints others r.rr_index in
    let by_turn : Router × Option ℕ = (record r { rr_index = turn.0 }, turn.1) in
    let by_load : Router × Option ℕ = (r, pick_least_load r.endpoints) in
    if length r.endpoints == 0
    then (r, none)
    else (if eq_text r.strategy (codes "round-robin") then by_turn else by_load)

unfoldable pub mark_first : Text → List Endpoint → List Endpoint
mark_first url [] = []
mark_first url (e ∷ es) =
    if eq_text e.url url then record e { healthy = false } ∷ es else e ∷ mark_first url es

unfoldable pub mark_unhealthy : Text → Router → Router
unfolding mark_first
mark_unhealthy url r = record r { endpoints = mark_first url r.endpoints }

unfoldable pub stop : Router → Router
stop r = record r { stopped = true }

-- `strings.TrimRight(s, "/")`.
unfoldable pub trim_slashes : Text → Text
trim_slashes [] = []
trim_slashes (c ∷ s) =
    let rest = trim_slashes s in
    elim rest [ [] ↦ if c == b'/' then [] else c ∷ [] | d ∷ ds ↦ c ∷ d ∷ ds ]

abbrev pub pressure_url : Endpoint → Text
pressure_url e =
    let address = trim_slashes e.url ++ codes "/pressure" in
    elim e.token [ [] ↦ address | c ∷ cs ↦ address ++ codes "?token=" ++ c ∷ cs ]

abbrev pub pressure_request_timeout : ℤ
pressure_request_timeout = pos (5 * second)

module _ {W C : Type 0} (http : Http W C) where
  unfoldable pub fetch_pressure : C → Endpoint → W → W × Result PressureInfo
  fetch_pressure ctx e w =
      let sent = http.send w ctx (pressure_url e) in
      let body = http.read_body sent.0 in
      elim (http.build_error (pressure_url e)) [
        | some error ↦ (w, err (wrap (codes "browser: browserless build pressure request") error))
        | none ↦ elim sent.1 [
          | err error ↦
              (sent.0, err (wrap (codes "browser: browserless pressure request " ++ e.url) error))
          | ok status ↦ elim body.2 [
            | some error ↦
                (body.0, err (wrap (codes "browser: browserless read pressure response") error))
            | none ↦
                if not (status == 200)
                then (
                  body.0,
                  err (
                      plain (
                        codes "browser: browserless pressure "
                        ++ e.url
                        ++ codes " returned "
                        ++ http.decimal (pos status)
                        ++ codes ": "
                        ++ body.1)),
                )
                else (
                  body.0,
                  elim (http.decode body.1) [
                    | ok pressure ↦ ok pressure
                    | err error ↦
                        err (wrap (codes "browser: browserless parse pressure response") error)
                  ],
                )
          ]
        ]
      ]

  -- What one round of `HealthCheckAll` makes of an endpoint.
  abbrev pub checked : Result PressureInfo → Endpoint → Endpoint
  checked (ok p) e = record e { pressure = p; healthy = p.is_available }
  checked (err error) e = record e { healthy = false }

  abbrev pub last_error : Result PressureInfo → Option Error → Option Error
  last_error (ok p) last = last
  last_error (err error) last = some error

  unfoldable pub check_all : C → List Endpoint → Option Error → W → W × List Endpoint × Option Error
  check_all ctx [] last w = (w, [], last)
  check_all ctx (e ∷ es) last w =
      let (w1, r) = fetch_pressure ctx e w in
      let (w2, rest, last2) = check_all ctx es (last_error r last) w1 in
      (w2, checked r e ∷ rest, last2)

  unfoldable pub health_check_all : C → Router → W → W × Router × Option Error
  unfolding check_all
  health_check_all ctx r w =
      let (w1, es, last) = check_all ctx r.endpoints none w in
      (w1, record r { endpoints = es }, last)

  unfoldable pub check_capacity : C → Endpoint → W → W × Option Error
  check_capacity ctx e w =
      let (w1, r) = fetch_pressure (http.with_timeout ctx pressure_request_timeout) e w in
      elim r [
        | err error ↦
            (w1, some (wrap (codes "browser: browserless capacity check " ++ e.url) error))
        | ok p ↦ if p.is_available then (w1, none) else (
          w1,
          some (
              plain (
                codes "browser: browserless "
                ++ e.url
                ++ codes " not available (running="
                ++ http.decimal p.running
                ++ codes " queued="
                ++ http.decimal p.queued
                ++ codes " max="
                ++ http.decimal p.max_concurrent
                ++ codes ")")),
        )
      ]
