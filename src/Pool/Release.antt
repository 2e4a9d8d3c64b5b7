-- ===== src/Pool/Release.antt =====
-- `Release` (browser/pool.go).
use gox_browser.Pool.{
  Pool, Outcome, finished, waiting, panicked, counted, add_release_total, or_nil,
}
use gox_browser.Io.{Io}
use gox_browser.Prelude.{Option, Option, if◌then◌else◌, insert, lookup, none, some, ◌∷◌}
use gox_browser.Prelude.Int.{dec}
use gox_browser.Errors.{Error, is_connection_error}
use gox_browser.Metrics.{add_release_total}

module _ {B P : Type 0} where
  -- `Release` of a broken instance, from the lock to the unlock.
  abbrev pub release_drop : Pool B P → Pool B P
  release_drop p = record p { in_use = dec p.in_use; total = dec p.total }

module _ {W B P C : Type 0} (io : Io W B P C) where
  -- `Release` of a healthy instance, from the lock to the unlock. A write to a nil map panics.
  unfoldable pub release_keep : W → B → Pool B P → Outcome (Pool B P)
  release_keep w b p = elim p.instances [
    | none ↦ panicked
    | some m ↦ finished (record p {
      in_use = dec p.in_use;
      instances = some (
          insert (io.browser_type b)
            (record { browser = b; last_used = io.now w } ∷ or_nil (lookup (io.browser_type b) m))
            m);
    })
  ]

  unfoldable pub release : B → Option Error → W → Pool B P → Outcome (W × Pool B P × Option Error)
  release b last w p =
      let closing = io.close w b in
      let p1 = counted add_release_total p in
      if p.closed
      then finished (closing.0, p, closing.1)
      else if is_connection_error last
      then finished (closing.0, release_drop p1, closing.1)
      else elim (release_keep w b p1) [
        | finished p2 ↦ finished (w, p2, none)
        | waiting ↦ waiting
        | panicked ↦ panicked
      ]
