-- ===== src/Stream.antt =====
-- Go's `io.Reader`: the bytes that it gives, and the error that ends it where it does not end well.
use gox_browser.Prelude.{List, Option, ℕ, if◌then◌else◌, length, ltb, none, some, take}
use gox_browser.Errors.{Error, Result, err, ok}

pub record Stream : Type 0 where
  pub bytes : List ℕ
  pub broken : Option Error

-- `io.ReadAll`.
abbrev pub read_all : Stream → Result (List ℕ)
read_all r = elim r.broken [ none ↦ ok r.bytes | some e ↦ err e ]

-- `io.ReadAll` of an `io.LimitReader`, which does not read on at its limit.
abbrev pub read_limited : ℕ → Stream → Result (List ℕ)
read_limited limit r = if ltb (length r.bytes) limit then read_all r else ok (take limit r.bytes)
