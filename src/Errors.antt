-- ===== src/Errors.antt =====
-- browser/errors.go and artifact/errors.go. An error is its message with the chain that `errors.Is` walks; a use of
-- `fmt.Errorf` with `%w` is `wrap`, whose text is the format up to the last colon.
pub mod Laws
use gox_browser.Prelude.{
  ℕ, Bool, true, false, ◌||◌, List, [], ◌∷◌, ◌++◌, Option, none, some, any, if◌then◌else◌,
}
use gox_browser.Prelude.Text.{Text, codes, contains}
use gox_browser.Types.{BlockResult}

pub data Sentinel : Type 0 where
  pool_closed acquire_timeout provider_not_found unsupported all_blocked no_healthy_endpoint
        waf_blocked artifact_not_found sign_url_unsupported :
      Sentinel

pub data Error : Type 0 where
  sentinel : Sentinel → Error
  plain : Text → Error
  wrap : Text → Error → Error
  waf : BlockResult → Text → Error

-- A call that returns a value or an error.
pub data Result {ℓ} (A : Type ℓ) : Type ℓ where
  ok : A → Result A
  err : Error → Result A

unfoldable pub sentinel_text : Sentinel → Text
sentinel_text pool_closed = codes "browser: pool closed"
sentinel_text acquire_timeout = codes "browser: acquire timeout"
sentinel_text provider_not_found = codes "browser: provider not found"
sentinel_text unsupported = codes "browser: operation not supported"
sentinel_text all_blocked = codes "browser: all browser types blocked"
sentinel_text no_healthy_endpoint = codes "browser: no healthy endpoint available"
sentinel_text waf_blocked = codes "browser: waf blocked"
sentinel_text artifact_not_found = codes "artifact: not found"
sentinel_text sign_url_unsupported = codes "artifact: sign url unsupported by backend"

-- `WAFBlockedError.Error`.
unfoldable pub waf_text : BlockResult → Text → Text
waf_text r url =
    let text = codes "browser: waf blocked (" ++ r.kind ++ codes ": " ++ r.reason ++ codes ")" in
    elim url [ [] ↦ text | c ∷ cs ↦ text ++ codes " url=" ++ c ∷ cs ]

-- `err.Error()`.
unfoldable pub message : Error → Text
message (sentinel s) = sentinel_text s
message (plain text) = text
message (wrap text e) = text ++ (codes ": " ++ message e)
message (waf r url) = waf_text r url

unfoldable pub same_sentinel : Sentinel → Sentinel → Bool
same_sentinel pool_closed pool_closed = true
same_sentinel acquire_timeout acquire_timeout = true
same_sentinel provider_not_found provider_not_found = true
same_sentinel unsupported unsupported = true
same_sentinel all_blocked all_blocked = true
same_sentinel no_healthy_endpoint no_healthy_endpoint = true
same_sentinel waf_blocked waf_blocked = true
same_sentinel artifact_not_found artifact_not_found = true
same_sentinel sign_url_unsupported sign_url_unsupported = true
same_sentinel _ _ = false

-- `errors.Is`; `WAFBlockedError.Unwrap` leads to its sentinel.
unfoldable pub is : Error → Sentinel → Bool
unfolding same_sentinel
is (sentinel s) t = same_sentinel s t
is (plain text) t = false
is (wrap text e) t = is e t
is (waf r url) t = same_sentinel waf_blocked t

abbrev pub connection_error_patterns : List Text
connection_error_patterns =
    codes "use of closed network connection"
    ∷ codes "unexpected EOF"
    ∷ codes "broken pipe"
    ∷ codes "connection reset by peer"
    ∷ codes "connection refused"
    ∷ codes "i/o timeout"
    ∷ codes "rod create panic"
    ∷ []

-- `IsConnectionError`; `none` is the nil error.
unfoldable pub is_connection_error : Option Error → Bool
is_connection_error none = false
is_connection_error (some e) = any (contains (message e)) connection_error_patterns

abbrev pub is_ok {ℓ} : {A : Type ℓ} → Result A → Bool
is_ok (ok a) = true
is_ok (err e) = false
