-- ===== src/Driver/Intercept.antt =====
-- Which requests the drivers let through: the handlers of `setupRequestInterception` of
-- browser/rod/provider.go and browser/browserless/provider.go.
pub mod Decisions
use gox_browser.Prelude.{
  ◌&&◌, Bool, List, [], false, if◌then◌else◌, length, ltb, not, ◌||◌, ◌∷◌, any,
}
use gox_browser.Driver.{Decision, Request, block, let_pass}
use gox_browser.Prelude.Text.{Text, codes, eq_text}
use gox_browser.Fetch.Attempts.{kinds}
use gox_browser.Prelude.Strings.{has_suffix}

-- `isAllowedScriptDomain`, and the loop of the browserless handler.
abbrev pub is_of_domain : Text → Text → Bool
is_of_domain host domain = eq_text host domain || has_suffix host (b'.' ∷ domain)

unfoldable pub is_allowed_script_domain : Text → List Text → Bool
is_allowed_script_domain host allowed = any (is_of_domain host) allowed

-- `blocked[rt]`.
unfoldable pub is_listed : Text → List Text → Bool
is_listed kind kinds = any (eq_text kind) kinds

-- `proto.NetworkResourceTypeScript`.
abbrev pub script_kind : Text
script_kind = codes "Script"

-- What of a provider's configuration the handlers read.
pub record InterceptConfig : Type 0 where
  pub block_resources : List Text
  pub block_third_party_script : Bool
  pub allowed_script_domains : List Text

unfoldable pub hijack_enabled : InterceptConfig → Bool
hijack_enabled cfg = ltb 0 (length cfg.block_resources) || cfg.block_third_party_script

-- The handler of the rod driver.
unfoldable pub rod_decision : InterceptConfig → Request → Decision
unfolding is_allowed_script_domain is_listed
rod_decision cfg r =
    if is_listed r.kind cfg.block_resources
    then block
    else if cfg.block_third_party_script && eq_text r.kind script_kind
    then (if is_allowed_script_domain r.host cfg.allowed_script_domains then let_pass else block)
    else let_pass

-- The handler of the browserless driver.
unfoldable pub browserless_decision : InterceptConfig → Request → Decision
unfolding is_allowed_script_domain is_listed
browserless_decision cfg r =
    if is_listed r.kind cfg.block_resources
    then block
    else if cfg.block_third_party_script && not (eq_text r.host [])
    then (if is_allowed_script_domain r.host cfg.allowed_script_domains then let_pass else block)
    else let_pass
