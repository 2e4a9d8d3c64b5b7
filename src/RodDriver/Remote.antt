-- ===== src/RodDriver/Remote.antt =====
-- The address of a remote Chrome (`resolveRemoteURL` of browser/rod/provider.go).
use gox_browser.Prelude.{◌++◌, if◌then◌else◌, ◌≡◌, ◌⊎◌}
use gox_browser.Prelude.Text.{Text, codes, contains}
use gox_browser.Prelude.Strings.{trim_prefix, before_char, replace_first}
use gox_browser.Router.{trim_slashes}

abbrev remote_host : Text → Text
remote_host remote =
    trim_slashes (trim_prefix (trim_prefix remote (codes "http://")) (codes "https://"))

-- The token ends the address, as one more parameter or the only one.
abbrev pub EndsInToken : Text → Text → Text → Type 0
EndsInToken token reached url =
    (url ≡ reached ++ codes "&token=" ++ token) ⊎ (url ≡ reached ++ codes "?token=" ++ token)

-- An answer of Chrome, with the host's name for its first 0.0.0.0, that holds the text of the host.
abbrev pub IsAnswerNaming : Text → Text → Type 0
IsAnswerNaming host reached =
    (ws : Text) × (reached ≡ replace_first ws (codes "0.0.0.0") (before_char b':' host))
    × (a : Text) × (b : Text) × (reached ≡ a ++ (host ++ b))

-- The root of the host, or such an answer, and the token behind it.
abbrev pub IsSigned : Text → Text → Text → Type 0
IsSigned host token url =
    (reached : Text) × ((reached ≡ codes "ws://" ++ host ++ codes "/")
      ⊎ IsAnswerNaming host reached)
    × EndsInToken token reached url

abbrev signed : Text → Text → Text
signed token reached =
    if contains reached (codes "?")
    then reached ++ codes "&token=" ++ token
    else reached ++ codes "?token=" ++ token
