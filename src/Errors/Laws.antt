-- ===== src/Errors/Laws.antt =====
-- What `IsConnectionError` recognises, and what wrapping keeps (browser/errors.go).
use gox_browser.Prelude.{
  refl, true, List, [], ◌∷◌, ◌++◌, some, ap, subst, ◌≡◌, ◌↔◌, any_sound, any_complete,
}
use gox_browser.Prelude.Text.{Text, codes, contains, contains_behind}
use gox_browser.Prelude.Strings.{Holds, any-Holds}
use gox_browser.Errors.{
  Error, wrap, Sentinel, message, is, is_connection_error, connection_error_patterns,
}

-- What a test of all patterns finds in the message.
pub is_connection_error-Holds :
    (e : Error)
    → (is_connection_error (some e) ≡ true) ↔ Holds (message e) connection_error_patterns
unfolding is_connection_error
is_connection_error-Holds e = any-Holds (message e) connection_error_patterns

-- The error below any number of `fmt.Errorf` layers.
abbrev pub wraps : List Text → Error → Error
wraps [] e = e
wraps (text ∷ texts) e = wrap text (wraps texts e)

-- The text that `fmt.Errorf` makes of the layers around a message.
abbrev pub layered : List Text → Text → Text
layered [] s = s
layered (text ∷ texts) s = text ++ (codes ": " ++ layered texts s)

message-wraps :
    (texts : List Text) (e : Error) → message (wraps texts e) ≡ layered texts (message e)
unfolding message
message-wraps [] e = refl
message-wraps (text ∷ texts) e = ap (λ s. text ++ (codes ": " ++ s)) (message-wraps texts e)

-- An error in any number of layers, no layer included, counts as a connection error exactly when one
-- of the seven texts stands somewhere in the text of the layers and the message together, be it in a
-- layer, in the message or across them.
pub is_connection_error_iff :
    (texts : List Text) (e : Error)
    → (is_connection_error (some (wraps texts e)) ≡ true)
      ↔ Holds (layered texts (message e)) (
          codes "use of closed network connection"
          ∷ codes "unexpected EOF"
          ∷ codes "broken pipe"
          ∷ codes "connection reset by peer"
          ∷ codes "connection refused"
          ∷ codes "i/o timeout"
          ∷ codes "rod create panic"
          ∷ [])
is_connection_error_iff texts e =
    subst
      (λ s. (is_connection_error (some (wraps texts e)) ≡ true) ↔ Holds s connection_error_patterns)
      (message-wraps texts e) (is_connection_error-Holds (wraps texts e))

is_connection_error-wrap :
    (text : Text) (e : Error)
    → is_connection_error (some e) ≡ true
    → is_connection_error (some (wrap text e)) ≡ true
unfolding is_connection_error message
is_connection_error-wrap text e h =
    let (p, m, hit) = any_sound (contains (message e)) connection_error_patterns h in
    any_complete (contains (message (wrap text e))) connection_error_patterns p m (
      contains_behind text (codes ": " ++ message e) p
        (contains_behind (codes ": ") (message e) p hit))

-- Wrapping an error any number of times keeps it a connection error, and keeps the sentinel that
-- `errors.Is` finds in it.
pub wraps_keep :
    (texts : List Text) (e : Error) (s : Sentinel)
    → (is_connection_error (some e) ≡ true → is_connection_error (some (wraps texts e)) ≡ true)
      × (is (wraps texts e) s ≡ is e s)
unfolding is
wraps_keep [] e s = ((λ h. h), refl)
wraps_keep (text ∷ texts) e s =
    let (kept, same) = wraps_keep texts e s in
    ((λ h. is_connection_error-wrap text (wraps texts e) (kept h)), same)
