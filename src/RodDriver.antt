-- ===== src/RodDriver.antt =====
-- browser/rod: the driver of a Chrome that the program starts or connects to. Page is
-- browser/rod/browser.go; Provider and Sessions are browser/rod/provider.go. Connecting and Pages
-- have a count of pages, Recovery is about panics and the kept connection, Remote about addresses.
pub mod Page
pub mod Provider
pub mod Sessions
pub mod Connecting
pub mod Pages
pub mod Recovery
pub mod Remote
