-- ===== src/BrowserlessDriver.antt =====
-- browser/browserless: the driver of a cluster of browserless services, over its Router. Page is
-- browser/browserless/browser.go; Provider and Sessions are browser/browserless/provider.go, and
-- Connections has the laws of a count of connections, Leaks what a failed `Create` leaves behind.
pub mod Page
pub mod Provider
pub mod Sessions
pub mod Connections
pub mod Leaks
