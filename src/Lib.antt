-- ===== src/Lib.antt =====
-- A model of gox-browser: a pool of browsers of several kinds, a fetch that falls from one kind to
-- the next, the detector of blocked pages, and the fetcher that a program uses.
--
-- The program's parts and their files here (paths of the sources from the repository's root):
--   * browser/types.go, browser/errors.go: Types and Errors, the plain data and the errors that the
--     other parts exchange, with those of artifact/errors.go. An error is its message and the chain that errors.Is walks.
--   * browser/browser.go: Io, the record of what the program calls and does not implement: browsers,
--     providers, contexts, the clock and the quoting of fmt. Everything takes it as an argument.
--   * browser/pool.go: Pool and its children. `Pool.cfg`, `providers`, `instances`, `inUse`, `total`,
--     `closed` and `done` are the fields of the record `Pool`; the list of a type's idle instances
--     has the back of the Go slice at its head. Acquire and waitForInstance are in Pool/Acquire,
--     Release in Pool/Release, evictIdle and Close in Pool/Evict, Register, HasProvider, NewPool and
--     Stats in Pool. Each function is the composition of its sections under the mutex. Pool/Steps
--     lets these sections run in any order, as goroutines do, with the browsers that callers hold.
--   * FetchWithFallback and tryFetch of browser/pool.go: Fetch.
--   * browser/metrics.go: Metrics, the counters and the window of latencies that the pool updates, and
--     Metrics/Snapshot.
--   * browser/detector.go: Detector, the signals of a blocked page and CheckWAF.
--   * browser/fetcher.go: Fetcher, the choice of the chain over a pool and the probe of a page's type,
--     with the request of Detect in Fetcher/Probe.
--   * browser/worker.go: Worker, a batch of tasks as a step relation on its goroutines.
--   * browser/navigate.go: Navigate, a navigation with the checks for a firewall.
--   * browser/fingerprint.go: Fingerprint, the random choices and the platform of a user agent.
--   * browser/browserless/router.go: Router, the choice among the endpoints of a browserless service,
--     with HTTP and JSON as the record `Http`. A pick takes the steps of the shared counter that
--     concurrent picks make before each of its rounds.
--   * browser/surf/browser.go, browser/surf/provider.go: Surf, the browser that only sends requests.
--   * browser/rod: RodDriver, a Chrome that the program starts or connects to. Page is browser.go,
--     Provider is the connection of provider.go (ensureBrowser, resolveRemoteURL), Sessions is its
--     Create, HealthCheck and Close.
--   * browser/browserless/browser.go, browser/browserless/provider.go: BrowserlessDriver, with Page,
--     Provider (the configuration and the addresses) and Sessions (Create, HealthCheck, Close).
--     Create takes the steps that other picks take on the router's counter meanwhile.
--   * Driver: what the two drivers of Chrome share. A call of the library go-rod changes the state of
--     the world and returns, fails or panics; the record `Rod` holds the calls. Driver/Session has the
--     steps of a new page, Driver/Intercept the handlers of intercepted requests, Driver/Triples
--     conditions before and after a call, Driver/Books numbers that calls leave as they are, and
--     Driver/Ledger the library with a count beside its world: of what it gave to the driver and was
--     not asked to close. The theorems on such a count assume nothing of the library.
--   * artifact/artifact.go, artifact/dir.go, artifact/index.go: Artifact, references, keys and the
--     directory of a namespace, with the back end as the record `Storer`; Artifact/Stores says what a
--     back end promises.
--   * artifact/s3.go, artifact/local.go: Artifact/S3 and Artifact/Local, the two back ends, over the
--     service and over the file system as records.
--   * Stream: io.Reader as its bytes and the error that ends it.
--   * Examples: a small world in which the theorems are applied.
--   * Prelude: integers, texts as lists of code points, association lists, and lemmas on them.
--
-- Conventions. Go's int is an integer without the wrap at 2^63, which the counters of a pool do not
-- reach; a counter of the metrics is a natural number for the same reason. The load of an endpoint, a
-- sum of numbers that a service reports, does wrap. A string is valid UTF-8.
-- A map is an association list with the first entry of a key in force, and a nil map is `none`: a
-- write to it panics. Logging is left out.
--
-- Waiting. A call that waits is given the list of its wake-ups: a tick, before which the other
-- goroutines change the state by any function, or the cancellation of its context. A call whose list
-- is used up waits still, which is an outcome of its own; the theorems that say that a call returns
-- have the cancellation among their conditions. No other loop has a bound: each runs over a list.
--
-- Not modelled: the library go-rod, Chrome, HTTP, JSON, the file system and the S3 service, which are
-- arguments; the mutexes of the providers, whose calls are taken one after the other; the tickers of
-- the health checks and of the worker, since what they start can happen at any time here; logs, with the
-- address for developers that the browserless driver writes to them; the table of strings.ToLower,
-- which is an argument.
pub mod Prelude
pub mod Types
pub mod Errors
pub mod Stream
pub mod Io
pub mod Metrics
pub mod Pool
pub mod Fetch
pub mod Detector
pub mod Fetcher
pub mod Driver
pub mod RodDriver
pub mod BrowserlessDriver
pub mod Router
pub mod Surf
pub mod Worker
pub mod Artifact
pub mod Navigate
pub mod Fingerprint
pub mod Examples
