-- ===== src/Routing.antt =====
-- src/routing/: which router a request reaches, and the absolute URLs of the two kinds of hosts.
pub mod Hosts
pub mod Urls
pub mod Dispatch
pub mod Redirect
pub mod Internal
pub mod Table
pub mod RateLayer
pub mod Tests
