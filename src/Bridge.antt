-- ===== src/Bridge.antt =====
-- internal/bridge: the sessions, tunnels and routes of a bridge node.
pub mod Controllers
pub mod Config
pub mod Ingress
pub mod Manager
pub mod Relay
pub mod Resync
pub mod SiteToSite
pub mod UserAccess
mod Tests
