-- ===== src/Policy.antt =====
-- internal/policy: network policies, the firewall rules made of them, and their enforcement.
pub mod Firewall
pub mod Engine
pub mod Nftables
pub mod Settings
pub mod Enforcer
mod Tests
