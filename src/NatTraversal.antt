-- ===== src/NatTraversal.antt =====
-- internal/nat: the discovery of the node's public endpoint.
pub mod Stun
pub mod Discovery
mod Tests
