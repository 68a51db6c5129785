-- ===== src/WireGuard.antt =====
-- internal/wireguard: the WireGuard interface of the mesh and its peers.
pub mod Manager
pub mod Keys
mod Tests
