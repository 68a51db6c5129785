-- ===== src/Tunnel.antt =====
-- internal/tunnel: the sessions that forward connections through the mesh.
pub mod Sessions
pub mod Expiry
mod Tests
