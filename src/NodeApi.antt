-- ===== src/NodeApi.antt =====
-- internal/nodeapi: the state that a node keeps for its local clients.
pub mod Cache
pub mod Versions
pub mod Recovery
mod Tests
