-- ===== src/Api.antt =====
-- internal/api: the control-plane client.
pub mod Envelope
pub mod Types
pub mod Verifier
pub mod Errors
pub mod Reconnect
pub mod Sse
pub mod Dispatcher
pub mod Stream
