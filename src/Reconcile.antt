-- ===== src/Reconcile.antt =====
-- internal/reconcile: the reconciliation of desired and current state.
pub mod Diff
pub mod Drift
pub mod Snapshot
pub mod Reconciler
