-- ===== src/Runs.antt =====
-- Reconciliation runs: ReconciliationRunRepository of
-- backend/src/reconcileflow/persistence/repositories.py.
pub mod Repository
pub mod Lifecycle
mod Tests
