-- ===== src/Maintenance.antt =====
-- The retention cleanup of backend/src/reconcileflow/maintenance/cleanup.py.
pub mod Retention
pub mod Batches
mod Cleanup
mod Tests
