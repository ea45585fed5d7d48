-- ===== src/Worker.antt =====
-- The background worker: backend/src/reconcileflow/worker/service.py over the job queue.
pub mod Service
pub mod Endings
mod Tests
