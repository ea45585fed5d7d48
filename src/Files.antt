-- ===== src/Files.antt =====
-- Source files and the storage that an organization uses: the handlers of
-- backend/src/reconcileflow/api/routes/files.py over the runs, the jobs and the organizations.
pub mod Workspace
pub mod Handlers
pub mod Finalization
pub mod Metering
pub mod Accounting
mod Quotas
mod Uploads
mod Tests
