-- ===== src/Usage.antt =====
-- The metering and the events of hosted AI inference: backend/src/reconcileflow/ai/usage.py, and
-- AIUsageRepository and AIInferenceEventRepository of
-- backend/src/reconcileflow/persistence/repositories.py.
pub mod Records
pub mod Controller
mod Limits
mod Closing
mod Events
mod Tests
