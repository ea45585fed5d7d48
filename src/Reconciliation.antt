-- ===== src/Reconciliation.antt =====
-- backend/src/reconcileflow/reconciliation: the deterministic engine.
pub mod Config
pub mod Results
pub mod Matching
pub mod Grouping
pub mod Progress
pub mod Outcomes
pub mod Phases
pub mod Engine
pub mod Combinations
pub mod GroupCounts
pub mod SoleMatch
pub mod Tracking
pub mod Steps
pub mod LateSteps
pub mod Loops
pub mod Partition
pub mod Identifiers
pub mod Conservation
pub mod Justified
pub mod Evidence
pub mod LateEvidence
pub mod SoundLoops
pub mod Soundness
pub mod Unreferenced
pub mod Samples
pub mod Tests
