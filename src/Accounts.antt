-- ===== src/Accounts.antt =====
-- The accounts: organizations, users, memberships and refresh tokens, and the handlers of
-- backend/src/reconcileflow/api/routes/auth.py and memberships.py.
pub mod Records
pub mod Tokens
pub mod Store
pub mod Auth
pub mod Tenants
pub mod Registration
pub mod Membership
pub mod Families
pub mod Answers
pub mod Sessions
pub mod Ownership
pub mod Steps
mod Invariant
mod Rotation
mod Protection
mod Samples
mod Tests
