-- ===== src/Models.antt =====
-- backend/src/reconcileflow/models: the normalized records that the engine reconciles. Text is the
-- list of its code points, a date its proleptic ordinal, a datetime its instant, and a Decimal an
-- integer number of one small unit, the same for all amounts. The free-form `extra_data` is left out.
mod Enums
mod Bank
mod Invoice
mod Gateway
pub use Enums.*
pub use Bank.*
pub use Invoice.*
pub use Gateway.*
