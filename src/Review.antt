-- ===== src/Review.antt =====
-- The human-review workflow, src/sentinel/review/: models, repositories and the service.
pub mod Models
pub mod Repository
pub mod Service
pub mod Chain
pub mod Invariant
mod Steps
pub mod Failed
pub mod Access
pub mod Tamper
pub mod Reach
pub mod Durable
pub mod Intake
pub mod Auth
mod Tests
