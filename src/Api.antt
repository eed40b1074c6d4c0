-- ===== src/Api.antt =====
-- src/sentinel/api/: the handlers of the HTTP API and what they guarantee.
pub mod Http
pub mod Reviews
pub mod Guard
pub mod Refusal
pub mod Routes
pub mod Queue
pub mod Jobs
mod Tests
