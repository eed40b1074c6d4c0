-- ===== src/Observability.antt =====
-- src/sentinel/observability/: the metrics and the middleware that measures requests.
pub mod Metrics
pub mod Middleware
pub mod Requests
mod Tests
