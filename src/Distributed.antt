-- ===== src/Distributed.antt =====
-- The job pipeline, src/sentinel/distributed/: the protocols, their adapters, the service that
-- accepts jobs and the processor that a worker runs on each event.
pub mod Protocols
pub mod Adapters
pub mod Service
pub mod Processor
pub mod Idempotency
pub mod Outcome
pub mod Completion
pub mod Submission
pub mod Retry
pub mod Outage
pub mod Consumer
mod Tests
mod StoreTests
