-- ===== src/Scripts.antt =====
-- The scripts of scripts/ that decide something: the load test, the adversarial evaluation and the
-- promotion gate.
pub mod LoadTest
pub mod Evaluate
pub mod Counted
mod Tests
