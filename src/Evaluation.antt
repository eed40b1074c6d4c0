-- ===== src/Evaluation.antt =====
-- Offline evaluation, src/sentinel/evaluation/.
pub mod Cases
pub mod Gates
pub mod Attacks
pub mod Robust
pub mod Metrics
pub mod Slices
pub mod Corpus
mod ReportTests
