-- ===== src/Core.antt =====
-- The text engine, src/sentinel/core/, with the threat intelligence and the ensemble that it calls.
pub mod Trie
pub mod Normalization
pub mod Rules
pub mod Threat
pub mod Engine
pub mod Policy
pub mod Catch
mod Tests
