-- ===== src/Threat.antt =====
-- src/sentinel/threat_intelligence/ beside Core/Threat: the n-gram encoder, the adapter of Qdrant, and
-- what a campaign of near duplicates looks like to the service.
pub mod Encoder
pub mod Qdrant
pub mod Dimension
pub mod Indexed
pub mod Campaign
mod Tests
