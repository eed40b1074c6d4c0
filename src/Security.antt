-- ===== src/Security.antt =====
-- The hardening of the HTTP boundary, src/sentinel/security/.
pub mod Config
pub mod Middleware
pub mod Settings
pub mod Bounds
pub mod Headers
pub mod Supply
pub mod Order
pub mod Shuffled
mod Tests
mod OrderTests
