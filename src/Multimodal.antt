-- ===== src/Multimodal.antt =====
-- The image path, src/sentinel/multimodal/: the validation of an image and the fusion of text and
-- image evidence.
pub mod Bytes
pub mod Image
pub mod Engine
pub mod Fusion
pub mod Limits
pub mod Total
mod Tests
