-- ===== src/Models.antt =====
-- The adapters of the models: src/sentinel/multimodal/timm_model.py and transformer.py,
-- src/sentinel/ml/baseline.py and transformer.py, and scripts/download_image_model.py.
pub mod Checksum
pub mod Labels
pub mod Predict
pub mod Load
pub mod Text
pub mod Download
pub mod Mapped
pub mod Declared
pub mod Reviewed
pub mod Scored
pub mod Composed
pub mod Maximum
pub mod Accepted
mod Tests
