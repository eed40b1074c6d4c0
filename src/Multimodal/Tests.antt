-- ===== src/Multimodal/Tests.antt =====
-- The theorems on images at one PNG of three by two pixels.
use sentinel_content_safety.Base.{false, ℕ, ◌≡◌, refl, String, Option, some, List, [], ◌∷◌}
use sentinel_content_safety.Base.{true, ◌≤◌, ◌⊎◌, all, leb}
use sentinel_content_safety.Schemas.{
  ImageMediaType, SafetyCategory, Decision, ModerationResponse, Score,
}
use sentinel_content_safety.Core.Engine.{decision_of}
use sentinel_content_safety.Multimodal.Engine.{
  Scores, ImageSafetyModel, MultimodalModerationResponse, fuse, image_risk, differ, intervenes,
}
use sentinel_content_safety.Multimodal.Fusion.{strictness, fuse-stricter}
use sentinel_content_safety.Multimodal.Image.{
  ValidatedImage, ok, decode_image, decode_payload, inspect, check_metadata, png_metadata,
  jpeg_metadata, webp_metadata,
}
use sentinel_content_safety.Multimodal.Limits.{IsWithinLimits, still, decode_image-ok}

-- The signature, an IHDR chunk and its checksum.
abbrev png : List ℕ
png =
    0x89 ∷ 80 ∷ 78 ∷ 71 ∷ 13 ∷ 10 ∷ 26 ∷ 10 ∷ 0 ∷ 0 ∷ 0 ∷ 13 ∷ 73 ∷ 72 ∷ 68 ∷ 82 ∷ 0 ∷ 0 ∷ 0 ∷ 3 ∷ 0
    ∷ 0 ∷ 0 ∷ 2 ∷ 8 ∷ 2 ∷ 0 ∷ 0 ∷ 0 ∷ 1 ∷ 2 ∷ 3 ∷ 4 ∷ []

abbrev codec : String → Option (List ℕ)
codec text = some png

abbrev image : ValidatedImage
image = record { data_bytes = png; format = "PNG"; width = 3; height = 2; bytes_received = 33 }

decode_image-ok_example :
    (payload : List ℕ) × (codec "iVBORw0KGgo=" ≡ some payload)
    × IsWithinLimits ImageMediaType.png payload image
    × (inspect payload ≡ ok (image.format, still image))
unfolding decode_image decode_payload inspect check_metadata png_metadata jpeg_metadata
    webp_metadata
decode_image-ok_example = decode_image-ok codec "iVBORw0KGgo=" ImageMediaType.png refl

abbrev scores : Scores
scores = (SafetyCategory.graphic_violence, 0x3fee666666666666) ∷ []

abbrev vision : ImageSafetyModel
vision = record { version = "v"; predict_scores = λ i. ok scores }

abbrev text_answer : ModerationResponse
text_answer = record {
  request_id = "r1";
  decision = Decision.allow;
  risk_score = 0;
  signals = [];
  policy_version = "2026-08-27";
  evaluated_at = 7;
}

abbrev fused : MultimodalModerationResponse
unfolding fuse
fused = fuse "r1" 9 vision image scores (some text_answer)

fuse-stricter_example :
    (strictness text_answer.decision ≤ strictness fused.decision)
    × (all (λ (s : SafetyCategory × Score). leb s.1 fused.risk_score) scores ≡ true)
    × ((differ (intervenes text_answer.risk_score) (intervenes (image_risk scores)) ≡ false)
        ⊎ (1 ≤ strictness fused.decision))
unfolding fused decision_of
fuse-stricter_example = fuse-stricter "r1" 9 vision image scores text_answer refl
