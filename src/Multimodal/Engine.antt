-- ===== src/Multimodal/Engine.antt =====
-- src/sentinel/multimodal/engine.py: the fusion of a text engine and an image model. The model's
-- scores come as a dictionary, that is, with each category once.
use Prim.Native.String.{◌++◌ as str_append}
use sentinel_content_safety.Base.{
  ℕ, String, Bool, true, false, not, ◌||◌, Option, none, some, List, [], ◌∷◌, ◌++◌, max_of, leb,
  if◌then◌else◌,
}
use sentinel_content_safety.Schemas.{
  Decision, SafetyCategory, category_rank, category_eq, ModerationRequest, ModerationSignal,
  ModerationResponse, ImageMediaType, ImageMetadata, Score, Time,
}
use sentinel_content_safety.Core.Trie.{Text}
use sentinel_content_safety.Core.Engine.{model_review_threshold, decision_of}
use sentinel_content_safety.Distributed.Service.{or_new}
use sentinel_content_safety.Multimodal.Image.{ImageError, ValidatedImage, Result, decode_image}
use sentinel_content_safety.Multimodal.Image

pub record MultimodalModerationRequest : Type 0 where
  pub image_base64 : String
  pub media_type : ImageMediaType
  pub text : Option Text
  pub request_id : Option String

pub record MultimodalModerationResponse : Type 0 where
  pub request_id : String
  pub decision : Decision
  pub risk_score : Score
  pub signals : List ModerationSignal
  pub policy_version : String
  pub evaluated_at : Time
  pub modalities : List String
  pub image : ImageMetadata

abbrev pub Scores : Type 0
Scores = List (SafetyCategory × Score)

pub record ImageSafetyModel : Type 0 where
  pub version : String
  pub predict_scores : ValidatedImage → Result Scores

-- What a call raises: an error of the image boundary or of the image model, the two value errors, or what the text engine
-- raises.
pub data FusionError : Type 0 where
  image_error : ImageError → FusionError
  unsupported_category : SafetyCategory → FusionError
  score_out_of_range : Score → FusionError
  text_error : FusionError

pub data Fused {ℓ} (A : Type ℓ) : Type ℓ where
  ok : A → Fused A
  raised : FusionError → Fused A

abbrev pub is_image_category : SafetyCategory → Bool
is_image_category category =
    category_eq category SafetyCategory.sexual_content
    || category_eq category SafetyCategory.graphic_violence

-- The checks of the scores, in their order; 0x3ff0000000000000 is 1.0.
unfoldable pub refused : Scores → Option FusionError
refused [] = none
refused ((category, score) ∷ rest) =
    let later = refused rest in
    if not (is_image_category category)
    then some (unsupported_category category)
    else if not (leb score 0x3ff0000000000000)
    then some (score_out_of_range score)
    else later

abbrev pub sort_score : SafetyCategory × Score → Scores → Scores
sort_score s [] = s ∷ []
sort_score s (r ∷ rs) =
    if leb (category_rank s.0) (category_rank r.0) then s ∷ r ∷ rs else r ∷ sort_score s rs

abbrev pub sort_scores : Scores → Scores
sort_scores [] = []
sort_scores (s ∷ ss) = sort_score s (sort_scores ss)

unfoldable pub image_signals : String → Scores → List ModerationSignal
image_signals version [] = []
image_signals version ((category, score) ∷ rest) =
    let later = image_signals version rest in
    if leb model_review_threshold score
    then record {
      source = str_append "vision:" version;
      category = category;
      score = score;
      reason_code = "image_probability";
    }
      ∷ later
    else later

-- `max(image_scores.values(), default=0.0)`
unfoldable pub image_risk : Scores → Score
image_risk [] = 0
image_risk ((category, score) ∷ rest) = max_of score (image_risk rest)

abbrev pub intervenes : Score → Bool
intervenes score = leb model_review_threshold score

abbrev pub differ : Bool → Bool → Bool
differ true b = not b
differ false b = b

unfoldable pub disagreement : Score → Score → List ModerationSignal
disagreement text_risk image_score =
    if differ (intervenes text_risk) (intervenes image_score)
    then record {
      source = "policy:multimodal-fusion-v1";
      category = SafetyCategory.cross_modal_disagreement;
      score = max_of text_risk image_score;
      reason_code = "modality_disagreement";
    }
      ∷ []
    else []

abbrev pub metadata_of : ValidatedImage → ImageMetadata
metadata_of image = record {
  format = image.format;
  width = image.width;
  height = image.height;
  bytes_received = image.bytes_received;
}

-- The part of `moderate` after the scores are checked, given what the text engine answered.
unfoldable pub fuse :
    String
    → Time
    → ImageSafetyModel
    → ValidatedImage
    → Scores
    → Option ModerationResponse
    → MultimodalModerationResponse
unfolding image_signals image_risk disagreement decision_of
fuse request_id now model decoded scores none = record {
  request_id = request_id;
  decision = decision_of (max_of 0 (image_risk scores));
  risk_score = max_of 0 (image_risk scores);
  signals = image_signals model.version (sort_scores scores);
  policy_version = "2026-08-27-multimodal-v1";
  evaluated_at = now;
  modalities = "image" ∷ [];
  image = metadata_of decoded;
}
fuse request_id now model decoded scores (some text_result) =
    let risk = max_of text_result.risk_score (image_risk scores) in
    record {
      request_id = request_id;
      decision = decision_of risk;
      risk_score = risk;
      signals =
          text_result.signals
          ++ image_signals model.version (sort_scores scores)
          ++ disagreement text_result.risk_score (image_risk scores);
      policy_version = "2026-08-27-multimodal-v1";
      evaluated_at = now;
      modalities = "text" ∷ "image" ∷ [];
      image = metadata_of decoded;
    }

-- `moderate`, over a Base64 decoder and a text engine with its state; the engine may raise.
unfoldable pub moderate :
    {T : Type 0}
    → (String → Option (List ℕ))
    → (ModerationRequest → T → Option (ModerationResponse × T))
    → ImageSafetyModel
    → String
    → Time
    → MultimodalModerationRequest
    → T
    → Fused MultimodalModerationResponse × T
unfolding decode_image fuse refused
moderate b64decode text_engine model uuid4 now request store =
    let request_id = or_new request.request_id uuid4 in
    elim (decode_image b64decode request.image_base64 request.media_type) [
      | Image.raised e ↦ (raised (image_error e), store)
      | Image.ok decoded ↦ elim (model.predict_scores decoded) [
        | Image.raised e ↦ (raised (image_error e), store)
        | Image.ok scores ↦ elim (refused scores) [
          | some e ↦ (raised e, store)
          | none ↦ elim request.text [
            | none ↦ (ok (fuse request_id now model decoded scores none), store)
            | some text ↦
                elim (text_engine (record { text = text; request_id = some request_id }) store) [
                  | none ↦ (raised text_error, store)
                  | some (text_result, store') ↦
                      (ok (fuse request_id now model decoded scores (some text_result)), store')
                ]
          ]
        ]
      ]
    ]
