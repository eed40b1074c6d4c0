-- ===== src/Models/Predict.antt =====
-- `predict_scores` of the image adapters, src/sentinel/multimodal/timm_model.py and transformer.py.
-- Pillow, the transform and the network with its softmax are parameters.
use sentinel_content_safety.Base.{ℕ, none, some, List, [], ◌∷◌, max_of, if◌then◌else◌}
use sentinel_content_safety.Schemas.{SafetyCategory, category_eq, Score}
use sentinel_content_safety.Multimodal.Bytes.{get_elem?}
use sentinel_content_safety.Multimodal.Engine.{Scores}
use sentinel_content_safety.Multimodal.Image.{
  ValidatedImage, Result, ok, raised, too_large, invalid, index_error,
}
use sentinel_content_safety.Models.Labels.{LabelCategories}

-- What Pillow makes of the bytes: one of its errors on decompression bombs, one of its errors on
-- images it cannot read, or the transposed RGB image.
pub data Opened (R : Type 0) : Type 0 where
  bomb undecodable : Opened R
  sanitized : R → Opened R

-- `open_rgb` stands for Pillow; `probabilities` for the transform, the network and softmax.
pub record Network (R : Type 0) : Type 0 where
  pub open_rgb : List ℕ → Opened R
  pub probabilities : R → List Score

-- `scores.get(category, 0.0)`
unfoldable pub get_score : SafetyCategory → Scores → Score
get_score category [] = 0
get_score category ((c, score) ∷ rest) =
    if category_eq c category then score else get_score category rest

-- `scores[category] = score`
unfoldable pub set_score : SafetyCategory → Score → Scores → Scores
set_score category score [] = (category, score) ∷ []
set_score category score ((c, old) ∷ rest) =
    let later = set_score category score rest in
    if category_eq c category then (c, score) ∷ rest else (c, old) ∷ later

-- The loop over the labels, given the probabilities.
unfoldable pub score_labels : LabelCategories → List Score → Scores → Result Scores
unfolding get_score set_score
score_labels [] probabilities scores = ok scores
score_labels ((index, category) ∷ rest) probabilities scores =
    elim (get_elem? probabilities index) [
      | none ↦ raised index_error
      | some probability ↦
          score_labels rest probabilities
            (set_score category (max_of (get_score category scores) probability) scores)
    ]

unfoldable pub predict_scores :
    {R : Type 0} → Network R → LabelCategories → ValidatedImage → Result Scores
unfolding score_labels
predict_scores network label_categories image = elim (network.open_rgb image.data_bytes) [
  | bomb ↦ raised (too_large "image exceeds the safe decoded-pixel limit")
  | undecodable ↦ raised (invalid "image could not be decoded safely")
  | sanitized rgb ↦ score_labels label_categories (network.probabilities rgb) []
]
