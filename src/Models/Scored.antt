-- ===== src/Models/Scored.antt =====
-- The scores of a loaded model: src/sentinel/multimodal/timm_model.py with engine.py.
use sentinel_content_safety.Base.{
  ℕ, ◌≡◌, refl, String, true, Option, none, some, List, [], length, all, leb,
}
use sentinel_content_safety.Base.Action.{ok}
use sentinel_content_safety.Base.Dict.{Dict}
use sentinel_content_safety.Schemas.{SafetyCategory}
use sentinel_content_safety.Multimodal.Engine.{Scores, refused}
use sentinel_content_safety.Multimodal.Image.{ValidatedImage}
use sentinel_content_safety.Multimodal.Image
use sentinel_content_safety.Models.Checksum.{Hash}
use sentinel_content_safety.Models.Labels.{Json}
use sentinel_content_safety.Models.Predict.{Network, sanitized, get_score, predict_scores}
use sentinel_content_safety.Models.Load.{Artifact, ImageAdapter, load}
use sentinel_content_safety.Models.Accepted.{one, score_labels-fits}
use sentinel_content_safety.Models.Reviewed.{IsReviewed, load-IsReviewed}
use sentinel_content_safety.Models.Maximum.{IsMaximum, score_labels-IsMaximum}

-- What timm and softmax document: a network of a number of classes gives a probability for each.
unfoldable pub Classifies :
    {R : Type 0} → (Dict Json → List (Option String) → List ℕ → Option (Network R)) → Type 0
Classifies {R} build =
    (metadata : Dict Json) (label_names : List (Option String)) (weights : List ℕ)
    (network : Network R)
    → build metadata label_names weights ≡ some network
    → (rgb : R)
    → (length (network.probabilities rgb) ≡ length label_names)
      × (all (λ p. leb p one) (network.probabilities rgb) ≡ true)

-- If a network of timm gives a probability for each class, a loaded model is a reviewed one, so that its
-- categories are those that the metadata declare, and it scores every image that Pillow opens: no
-- index is out of range, the engine accepts the scores, and the score of each category is the
-- greatest probability of the labels of that category.
pub loaded-IsMaximum :
    {D R : Type 0} (hash : Hash D)
    (build : Dict Json → List (Option String) → List ℕ → Option (Network R)) (artifact : Artifact)
    {adapter : ImageAdapter R}
    → Classifies build
    → load hash build artifact ≡ ok adapter
    → (image : ValidatedImage) (rgb : R) → adapter.network.open_rgb image.data_bytes ≡ sanitized rgb
    → IsReviewed hash build artifact adapter
      × (scores : Scores) × (predict_scores adapter.network adapter.label_categories image
          ≡ Image.ok scores)
      × (refused scores ≡ none)
      × ((category : SafetyCategory)
          → IsMaximum category adapter.label_categories
              (adapter.network.probabilities rgb)
              (get_score category scores))
unfolding predict_scores Classifies
loaded-IsMaximum hash build artifact {adapter} classifies h image rgb opened =
    let reviewed = load-IsReviewed hash build artifact h in
    let (classes, low) =
      classifies reviewed.metadata reviewed.label_names reviewed.weights adapter.network
        reviewed.built rgb in
    let (scores, scored, accepted) =
      score_labels-fits adapter.label_categories (adapter.network.probabilities rgb) []
        (rw classes reviewed.labels.labels) low refl in
    (
      reviewed,
      scores,
      rw (opened, predict_scores) scored,
      accepted,
      score_labels-IsMaximum adapter.label_categories (adapter.network.probabilities rgb) scores
          scored,
    )
