-- ===== src/Multimodal/Fusion.antt =====
-- What the fusion of a text and an image guarantees.
use sentinel_content_safety.Base.{
  ℕ, ◌≤◌, ◌≡◌, refl, sym, String, true, false, some, [], ◌∷◌, all, max_of, leb, arith, ◌⊎◌, subst,
}
use sentinel_content_safety.Schemas.{Decision, SafetyCategory, ModerationResponse, Score, Time}
use sentinel_content_safety.Core.Engine.{decision_of}
use sentinel_content_safety.Multimodal.Image.{ValidatedImage}
use sentinel_content_safety.Multimodal.Engine.{
  Scores, ImageSafetyModel, image_risk, fuse, intervenes, differ,
}

-- How strict a decision is.
abbrev pub strictness : Decision → ℕ
strictness Decision.allow = 0
strictness Decision.review = 1
strictness Decision.block = 2

decision_of-le : (a b : Score) → a ≤ b → strictness (decision_of a) ≤ strictness (decision_of b)
unfolding decision_of
decision_of-le a b h = ground arith

image_risk-all :
    (scores : Scores) (risk : Score)
    → image_risk scores ≤ risk
    → all (λ (s : SafetyCategory × Score). leb s.1 risk) scores ≡ true
unfolding image_risk
image_risk-all [] risk h = refl
image_risk-all ((c, score) ∷ ss) risk h = ground (arith, image_risk-all ss risk)

disagreement_intervenes :
    (a b : Score)
    → (differ (intervenes a) (intervenes b) ≡ false) ⊎ (1 ≤ strictness (decision_of (max_of a b)))
unfolding decision_of
disagreement_intervenes a b = ground arith

-- The fusion of an image with the answer of the text engine: the decision is at least as strict as
-- that of the text, if the text's decision was that of its risk; no score of the image model is
-- above the risk; and the text and the image agree on whether to intervene, or the decision is
-- stricter than `allow`.
pub fuse-stricter :
    (request_id : String) (now : Time) (model : ImageSafetyModel) (decoded : ValidatedImage)
    (scores : Scores) (text_result : ModerationResponse)
    → text_result.decision ≡ decision_of text_result.risk_score
    → let fused = fuse request_id now model decoded scores (some text_result) in
      (strictness text_result.decision ≤ strictness fused.decision)
      × (all (λ (s : SafetyCategory × Score). leb s.1 fused.risk_score) scores ≡ true)
      × ((differ (intervenes text_result.risk_score) (intervenes (image_risk scores)) ≡ false)
          ⊎ (1 ≤ strictness fused.decision))
unfolding fuse
fuse-stricter request_id now model decoded scores text_result own =
    let risk = max_of text_result.risk_score (image_risk scores) in
    (
      subst (λ d. strictness d ≤ strictness (decision_of risk)) (sym own)
          (decision_of-le text_result.risk_score risk (ground arith)),
      image_risk-all scores risk (ground arith),
      disagreement_intervenes text_result.risk_score (image_risk scores),
    )
