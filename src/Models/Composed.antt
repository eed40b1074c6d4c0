-- ===== src/Models/Composed.antt =====
-- The engine of src/sentinel/multimodal/engine.py with a loaded model of timm_model.py.
use sentinel_content_safety.Base.{
  ◌⊎◌, subst, ℕ, ◌≡◌, refl, String, Option, Option-cases, none, some, List, inl, inr,
}
use sentinel_content_safety.Base.Action.{ok}
use sentinel_content_safety.Base.Dict.{Dict}
use sentinel_content_safety.Schemas.{ModerationRequest, ModerationResponse, Time}
use sentinel_content_safety.Distributed.Service.{or_new}
use sentinel_content_safety.Multimodal.Engine.{
  Scores, refused, Fused, FusionError, image_error, unsupported_category, score_out_of_range,
  text_error, MultimodalModerationRequest, MultimodalModerationResponse, moderate,
}
use sentinel_content_safety.Multimodal.Engine
use sentinel_content_safety.Multimodal.Image.{ValidatedImage, ImageError, Result, decode_image}
use sentinel_content_safety.Multimodal.Image
use sentinel_content_safety.Multimodal.Total.{IsDeliberate, Returns, decode_image-Returns}
use sentinel_content_safety.Models.Checksum.{Hash}
use sentinel_content_safety.Models.Labels.{Json}
use sentinel_content_safety.Models.Predict.{
  Opened, bomb, undecodable, Network, sanitized, predict_scores,
}
use sentinel_content_safety.Models.Load.{Artifact, ImageAdapter, as_model, load}
use sentinel_content_safety.Models.Scored.{Classifies, loaded-IsMaximum}

-- An answer, an exception of the image boundary, or an exception of the text engine; no refused
-- scores, no index out of range.
abbrev pub IsAnswer : Fused MultimodalModerationResponse → Type 0
IsAnswer (Engine.ok response) = Unit
IsAnswer (Engine.raised (image_error e)) = IsDeliberate e
IsAnswer (Engine.raised (unsupported_category _)) = ⊥
IsAnswer (Engine.raised (score_out_of_range _)) = ⊥
IsAnswer (Engine.raised text_error) = Unit

-- Scores that the engine accepts, or an exception of the image boundary.
abbrev IsScored : Result Scores → Type 0
IsScored (Image.ok scores) = refused scores ≡ none
IsScored (Image.raised e) = IsDeliberate e

Image_cases :
    {A : Type 0} (r : Result A)
    → ((a : A) × (r ≡ Image.ok a)) ⊎ ((e : ImageError) × (r ≡ Image.raised e))
Image_cases (Image.ok a) = inl (a, refl)
Image_cases (Image.raised e) = inr (e, refl)

Opened-cases :
    {R : Type 0} (o : Opened R)
    → (o ≡ bomb) ⊎ ((o ≡ undecodable) ⊎ ((rgb : R) × (o ≡ sanitized rgb)))
Opened-cases bomb = inl refl
Opened-cases undecodable = inr (inl refl)
Opened-cases (sanitized rgb) = inr (inr (rgb, refl))

module _ {D R : Type 0} (hash : Hash D)
    (build : Dict Json → List (Option String) → List ℕ → Option (Network R)) (artifact : Artifact)
    {adapter : ImageAdapter R} where
  predict_scores-IsScored :
      Classifies build
      → load hash build artifact ≡ ok adapter
      → (image : ValidatedImage)
      → IsScored (predict_scores adapter.network adapter.label_categories image)
  unfolding predict_scores
  predict_scores-IsScored classifies h image =
      elim (Opened-cases (adapter.network.open_rgb image.data_bytes)) [
        | inl e ↦ rw (e, predict_scores) tt
        | inr (inl e) ↦ rw (e, predict_scores) tt
        | inr (inr (rgb, e)) ↦
            let (_, scores, scored, accepted, _) =
              loaded-IsMaximum hash build artifact classifies h image rgb e in
            rw scored accepted
      ]

  -- The engine with a loaded model answers every request, or raises an exception of the image boundary
  -- or of the text engine: its own two checks of the scores never fail, and no label is out of range.
  pub moderate-IsAnswer :
      {T : Type 0} (b64decode : String → Option (List ℕ))
      (text_engine : ModerationRequest → T → Option (ModerationResponse × T)) (uuid4 : String)
      (now : Time) (request : MultimodalModerationRequest) (store : T)
      → Classifies build
      → load hash build artifact ≡ ok adapter
      → let (answer, _) =
          moderate b64decode text_engine (as_model adapter) uuid4 now request store in
        IsAnswer answer
  unfolding moderate Returns
  moderate-IsAnswer b64decode text_engine uuid4 now request store classifies h =
      let decoding = decode_image b64decode request.image_base64 request.media_type in
      elim (Image_cases decoding) [
        | inr (e, failed) ↦
            rw (failed, moderate)
              (subst Returns failed
                (decode_image-Returns b64decode request.image_base64 request.media_type))
        | inl (image, decoded) ↦
            let scored = predict_scores-IsScored classifies h image in
            elim (Image_cases (predict_scores adapter.network adapter.label_categories image)) [
              | inr (e, failed) ↦ rw (decoded, failed, moderate) (subst IsScored failed scored)
              | inl (scores, done) ↦
                  let accepted = subst IsScored done scored in
                  elim (Option-cases request.text) [
                    | inl no_text ↦ rw (decoded, done, accepted, no_text, moderate) tt
                    | inr (words, sent) ↦
                        elim (Option-cases (
                          text_engine
                            (record {
                              text = words;
                              request_id = some (or_new request.request_id uuid4);
                            })
                            store)) [
                              | inl failed ↦ rw (decoded, done, accepted, sent, failed, moderate) tt
                              | inr (answer, given) ↦
                                  rw (decoded, done, accepted, sent, given, moderate) tt
                            ]
                  ]
            ]
      ]
