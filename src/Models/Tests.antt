-- ===== src/Models/Tests.antt =====
-- The theorems on models at the files that scripts/download_image_model.py writes.
use sentinel_content_safety.Base.{
  ℕ, suc, subst, some-inj, String, ◌≡◌, refl, Option, none, some, List, [], ◌∷◌, length, all, leb,
  true, ap, ◌++◌,
}
use sentinel_content_safety.Base.Action.{ok}
use sentinel_content_safety.Base.Dict.{Dict}
use sentinel_content_safety.Schemas.{
  SafetyCategory, ImageMediaType, Score, ModerationRequest, ModerationResponse,
}
use sentinel_content_safety.Multimodal.Engine.{
  Scores, refused, MultimodalModerationRequest, moderate,
}
use sentinel_content_safety.Multimodal.Image.{ValidatedImage}
use sentinel_content_safety.Multimodal.Image
use sentinel_content_safety.Models.Checksum.{Hash, sha256_of, digest_stream}
use sentinel_content_safety.Models.Labels.{Json, text, list, mapping, other}
use sentinel_content_safety.Models.Predict.{sanitized, Network, get_score, predict_scores}
use sentinel_content_safety.Models.Load.{ImageAdapter, as_model, load}
use sentinel_content_safety.Models.Download.{
  reviewed_sha256, metadata, download, artifact_of, image_safety, download-load,
}
use sentinel_content_safety.Models.Accepted.{one}
use sentinel_content_safety.Models.Maximum.{IsMaximum}
use sentinel_content_safety.Models.Reviewed.{IsReviewed, load-IsReviewed}
use sentinel_content_safety.Models.Scored.{Classifies, loaded-IsMaximum}
use sentinel_content_safety.Models.Composed.{IsAnswer, moderate-IsAnswer}

-- A hash that keeps what it reads and shows the reviewed digest.
abbrev hash : Hash (List ℕ)
hash = record { sha256 = []; update = λ d xs. d ++ xs; hexdigest = λ _. reviewed_sha256 }

abbrev str : Json → String
str (text s) = s
str (list _) = "[]"
str (mapping _) = "{}"
str other = "0"

-- A network that gives each class one half.
abbrev half : Score
half = 0x3fe0000000000000

abbrev halves : List (Option String) → List Score
halves [] = []
halves (name ∷ names) = half ∷ halves names

abbrev network : List (Option String) → Network (List ℕ)
network names = record { open_rgb = λ bytes. sanitized bytes; probabilities = λ rgb. halves names }

abbrev build : Dict Json → List (Option String) → List ℕ → Option (Network (List ℕ))
build fields names weights = some (network names)

halves-fit :
    (names : List (Option String))
    → (length (halves names) ≡ length names) × (all (λ p. leb p one) (halves names) ≡ true)
halves-fit [] = (refl, refl)
halves-fit (name ∷ names) = let (a, b) = halves-fit names in (ap suc a, b)

build-Classifies : Classifies build
unfolding Classifies
build-Classifies fields names weights n e rgb =
    subst
      (λ (m : Network (List ℕ)).
        (length (m.probabilities rgb) ≡ length names)
        × (all (λ p. leb p one) (m.probabilities rgb) ≡ true))
      (some-inj e) (halves-fit names)

abbrev classes : List (Option String)
classes = some "NSFL" ∷ some "NSFW" ∷ some "SFW" ∷ []

abbrev files : List ℕ × Dict Json
unfolding metadata
files = (7 ∷ [], metadata)

download-load_example :
    load hash build (artifact_of str files) ≡ ok (image_safety (network classes))
unfolding files download digest_stream sha256_of
download-load_example = download-load hash build str (7 ∷ []) {files = files} (λ s. refl) refl refl

abbrev loaded : ImageAdapter (List ℕ)
loaded = image_safety (network classes)

loads : load hash build (artifact_of str files) ≡ ok loaded
unfolding files download digest_stream sha256_of
loads = download-load hash build str (7 ∷ []) {files = files} (λ s. refl) refl refl

load-IsReviewed_example : IsReviewed hash build (artifact_of str files) loaded
load-IsReviewed_example =
    load-IsReviewed hash build (artifact_of str files) {adapter = loaded} loads

abbrev image : ValidatedImage
image = record { data_bytes = 1 ∷ []; format = "PNG"; width = 3; height = 2; bytes_received = 1 }

loaded-IsMaximum_example :
    IsReviewed hash build (artifact_of str files) loaded
    × (scores : Scores) × (predict_scores loaded.network loaded.label_categories image
        ≡ Image.ok scores)
    × (refused scores ≡ none)
    × ((category : SafetyCategory)
        → IsMaximum category loaded.label_categories (halves classes) (get_score category scores))
loaded-IsMaximum_example =
    loaded-IsMaximum hash build (artifact_of str files) {adapter = loaded} build-Classifies loads
      image (1 ∷ []) refl

abbrev request : MultimodalModerationRequest
request = record {
  image_base64 = "AQ==";
  media_type = ImageMediaType.png;
  text = some (104 ∷ 105 ∷ []);
  request_id = none;
}

abbrev silent : ModerationRequest → ℕ → Option (ModerationResponse × ℕ)
silent asked store = none

moderate-IsAnswer_example :
    let (answer, _) = moderate (λ s. some (1 ∷ [])) silent (as_model loaded) "u1" 9 request 0 in
    IsAnswer answer
moderate-IsAnswer_example =
    moderate-IsAnswer hash build (artifact_of str files) {adapter = loaded} (λ s. some (1 ∷ []))
      silent "u1" 9 request 0 build-Classifies loads
