-- ===== src/Core/Threat.antt =====
-- src/sentinel/threat_intelligence/: the service, its protocols and the in-memory store. Vectors,
-- their cosine and the arithmetic on scores are parameters; a threshold is not negative.
use Prim.Native.String.{◌++◌ as str_append}
use sentinel_content_safety.Base.{
  Option, none, some, ℕ, zero, suc, String, Bool, not, List, [], ◌∷◌, length, keep, str_eq, max_of,
  leb, if◌then◌else◌,
}
use sentinel_content_safety.Base.Dict.{Dict, insert, values}
use sentinel_content_safety.Schemas.{Score}
use sentinel_content_safety.Core.Trie.{Text}

pub record SimilarContentMatch : Type 0 where
  pub request_id : String
  pub score : Score

pub record TextEncoder (V : Type 0) : Type 0 where
  pub version : String
  pub encode : Text → V

pub record ThreatVectorStore (V T : Type 0) : Type 0 where
  pub search : T → V → ℕ → Score → List SimilarContentMatch
  pub upsert : T → String → V → String → T

pub record ThreatAssessment : Type 0 where
  pub match_count : ℕ
  pub maximum_similarity : Score
  pub risk_score : Score

unfoldable pub coordinated : ThreatAssessment → Bool
coordinated a = leb 2 a.match_count

abbrev pub maximum : List SimilarContentMatch → Score
maximum [] = 0
maximum (m ∷ ms) = max_of m.score (maximum ms)

abbrev pub min_of : ℕ → ℕ → ℕ
min_of a b = if leb a b then a else b

-- `base_and_steps n` is the float `0.55 + 0.05 * n`.
pub record ThreatSettings (V : Type 0) : Type 0 where
  pub encoder : TextEncoder V
  pub uuid5 : String → String
  pub base_and_steps : ℕ → Score
  pub similarity_threshold : Score
  pub search_limit : ℕ

-- 0.90 from five matches on; from two on what `base_and_steps` gives, and 0.84 at most.
unfoldable pub campaign_risk : (ℕ → Score) → ℕ → Score
campaign_risk base_and_steps match_count =
    if leb 5 match_count
    then 0x3feccccccccccccd
    else if leb 2 match_count
    then min_of 0x3feae147ae147ae1 (base_and_steps match_count)
    else 0

module _ {V T : Type 0} (settings : ThreatSettings V) (vectors : ThreatVectorStore V T) where
  unfoldable pub assess_and_index : T → String → Text → ThreatAssessment × T
  unfolding campaign_risk
  assess_and_index store request_id text =
      let vector = settings.encoder.encode text in
      let matches =
        vectors.search store vector settings.search_limit settings.similarity_threshold in
      let distinct =
        keep (λ (m : SimilarContentMatch). not (str_eq m.request_id request_id)) matches in
      let point_id = settings.uuid5 (str_append "sentinel:threat:" request_id) in
      (
        record {
          match_count = length distinct;
          maximum_similarity = maximum distinct;
          risk_score = campaign_risk settings.base_and_steps (length distinct);
        },
        vectors.upsert store point_id vector request_id,
      )

-- `InMemoryThreatVectorStore`
pub record Point (V : Type 0) : Type 0 where
  pub vector : V
  pub request_id : String

abbrev pub sort_match : SimilarContentMatch → List SimilarContentMatch → List SimilarContentMatch
sort_match m [] = m ∷ []
sort_match m (n ∷ ns) = if leb n.score m.score then m ∷ n ∷ ns else n ∷ sort_match m ns

abbrev pub sort_matches : List SimilarContentMatch → List SimilarContentMatch
sort_matches [] = []
sort_matches (m ∷ ms) = sort_match m (sort_matches ms)

abbrev pub take : ℕ → List SimilarContentMatch → List SimilarContentMatch
take zero ms = []
take (suc n) [] = []
take (suc n) (m ∷ ms) = m ∷ take n ms

-- The cosine of two vectors is none where it is negative: then it is below every threshold.
module _ {V : Type 0} (cosine : V → V → Option Score) where
  abbrev pub matches_of : V → Score → List (Point V) → List SimilarContentMatch
  matches_of vector score_threshold [] = []
  matches_of vector score_threshold (p ∷ ps) =
      let rest = matches_of vector score_threshold ps in
      elim (cosine vector p.vector) [
        | none ↦ rest
        | some score ↦
            if leb score_threshold score
            then record { request_id = p.request_id; score = score } ∷ rest
            else rest
      ]

  unfoldable pub search : Dict (Point V) → V → ℕ → Score → List SimilarContentMatch
  search points vector limit score_threshold =
      take limit (sort_matches (matches_of vector score_threshold (values points)))

  unfoldable pub upsert : Dict (Point V) → String → V → String → Dict (Point V)
  upsert points point_id vector request_id =
      insert point_id (record { vector = vector; request_id = request_id }) points

  abbrev pub memory_vectors : ThreatVectorStore V (Dict (Point V))
  memory_vectors = record { search = search; upsert = upsert }
