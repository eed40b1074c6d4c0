-- ===== src/Threat/Qdrant.antt =====
-- `QdrantThreatVectorStore` of src/sentinel/threat_intelligence/adapters.py, and
-- `_build_threat_intelligence` of src/sentinel/runtime.py. The client of Qdrant is a parameter.
use sentinel_content_safety.Base.{
  ℕ, String, Bool, Option, none, some, List, [], ◌∷◌, str_eq, if◌then◌else◌,
}
use sentinel_content_safety.Schemas.{Score}
use sentinel_content_safety.Core.Threat.{SimilarContentMatch, ThreatVectorStore}
use sentinel_content_safety.Runtime.{Environment, getenv_or}
use sentinel_content_safety.Threat.Encoder.{HashedNgramEncoder, hashed_ngram_encoder}

-- A point that a query gives: its payload, if any, of which only the text counts that `str` makes of
-- its `request_id`, if it has one, and its score, if any.
pub record ScoredPoint : Type 0 where
  pub payload : Option (Option String)
  pub score : Option Score

-- The client with its state; `upsert` stores one point, whose payload is the request alone.
pub record QdrantClient (V C : Type 0) : Type 0 where
  pub collection_exists : C → String → Bool
  pub create_collection : C → String → ℕ → C
  pub query_points : C → String → V → ℕ → Score → List ScoredPoint
  pub upsert : C → String → String → V → String → C

-- `float(point.score or 0.0)`
abbrev pub score_or_zero : Option Score → Score
score_or_zero none = 0
score_or_zero (some score) = score

-- The comprehension of `search`.
unfoldable pub matches_of_points : List ScoredPoint → List SimilarContentMatch
matches_of_points [] = []
matches_of_points (point ∷ points) =
    let rest = matches_of_points points in
    elim point.payload [
      | none ↦ rest
      | some payload ↦ elim payload [
        | none ↦ rest
        | some request_id ↦
            record { request_id = request_id; score = score_or_zero point.score } ∷ rest
      ]
    ]

module _ {V C : Type 0} (client : QdrantClient V C) where
  -- `connect`: the collection is created where it is not there.
  unfoldable pub connect : String → ℕ → C → C
  connect collection_name vector_size c =
      if client.collection_exists c collection_name
      then c
      else client.create_collection c collection_name vector_size

  -- `search` and `upsert`
  unfoldable pub qdrant_vectors : String → ThreatVectorStore V C
  unfolding matches_of_points
  qdrant_vectors collection_name = record {
    search = λ c vector limit score_threshold.
        matches_of_points (client.query_points c collection_name vector limit score_threshold);
    upsert =
        λ c point_id vector request_id. client.upsert c collection_name point_id vector request_id;
  }

-- What `_build_threat_intelligence` builds.
pub record ThreatParts : Type 0 where
  pub url : String
  pub collection_name : String
  pub encoder : HashedNgramEncoder
  pub similarity_threshold : Score

-- Nothing without a URL; `some none` where a setting is refused by `int`, `float` or the encoder.
unfoldable pub build_threat_intelligence :
    Environment → (String → Option Score) → Option (Option ThreatParts)
build_threat_intelligence env float = elim (env.getenv "SENTINEL_QDRANT_URL") [
  | none ↦ none
  | some url ↦
      if str_eq url ""
      then none
      else some (elim (env.int (getenv_or env "SENTINEL_THREAT_VECTOR_SIZE" "384")) [
        | none ↦ none
        | some dimension ↦ elim (hashed_ngram_encoder dimension) [
          | none ↦ none
          | some encoder ↦
              elim (float (getenv_or env "SENTINEL_THREAT_SIMILARITY_THRESHOLD" "0.90")) [
                | none ↦ none
                | some threshold ↦ some (record {
                  url = url;
                  collection_name =
                      getenv_or env "SENTINEL_QDRANT_COLLECTION" "sentinel-threat-signals-v1";
                  encoder = encoder;
                  similarity_threshold = threshold;
                })
              ]
        ]
      ])
]
