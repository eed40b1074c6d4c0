-- ===== src/Threat/Campaign.antt =====
-- What the service of src/sentinel/threat_intelligence/service.py sees of a campaign, over the
-- in-memory store.
use sentinel_content_safety.Base.{
  both, ◌≡◌, refl, ap, ◌∙◌, String, Bool, true, not, ◌&&◌, Bool-cases, Option-cases, some, inl, inr,
  Option, List, [], ◌∷◌, ◌++◌, length, length-append, all, map, keep, str_eq, leb, arith,
}
use sentinel_content_safety.Base.Dict.{Dict, values}
use sentinel_content_safety.Schemas.{Score}
use sentinel_content_safety.Core.Trie.{Text}
use sentinel_content_safety.Core.Threat.{
  SimilarContentMatch, Point, TextEncoder, ThreatSettings, coordinated, campaign_risk, sort_matches,
  take, matches_of, min_of, assess_and_index, memory_vectors, search, upsert,
}
use sentinel_content_safety.Core.Normalization.{Unicode, normalize_text}
use sentinel_content_safety.Threat.Encoder.{Floats, HashedNgramEncoder, encode, text_encoder}
use sentinel_content_safety.Threat.Indexed.{
  all-append_one, all-sort_matches, all-take, keep-all, length-sort_matches, length-take, copies,
  is_fresh, insert-copies, points_fresh,
}
use Prim.Native.String.{◌++◌ as str_append}

-- Identifiers without repetition
abbrev pub distinct : List String → Bool
distinct [] = true
distinct (i ∷ is) = is_fresh i is && distinct is

abbrev pub point_id : {V : Type 0} → ThreatSettings V → String → String
point_id settings i = settings.uuid5 (str_append "sentinel:threat:" i)

module _ {V : Type 0} (settings : ThreatSettings V) (cosine : V → V → Option Score)
    (text_of : String → Text) where
  -- The store after requests, the oldest of which is the last of the list, each with its text.
  unfoldable pub index_all : List String → Dict (Point V)
  unfolding assess_and_index
  index_all [] = []
  index_all (i ∷ is) =
      (assess_and_index settings (memory_vectors cosine) (index_all is) i (text_of i)).1

  module _ (v : V) {near_itself : Score} (itself : cosine v v ≡ some near_itself) where
    -- The matches of the points of such requests.
    unfoldable found : List String → List SimilarContentMatch
    found [] = []
    found (i ∷ is) = found is ++ record { request_id = i; score = near_itself } ∷ []

    matches_of-append :
        (t : Score) (d : Dict (Point V)) (k j : String)
        → leb t near_itself ≡ true
        → matches_of cosine v t (values (d ++ (k, record { vector = v; request_id = j }) ∷ []))
          ≡ matches_of cosine v t (values d) ++ record { request_id = j; score = near_itself } ∷ []
    unfolding values
    matches_of-append t [] k j h = rw (itself, h) refl
    matches_of-append t ((i, p) ∷ d) k j h = elim (Option-cases (cosine v p.vector)) [
      | inl negative ↦ rw negative (matches_of-append t d k j h)
      | inr (score, e) ↦ elim (Bool-cases (leb t score)) [
        | inl near ↦
            rw (e, near)
              (ap (λ ms. record { request_id = p.request_id; score = score } ∷ ms)
                (matches_of-append t d k j h))
        | inr far ↦ rw (e, far) (matches_of-append t d k j h)
      ]
    ]

    matches-copies :
        (t : Score) (is : List String)
        → leb t near_itself ≡ true
        → matches_of cosine v t (values (copies (point_id settings) v is)) ≡ found is
    unfolding copies found values
    matches-copies t [] h = refl
    matches-copies t (i ∷ is) h =
        matches_of-append t (copies (point_id settings) v is) (point_id settings i) i h
        ∙ ap (λ ms. ms ++ record { request_id = i; score = near_itself } ∷ [])
            (matches-copies t is h)

    length-found : (is : List String) → length (found is) ≡ length is
    unfolding found
    length-found [] = refl
    length-found (i ∷ is) =
        length-append (found is) (record { request_id = i; score = near_itself } ∷ [])
        ∙ omega (arith, length-found is)

    found-fresh :
        (j : String) (is : List String)
        → is_fresh j is ≡ true
        → all (λ (m : SimilarContentMatch). not (str_eq m.request_id j)) (found is) ≡ true
    unfolding found
    found-fresh j [] h = refl
    found-fresh j (i ∷ is) h =
        let (own, later) = both (not (str_eq i j)) (is_fresh j is) h in
        all-append_one (λ (m : SimilarContentMatch). not (str_eq m.request_id j)) (found is)
          (record { request_id = i; score = near_itself }) (found-fresh j is later) own

  module _ (v : V) {near_itself : Score} (itself : cosine v v ≡ some near_itself)
      (near : (i : String) → settings.encoder.encode (text_of i) ≡ v) where
    abbrev points_of : List String → List String
    points_of = map (point_id settings)

    index_all-copies :
        (is : List String)
        → distinct (points_of is) ≡ true
        → index_all is ≡ copies (point_id settings) v is
    unfolding index_all assess_and_index upsert copies
    index_all-copies [] h = refl
    index_all-copies (i ∷ is) h =
        let (own, later) =
          both (is_fresh (point_id settings i) (points_of is)) (distinct (points_of is)) h in
        rw (near i, index_all-copies is later) (insert-copies (point_id settings) v i is own)

    seen :
        (is : List String) (new : String)
        → leb settings.similarity_threshold near_itself ≡ true
        → distinct (points_of (new ∷ is)) ≡ true
        → length (
            keep
              (λ (m : SimilarContentMatch). not (str_eq m.request_id new))
              (search cosine (index_all is) v settings.search_limit settings.similarity_threshold))
          ≡ min_of settings.search_limit (length is)
    unfolding search
    seen is new h d =
        let (fresh_point, later) =
          both (is_fresh (point_id settings new) (points_of is)) (distinct (points_of is)) d in
        let own = points_fresh (point_id settings) v new is fresh_point in
        let sorted = sort_matches (found v itself is) in
        let p : SimilarContentMatch → Bool = λ m. not (str_eq m.request_id new) in
        let others =
          all-take p settings.search_limit sorted
            (all-sort_matches p (found v itself is) (found-fresh v itself new is own)) in
        rw (index_all-copies is later, matches-copies v itself settings.similarity_threshold is h)
          (ap length (keep-all p (take settings.search_limit sorted) others)
            ∙ length-take settings.search_limit sorted
            ∙ ap (min_of settings.search_limit)
                (length-sort_matches (found v itself is) ∙ length-found v itself is))

    -- A campaign: requests whose identifiers have different UUID5s, whose texts the encoder gives one vector that
    -- is as near to itself as the threshold asks. The next such request counts all of them, up to the
    -- limit of the search, and its risk is that of the count.
    pub assess_and_index-near :
        (is : List String) (new : String)
        → leb settings.similarity_threshold near_itself ≡ true
        → distinct (points_of (new ∷ is)) ≡ true
        → let (assessment, _) =
            assess_and_index settings (memory_vectors cosine) (index_all is) new (text_of new) in
          let count = min_of settings.search_limit (length is) in
          (assessment.match_count ≡ count)
          × (assessment.risk_score ≡ campaign_risk settings.base_and_steps count)
          × (coordinated assessment ≡ leb 2 count)
    unfolding assess_and_index coordinated search
    assess_and_index-near is new h d =
        let e =
          ap
            (λ x. length (
              keep (λ (m : SimilarContentMatch). not (str_eq m.request_id new))
                (search cosine (index_all is) x settings.search_limit
                  settings.similarity_threshold)))
            (near new)
          ∙ seen is new h d in
        (e, ap (campaign_risk settings.base_and_steps) e, ap (leb 2) e)

encode-same :
    {F : Type 0} (floats : Floats F) (ngrams : HashedNgramEncoder) (unicode : Unicode) (a b : Text)
    → normalize_text unicode a ≡ normalize_text unicode b
    → encode floats ngrams unicode a ≡ encode floats ngrams unicode b
unfolding encode
encode-same floats ngrams unicode a b h = rw (h, encode) refl

-- Near duplicates under the encoder of the source: requests whose identifiers have different UUID5s,
-- and whose texts have one normalized form, as attacks on the rules leave it. Where the vector of that form is as near
-- to itself as the threshold asks, the next such request counts all the others, up to the limit of
-- the search; its risk is that of the count, and it is coordinated from two on.
pub assess_and_index-campaign :
    {F : Type 0} (floats : Floats F) (ngrams : HashedNgramEncoder) (unicode : Unicode)
    (settings : ThreatSettings (Option (List F)))
    (cosine : Option (List F) → Option (List F) → Option Score) (text_of : String → Text)
    (text : Text) (is : List String) (new : String) {near_itself : Score}
    → settings.encoder ≡ text_encoder floats ngrams unicode
    → ((i : String) → normalize_text unicode (text_of i) ≡ normalize_text unicode text)
    → cosine (encode floats ngrams unicode text) (encode floats ngrams unicode text)
      ≡ some near_itself
    → leb settings.similarity_threshold near_itself ≡ true
    → distinct (map (point_id settings) (new ∷ is)) ≡ true
    → let (assessment, _) =
        assess_and_index settings
          (memory_vectors cosine)
          (index_all settings cosine text_of is)
          new
          (text_of new) in
      let count = min_of settings.search_limit (length is) in
      (assessment.match_count ≡ count)
      × (assessment.risk_score ≡ campaign_risk settings.base_and_steps count)
      × (coordinated assessment ≡ leb 2 count)
assess_and_index-campaign floats ngrams unicode settings cosine text_of text is new own same itself
      h d =
    assess_and_index-near settings cosine text_of (encode floats ngrams unicode text) itself
      (λ i.
        ap (λ (e : TextEncoder _). e.encode (text_of i)) own
        ∙ encode-same floats ngrams unicode (text_of i) text (same i))
      is new h d
