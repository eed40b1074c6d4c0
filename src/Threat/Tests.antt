-- ===== src/Threat/Tests.antt =====
-- The theorems on threat intelligence at two texts with one normalized form.
use sentinel_content_safety.Base.{
  ℕ, suc, ◌≡◌, refl, String, Bool, true, false, Bool-cases, inl, inr, Option, some, List, [], ◌∷◌,
  length, str_eq, ◌==◌, leb, if◌then◌else◌,
}
use sentinel_content_safety.Schemas.{Score}
use sentinel_content_safety.Core.Trie.{Text}
use sentinel_content_safety.Core.Normalization.{Unicode, normalize_text}
use sentinel_content_safety.Core.Threat.{
  ThreatSettings, assess_and_index, memory_vectors, min_of, campaign_risk, coordinated,
}
use sentinel_content_safety.Threat.Encoder.{
  ℤ, pos, negsuc, Floats, HashedNgramEncoder, hashed_ngram_encoder, encode, text_encoder,
}
use sentinel_content_safety.Threat.Dimension.{encode-length}
use sentinel_content_safety.Threat.Campaign.{index_all, assess_and_index-campaign}

abbrev absolute : ℤ → ℕ
absolute (pos n) = n
absolute (negsuc n) = suc n

abbrev floats : Floats ℕ
floats = record {
  blake2b = λ token i. length token;
  float = absolute;
  norm = λ v. 0;
  is_zero = λ f. f == 0;
  div = λ v f. absolute v;
}

abbrev ngrams : HashedNgramEncoder
ngrams = record { dimension = 2; min_n = 3; max_n = 5 }

abbrev not_space : ℕ → Bool
not_space c = if c == b' ' then false else true

abbrev ascii : Unicode
ascii = record {
  nfkc = λ t. t;
  casefold = λ t. t;
  is_word = not_space;
  is_letter = not_space;
  is_space = λ c. c == b' ';
}

encode-length_example :
    (vector : List ℕ) × (encode floats ngrams ascii (b'b' ∷ b'4' ∷ b'd' ∷ []) ≡ some vector)
    × (length vector ≡ 2)
unfolding hashed_ngram_encoder
encode-length_example =
    encode-length floats ascii 2 {encoder = ngrams} refl (b'b' ∷ b'4' ∷ b'd' ∷ [])

abbrev near : Option (List ℕ) → Option (List ℕ) → Option Score
near v w = some 0x3ff0000000000000

abbrev settings : ThreatSettings (Option (List ℕ))
settings = record {
  encoder = text_encoder floats ngrams ascii;
  uuid5 = λ s. s;
  base_and_steps = λ n. 0x3fe4cccccccccccd;
  similarity_threshold = 0x3feccccccccccccd;
  search_limit = 20;
}

abbrev attacked : Text
attacked = b'b' ∷ b'4' ∷ b'd' ∷ []

abbrev plain : Text
plain = b'b' ∷ b'a' ∷ b'd' ∷ []

abbrev text_of : String → Text
text_of i = if str_eq i "r2" then attacked else plain

same_form : normalize_text ascii attacked ≡ normalize_text ascii plain
unfolding normalize_text sentinel_content_safety.Core.Normalization.translate
    sentinel_content_safety.Core.Normalization.leetspeak
same_form = refl

abbrev earlier : List String
earlier = "r2" ∷ "r1" ∷ []

one_form : (i : String) → normalize_text ascii (text_of i) ≡ normalize_text ascii plain
one_form i = elim (Bool-cases (str_eq i "r2")) [
  | inl second ↦ rw second (same_form)
  | inr first ↦ rw first refl
]

assess_and_index-campaign_example :
    let (assessment, _) =
      assess_and_index settings
        (memory_vectors near)
        (index_all settings near text_of earlier)
        "r3"
        (text_of "r3") in
    let count = min_of 20 (length earlier) in
    (assessment.match_count ≡ count)
    × (assessment.risk_score ≡ campaign_risk (λ n. 0x3fe4cccccccccccd) count)
    × (coordinated assessment ≡ leb 2 count)
assess_and_index-campaign_example =
    assess_and_index-campaign floats ngrams ascii settings near text_of plain earlier "r3" refl
      one_form refl refl refl
