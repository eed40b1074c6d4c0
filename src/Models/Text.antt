-- ===== src/Models/Text.antt =====
-- src/sentinel/ml/baseline.py and src/sentinel/ml/transformer.py: the adapters of the text models.
-- joblib, the tokenizer and the networks are parameters.
use sentinel_content_safety.Base.{ℕ, String, Option, none, some}
use sentinel_content_safety.Schemas.{Score}
use sentinel_content_safety.Core.Trie.{Text}
use sentinel_content_safety.Core.Engine.{ToxicityModel}

-- What joblib reads: the pipeline of two classes, as the two entries of `predict_proba([text])[0]`,
-- and the version in the metadata.
pub record Bundle : Type 0 where
  pub predict_proba : Text → Score × Score
  pub model_version : String

-- `SklearnToxicityModel.load` and `predict_score`
unfoldable pub load_baseline : Bundle → ToxicityModel
load_baseline bundle = record {
  version = bundle.model_version;
  predict_score = λ text. let (_, probability) = bundle.predict_proba text in probability;
}

-- `sentinel_metadata.json` of a transformer; each field may be absent.
pub record TransformerMetadata : Type 0 where
  pub model_version : Option String
  pub max_length : Option ℕ

-- `metadata.get(name, default)`
abbrev pub get_or : {A : Type 0} → A → Option A → A
get_or default none = default
get_or default (some value) = value

-- `TransformerToxicityModel.load` and `predict_score`. `probabilities` is the softmax of the network
-- on the tokens of a text, cut off after a number of them; without the file both fields are absent.
unfoldable pub load_transformer :
    (ℕ → Text → Score × Score) → Option TransformerMetadata → ToxicityModel
load_transformer probabilities none = record {
  version = "distilbert-toxicity-v1";
  predict_score = λ text. let (_, probability) = probabilities 256 text in probability;
}
load_transformer probabilities (some metadata) = record {
  version = get_or "distilbert-toxicity-v1" metadata.model_version;
  predict_score = λ text.
      let (_, probability) = probabilities (get_or 256 metadata.max_length) text in probability;
}
