-- ===== src/Core/Engine.antt =====
-- src/sentinel/core/engine.py and src/sentinel/ml/ensemble.py: the text engine over a toxicity model
-- and a threat intelligence, both of which may be absent.
use Prim.Native.String.{◌++◌ as str_append}
use sentinel_content_safety.Base.{
  String, Option, none, some, List, [], ◌∷◌, ◌++◌, max_of, leb, if◌then◌else◌,
}
use sentinel_content_safety.Schemas.{
  Decision, SafetyCategory, ModerationRequest, ModerationSignal, ModerationResponse, Score, Time,
}
use sentinel_content_safety.Core.Trie.{Text}
use sentinel_content_safety.Core.Normalization.{Unicode, normalize_text}
use sentinel_content_safety.Core.Rules.{
  SafetyRule, RuleEngine, rule_engine, default_rules, evaluate,
}
use sentinel_content_safety.Core.Threat.{
  ThreatAssessment, ThreatSettings, ThreatVectorStore, coordinated, assess_and_index,
}
use sentinel_content_safety.Distributed.Service.{or_new}

-- 0.40 and 0.85
abbrev pub model_review_threshold : Score
model_review_threshold = 0x3fd999999999999a

abbrev pub block_threshold : Score
block_threshold = 0x3feb333333333333

pub record ToxicityModel : Type 0 where
  pub version : String
  pub predict_score : Text → Score

-- `max` over the members of an ensemble, the first one given apart.
abbrev pub max_score : Text → ToxicityModel → List ToxicityModel → Score
max_score text m [] = m.predict_score text
max_score text m (n ∷ ns) = max_of (m.predict_score text) (max_score text n ns)

-- `MaxScoreToxicityEnsemble`, which refuses fewer than two models.
unfoldable pub max_score_ensemble : List ToxicityModel → Option ToxicityModel
max_score_ensemble [] = none
max_score_ensemble (m ∷ []) = none
max_score_ensemble (m ∷ n ∷ ns) = some (record {
  version = "sentinel-max-ensemble-v1";
  predict_score = λ text. max_score text m (n ∷ ns);
})

-- The decision of a risk score; the multimodal engine decides the same way.
unfoldable pub decision_of : Score → Decision
decision_of risk_score =
    if leb block_threshold risk_score
    then Decision.block
    else if leb model_review_threshold risk_score
    then Decision.review
    else Decision.allow

abbrev pub rule_signals : List SafetyRule → List ModerationSignal
rule_signals [] = []
rule_signals (r ∷ rs) =
    record {
      source = "heuristic";
      category = r.category;
      score = r.severity;
      reason_code = r.reason_code;
    }
    ∷ rule_signals rs

-- `max(..., default=0.0)`
abbrev pub rule_score : List SafetyRule → Score
rule_score [] = 0
rule_score (r ∷ rs) = max_of r.severity (rule_score rs)

abbrev pub model_signals : String → Score → List ModerationSignal
model_signals version score =
    if leb model_review_threshold score
    then record {
      source = str_append "ml:" version;
      category = SafetyCategory.toxicity;
      score = score;
      reason_code = "toxicity_probability";
    }
      ∷ []
    else []

abbrev pub threat_signals : String → ThreatAssessment → List ModerationSignal
threat_signals version assessment =
    if coordinated assessment
    then record {
      source = str_append "vector:" version;
      category = SafetyCategory.coordinated_abuse;
      score = assessment.risk_score;
      reason_code = "similar_content_campaign";
    }
      ∷ []
    else []

-- What one call reads: the two identifiers of `uuid4` and the clock.
pub record Stamp : Type 0 where
  pub threat_id : String
  pub response_id : String
  pub now : Time

pub record ModerationEngine (V T : Type 0) : Type 0 where
  pub rules : RuleEngine
  pub toxicity_model : Option ToxicityModel
  pub threat_intelligence : Option (ThreatSettings V × ThreatVectorStore V T)

-- `ModerationEngine.default`
unfoldable pub default :
    {V T : Type 0}
    → Option ToxicityModel
    → Option (ThreatSettings V × ThreatVectorStore V T)
    → ModerationEngine V T
unfolding rule_engine
default toxicity_model threat_intelligence = record {
  rules = rule_engine default_rules;
  toxicity_model = toxicity_model;
  threat_intelligence = threat_intelligence;
}

-- The part of `moderate` that asks the toxicity model: its score and its signals.
unfoldable pub model_part : Option ToxicityModel → Text → Score × List ModerationSignal
model_part none text = (0, [])
model_part (some m) text = (m.predict_score text, model_signals m.version (m.predict_score text))

-- The part that asks the threat intelligence, on the text as it was sent.
unfoldable pub threat_part :
    {V T : Type 0}
    → Option (ThreatSettings V × ThreatVectorStore V T)
    → Stamp
    → ModerationRequest
    → T
    → (Score × List ModerationSignal) × T
threat_part none stamp request store = ((0, []), store)
threat_part (some (settings, vectors)) stamp request store =
    let (assessment, store') =
      assess_and_index settings vectors store (or_new request.request_id stamp.threat_id)
        request.text in
    ((assessment.risk_score, threat_signals settings.encoder.version assessment), store')

-- The part of `moderate` after the rules are matched.
unfoldable pub answer :
    {V T : Type 0}
    → Unicode
    → ModerationEngine V T
    → Stamp
    → ModerationRequest
    → T
    → List SafetyRule
    → ModerationResponse × T
unfolding decision_of model_part threat_part
answer u engine stamp request store matches =
    let (model_score, model_found) =
      model_part engine.toxicity_model (normalize_text u request.text) in
    let ((threat_score, threat_found), store') =
      threat_part engine.threat_intelligence stamp request store in
    let risk_score = max_of (rule_score matches) (max_of model_score threat_score) in
    (
      record {
        request_id = or_new request.request_id stamp.response_id;
        decision = decision_of risk_score;
        risk_score = risk_score;
        signals = rule_signals matches ++ model_found ++ threat_found;
        policy_version = "2026-08-27";
        evaluated_at = stamp.now;
      },
      store',
    )

-- `moderate`; nothing where a rule were missing, which would be a KeyError.
unfoldable pub moderate :
    {V T : Type 0}
    → Unicode
    → ModerationEngine V T
    → Stamp
    → ModerationRequest
    → T
    → Option (ModerationResponse × T)
unfolding answer evaluate
moderate u engine stamp request store =
    elim (evaluate engine.rules (normalize_text u request.text)) [
      | none ↦ none
      | some matches ↦ some (answer u engine stamp request store matches)
    ]
