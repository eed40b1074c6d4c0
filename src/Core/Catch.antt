-- ===== src/Core/Catch.antt =====
-- What the default engine does on every text: it answers, and it never lets a listed phrase pass.
use sentinel_content_safety.Base.{
  ◌≤◌, ◌≡◌, ◌≢◌, refl, ◌∙◌, true, Option, some, List, [], ◌∷◌, arith,
}
use sentinel_content_safety.Schemas.{Decision, ModerationRequest, ModerationResponse, Score}
use sentinel_content_safety.Core.Trie.{Text}
use sentinel_content_safety.Core.Trie.Find.{occurs}
use sentinel_content_safety.Core.Normalization.{Unicode, normalize_text}
use sentinel_content_safety.Core.Rules.{SafetyRule, default_rules, get_rule}
use sentinel_content_safety.Core.Rules.Evaluate.{last_rule, evaluate_lem}
use sentinel_content_safety.Core.Threat.{ThreatSettings, ThreatVectorStore}
use sentinel_content_safety.Core.Policy.{severe}
use sentinel_content_safety.Core.Engine.{
  model_review_threshold, decision_of, ToxicityModel, rule_score, default, Stamp, answer, moderate,
}

get_rule-le-rule_score :
    (p : Text) (rs : List SafetyRule) {r : SafetyRule}
    → get_rule p rs ≡ some r
    → r.severity ≤ rule_score rs
get_rule-le-rule_score p [] h = ground arith
get_rule-le-rule_score p (s ∷ rs) {r} h = ground (arith, get_rule-le-rule_score p rs {r = r})

last_rule-severe :
    (p : Text) (rules : List SafetyRule) {r : SafetyRule}
    → severe rules ≡ true
    → last_rule p rules ≡ some r
    → model_review_threshold ≤ r.severity
last_rule-severe p [] h e = ground arith
last_rule-severe p (s ∷ rules) {r} h e = ground (arith, last_rule-severe p rules {r = r})

decision_of-ne-allow :
    (risk : Score) → model_review_threshold ≤ risk → decision_of risk ≢ Decision.allow
unfolding decision_of
decision_of-ne-allow risk h e = ground arith

-- The default engine answers every request, whatever its model and its threat intelligence say: no
-- rule that the matcher finds is missing.
pub moderate-total :
    {V T : Type 0} (u : Unicode) (toxicity_model : Option ToxicityModel)
    (threat : Option (ThreatSettings V × ThreatVectorStore V T)) (stamp : Stamp)
    (request : ModerationRequest) (store : T)
    → (given : ModerationResponse × T) × (moderate u
          (default toxicity_model threat)
          stamp
          request
          store
        ≡ some given)
unfolding moderate answer default
moderate-total u toxicity_model threat stamp request store =
    let (matches, e, _) = evaluate_lem default_rules (normalize_text u request.text) in
    (answer u (default toxicity_model threat) stamp request store matches, rw (e, moderate) refl)

-- A text that holds, once normalized, the phrase of a default rule is never allowed: the default
-- engine answers with a risk that is at least the severity of that rule.
pub moderate-catches :
    {V T : Type 0} (u : Unicode) (toxicity_model : Option ToxicityModel)
    (threat : Option (ThreatSettings V × ThreatVectorStore V T)) (stamp : Stamp)
    (request : ModerationRequest) (store : T) (p : Text) {r : SafetyRule}
    → last_rule p default_rules ≡ some r
    → occurs p (normalize_text u request.text) ≡ true
    → (given : ModerationResponse × T) × (moderate u
          (default toxicity_model threat)
          stamp
          request
          store
        ≡ some given)
      × (r.severity ≤ given.0.risk_score)
      × (given.0.decision ≢ Decision.allow)
unfolding moderate answer default
moderate-catches u toxicity_model threat stamp request store p {r} known stands =
    let (matches, e, each) = evaluate_lem default_rules (normalize_text u request.text) in
    let high : r.severity ≤ rule_score matches =
      get_rule-le-rule_score p matches {r = r} (each p ∙ rw stands known) in
    let severe = last_rule-severe p default_rules refl known in
    let given = answer u (default toxicity_model threat) stamp request store matches in
    (
      given,
      rw (e, moderate) refl,
      unfold answer in ground arith,
      unfold answer in decision_of-ne-allow given.0.risk_score (ground arith),
    )
