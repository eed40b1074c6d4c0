-- ===== src/Core/Policy.antt =====
-- What a decision of the text engine says of its signals.
use mathlib.Core.Bool.{false≢true}
use sentinel_content_safety.Base.{
  ℕ, ◌≤◌, ◌≡◌, ◌≢◌, refl, sym, ◌∙◌, Bool, true, false, Option, none, some, List, [], ◌∷◌, ◌++◌, all,
  max_of, leb, arith, ◌&&◌, Bool-cases, ◌⊎◌, Option-cases, some-inj, subst, inl, inr,
}
use sentinel_content_safety.Schemas.{
  Decision, ModerationRequest, ModerationSignal, ModerationResponse, Score,
}
use sentinel_content_safety.Core.Trie.{Text}
use sentinel_content_safety.Core.Normalization.{Unicode, normalize_text}
use sentinel_content_safety.Core.Rules.{SafetyRule, RuleEngine, get_rule, get_rules, evaluate}
use sentinel_content_safety.Core.Threat.{
  ThreatSettings, ThreatVectorStore, coordinated, campaign_risk, assess_and_index,
}
use sentinel_content_safety.Distributed.Service.{or_new}
use sentinel_content_safety.Core.Engine.{
  model_review_threshold, decision_of, ToxicityModel, rule_signals, rule_score, model_part,
  threat_part, ModerationEngine, Stamp, moderate,
}

none≢some : {A : Type 0} {a : A} → ◌≢◌ {A = Option A} (some a) none
none≢some e = cc

-- Every signal lies between the threshold of review and a risk.
abbrev pub within : Score → List ModerationSignal → Bool
within risk signals =
    all (λ (s : ModerationSignal). leb model_review_threshold s.score && leb s.score risk) signals

-- Every rule is severe enough to ask for review.
abbrev pub severe : List SafetyRule → Bool
severe rules = all (λ (r : SafetyRule). leb model_review_threshold r.severity) rules

within-append :
    (risk : Score) (xs ys : List ModerationSignal)
    → within risk xs ≡ true
    → within risk ys ≡ true
    → within risk (xs ++ ys) ≡ true
within-append risk [] ys h k = k
within-append risk (x ∷ xs) ys h k = ground (arith, within-append risk xs ys)

rule_signals-within :
    (risk : Score) (rs : List SafetyRule)
    → severe rs ≡ true
    → rule_score rs ≤ risk
    → within risk (rule_signals rs) ≡ true
rule_signals-within risk [] h k = refl
rule_signals-within risk (r ∷ rs) h k = ground (arith, rule_signals-within risk rs)

get_rule-severe :
    (phrase : Text) (rules : List SafetyRule) {r : SafetyRule}
    → severe rules ≡ true
    → get_rule phrase rules ≡ some r
    → leb model_review_threshold r.severity ≡ true
get_rule-severe phrase [] h e = ground arith
get_rule-severe phrase (s ∷ rules) {r} h e = ground (arith, get_rule-severe phrase rules {r = r})

get_rules-severe :
    (phrases : List Text) (rules : List SafetyRule) {rs : List SafetyRule}
    → severe rules ≡ true
    → get_rules phrases rules ≡ some rs
    → severe rs ≡ true
get_rules-severe [] rules h e = ground arith
get_rules-severe (p ∷ phrases) rules h e = elim (Option-cases (get_rule p rules)) [
  | inl no_rule ↦ ground arith
  | inr (r, found) ↦ elim (Option-cases (get_rules phrases rules)) [
    | inl no_rules ↦ ground arith
    | inr (rs, more) ↦
        ground (arith, get_rule-severe p rules h found, get_rules-severe phrases rules h more)
  ]
]

model_part-within :
    (m : Option ToxicityModel) (text : Text) (risk : Score)
    → (model_part m text).0 ≤ risk
    → within risk (model_part m text).1 ≡ true
unfolding model_part
model_part-within none text risk h = refl
model_part-within (some m) text risk h = ground arith

-- A campaign is severe, if adding steps to 0.55 never goes below the threshold of review.
campaign_risk-severe :
    (base_and_steps : ℕ → Score) (n : ℕ)
    → ((k : ℕ) → model_review_threshold ≤ base_and_steps k)
    → 2 ≤ n
    → model_review_threshold ≤ campaign_risk base_and_steps n
unfolding campaign_risk
campaign_risk-severe base_and_steps n h two = ground (arith, h n)

-- The threat service over any store, given that bound on its arithmetic.
threat_part-within :
    {V T : Type 0} (threat : Option (ThreatSettings V × ThreatVectorStore V T)) (stamp : Stamp)
    (request : ModerationRequest) (store : T) (risk : Score)
    → ((settings : ThreatSettings V) (vectors : ThreatVectorStore V T) (k : ℕ)
        → threat ≡ some (settings, vectors)
        → model_review_threshold ≤ settings.base_and_steps k)
    → (threat_part threat stamp request store).0.0 ≤ risk
    → within risk (threat_part threat stamp request store).0.1 ≡ true
unfolding threat_part
threat_part-within none stamp request store risk low h = refl
threat_part-within (some (settings, vectors)) stamp request store risk low h =
    unfold coordinated assess_and_index in
    let assessment =
      (assess_and_index settings vectors store (or_new request.request_id stamp.threat_id)
        request.text).0 in
    ground (
      arith,
      campaign_risk-severe settings.base_and_steps assessment.match_count
          (λ k. low settings vectors k refl),
    )

-- A decision is `allow` just below the threshold of review.
decision_of-allow :
    (risk : Score) → decision_of risk ≡ Decision.allow → leb model_review_threshold risk ≡ false
unfolding decision_of
decision_of-allow risk e = ground arith

within-nil :
    (risk : Score) (signals : List ModerationSignal)
    → leb model_review_threshold risk ≡ false
    → within risk signals ≡ true
    → signals ≡ []
within-nil risk [] low h = refl
within-nil risk (s ∷ signals) low h = ground arith

allow-nil :
    (risk : Score) (signals : List ModerationSignal)
    → within risk signals ≡ true
    → (decision_of risk ≢ Decision.allow) ⊎ (signals ≡ [])
allow-nil risk signals h = elim (Bool-cases (leb model_review_threshold risk)) [
  | inr low ↦ inr (within-nil risk signals low h)
  | inl high ↦ inl (λ e. false≢true (sym (decision_of-allow risk e) ∙ high))
]

evaluate-severe :
    (engine : RuleEngine) (text : Text) {rs : List SafetyRule}
    → severe engine.rules ≡ true
    → evaluate engine text ≡ some rs
    → severe rs ≡ true
unfolding evaluate
evaluate-severe engine text h e = get_rules-severe _ engine.rules h e

-- What an answer satisfies.
abbrev pub IsJudged : ModerationResponse → Type 0
IsJudged response =
    (within response.risk_score response.signals ≡ true)
    × (response.decision ≡ decision_of response.risk_score)
    × ((response.decision ≢ Decision.allow) ⊎ (response.signals ≡ []))

-- An answer of the text engine, whose rules all ask for review and whose arithmetic on scores does
-- not lower 0.55 below 0.40: its risk is at least the score of each signal, each signal is at least
-- at the threshold of review, the decision is that of the risk, and a text is allowed only with no
-- signal at all.
pub moderate-within :
    {V T : Type 0} (u : Unicode) (engine : ModerationEngine V T) (stamp : Stamp)
    (request : ModerationRequest) (store : T) {response : ModerationResponse} {store' : T}
    → severe engine.rules.rules ≡ true
    → ((settings : ThreatSettings V) (vectors : ThreatVectorStore V T) (k : ℕ)
        → engine.threat_intelligence ≡ some (settings, vectors)
        → model_review_threshold ≤ settings.base_and_steps k)
    → moderate u engine stamp request store ≡ some (response, store')
    → IsJudged response
unfolding moderate
moderate-within u engine stamp request store strict low e =
    elim (Option-cases (evaluate engine.rules (normalize_text u request.text))) [
      | inl missing ↦ absurd (none≢some (sym (rw (missing, moderate) at e)))
      | inr (matches, found) ↦
          let text = normalize_text u request.text in
          let model = model_part engine.toxicity_model text in
          let threat = (threat_part engine.threat_intelligence stamp request store).0 in
          let risk = max_of (rule_score matches) (max_of model.0 threat.0) in
          let rules_in =
            rule_signals-within risk matches (evaluate-severe engine.rules text strict found)
              (ground arith) in
          let model_in = model_part-within engine.toxicity_model text risk (ground arith) in
          let threat_in =
            threat_part-within engine.threat_intelligence stamp request store risk low
              (ground arith) in
          let signals = rule_signals matches ++ model.1 ++ threat.1 in
          let all_in =
            within-append risk (rule_signals matches ++ model.1) threat.1
              (within-append risk (rule_signals matches) model.1 rules_in model_in) threat_in in
          subst (λ x. IsJudged x.0) (some-inj (rw (found, moderate) at e))
            (all_in, refl, allow-nil risk signals all_in)
    ]
