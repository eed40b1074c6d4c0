-- ===== src/Evaluation/Gates.antt =====
-- src/sentinel/evaluation/gates.py: the floors that a model must meet to be promoted. The texts of the
-- failures are built by a parameter, the formatting of floats.
use sentinel_content_safety.Base.{String, Bool, true, false, List, [], ◌∷◌, leb, if◌then◌else◌}
use sentinel_content_safety.Schemas.{Score}

pub record Report : Type 0 where
  pub recall : Score
  pub precision : Score
  pub false_positive_rate : Score
  pub worst_attack_recall : Score
  pub maximum_recall_drop_from_clean : Score

pub record Requirements : Type 0 where
  pub minimum_overall_recall : Score
  pub minimum_overall_precision : Score
  pub minimum_worst_attack_recall : Score
  pub maximum_false_positive_rate : Score
  pub maximum_recall_drop_from_clean : Score

pub record GateResult : Type 0 where
  pub passed : Bool
  pub failures : List String

-- One row of `checks`.
pub record Check : Type 0 where
  pub passed : Bool
  pub name : String
  pub actual : Score
  pub expected : Score
  pub operator : String

abbrev pub at_least : String → Score → Score → Check
at_least name actual expected = record {
  passed = leb expected actual;
  name = name;
  actual = actual;
  expected = expected;
  operator = ">=";
}

abbrev pub at_most : String → Score → Score → Check
at_most name actual expected = record {
  passed = leb actual expected;
  name = name;
  actual = actual;
  expected = expected;
  operator = "<=";
}

abbrev pub checks_of : Report → Requirements → List Check
checks_of r q =
    at_least "overall recall" r.recall q.minimum_overall_recall
    ∷ at_least "overall precision" r.precision q.minimum_overall_precision
    ∷ at_least "worst attack recall" r.worst_attack_recall q.minimum_worst_attack_recall
    ∷ at_most "false positive rate" r.false_positive_rate q.maximum_false_positive_rate
    ∷ at_most "maximum recall drop from clean" r.maximum_recall_drop_from_clean
        q.maximum_recall_drop_from_clean
    ∷ []

abbrev pub failures_of : (Check → String) → List Check → List String
failures_of describe [] = []
failures_of describe (c ∷ cs) =
    let rest = failures_of describe cs in if c.passed then rest else describe c ∷ rest

abbrev pub is_empty : List String → Bool
is_empty [] = true
is_empty (x ∷ xs) = false

unfoldable pub check_evaluation_gates : (Check → String) → Report → Requirements → GateResult
check_evaluation_gates describe report requirements =
    let failures = failures_of describe (checks_of report requirements) in
    record { passed = is_empty failures; failures = failures }
