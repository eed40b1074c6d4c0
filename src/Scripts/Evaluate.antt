-- ===== src/Scripts/Evaluate.antt =====
-- scripts/evaluate_adversarial.py and scripts/check_evaluation_gate.py. Files are parameters.
use sentinel_content_safety.Base.{
  false, true, ℕ, ◌*◌, String, Bool, not, ◌&&◌, Option, none, some, List, [], ◌∷◌, ◌++◌, length,
  ltb, if◌then◌else◌,
}
use sentinel_content_safety.Base.Action.{Result, ok, raised}
use sentinel_content_safety.Base.Dict.{Dict, lookup, insert}
use sentinel_content_safety.Schemas.{Score}
use sentinel_content_safety.Core.Engine.{ToxicityModel, max_score_ensemble}
use sentinel_content_safety.Evaluation.Gates.{Report, Requirements, Check, check_evaluation_gates}

pub data Selection : Type 0 where
  baseline transformer both : Selection

pub data ScriptError : Type 0 where
  baseline_not_found transformer_not_found not_an_ensemble threshold_out_of_range : ScriptError
  not_evaluated : String → ScriptError
  choose_a_version : ScriptError
  version_not_found : String → ScriptError

abbrev pub uses_baseline : Selection → Bool
uses_baseline Selection.baseline = true
uses_baseline Selection.transformer = false
uses_baseline Selection.both = true

abbrev pub uses_transformer : Selection → Bool
uses_transformer Selection.baseline = false
uses_transformer Selection.transformer = true
uses_transformer Selection.both = true

-- `if args.models in {...}: ... models.append(...)`; a model is none where its path does not exist.
abbrev pub append_model :
    Bool
    → Option ToxicityModel
    → ScriptError
    → List ToxicityModel
    → Result ScriptError (List ToxicityModel)
append_model false found e models = ok models
append_model true none e models = raised e
append_model true (some m) e models = ok (models ++ m ∷ [])

abbrev pub append_ensemble :
    Selection → List ToxicityModel → Result ScriptError (List ToxicityModel)
append_ensemble Selection.baseline models = ok models
append_ensemble Selection.transformer models = ok models
append_ensemble Selection.both models = elim (max_score_ensemble models) [
  | none ↦ raised not_an_ensemble
  | some ensemble ↦ ok (models ++ ensemble ∷ [])
]

-- `load_models`
unfoldable pub load_models :
    Selection
    → Option ToxicityModel
    → Option ToxicityModel
    → Result ScriptError (List ToxicityModel)
unfolding max_score_ensemble
load_models selection baseline_model transformer_model =
    elim (append_model (uses_baseline selection) baseline_model baseline_not_found []) [
      | raised e ↦ raised e
      | ok models ↦
          elim (append_model (uses_transformer selection) transformer_model transformer_not_found
            models) [ raised e ↦ raised e | ok models' ↦ append_ensemble selection models' ]
    ]

module _ {C R : Type 0} (evaluate_model : ToxicityModel → List C → Score → Option R) where
  -- The dictionary of reports by version; where two versions are equal, the later report stays.
  unfoldable pub evaluate_models :
      List ToxicityModel → List C → Score → Dict R → Result ScriptError (Dict R)
  evaluate_models [] cases threshold reports = ok reports
  evaluate_models (m ∷ models) cases threshold reports = elim (evaluate_model m cases threshold) [
    | none ↦ raised (not_evaluated m.version)
    | some report ↦ evaluate_models models cases threshold (insert m.version report reports)
  ]

  pub record Evaluation : Type 0 where
    pub base_cases : ℕ
    pub evaluated_variants_per_model : ℕ
    pub models : Dict R

  -- `main` of the evaluation, over the cases of the corpus and the number of attacks; 0x3ff0000000000000
  -- is 1.0.
  unfoldable pub evaluate_all :
      Selection
      → Option ToxicityModel
      → Option ToxicityModel
      → List C
      → ℕ
      → Score
      → Result ScriptError Evaluation
  unfolding load_models evaluate_models
  evaluate_all selection baseline_model transformer_model cases attacks threshold =
      if not (ltb 0 threshold && ltb threshold 0x3ff0000000000000)
      then raised threshold_out_of_range
      else elim (load_models selection baseline_model transformer_model) [
        | raised e ↦ raised e
        | ok models ↦ elim (evaluate_models models cases threshold []) [
          | raised e ↦ raised e
          | ok reports ↦ ok (record {
            base_cases = length cases;
            evaluated_variants_per_model = length cases * attacks;
            models = reports;
          })
        ]
      ]

-- The version that `main` of the gate looks for.
unfoldable pub choose_version : Dict Report → Option String → Result ScriptError String
choose_version models (some model_version) = ok model_version
choose_version [] none = raised choose_a_version
choose_version ((version, report) ∷ []) none = ok version
choose_version (m ∷ n ∷ models) none = raised choose_a_version

-- `main` of the gate: the exit code.
unfoldable pub gate :
    (Check → String) → Dict Report → Requirements → Option String → Result ScriptError ℕ
unfolding choose_version lookup check_evaluation_gates
gate describe models requirements model_version = elim (choose_version models model_version) [
  | raised e ↦ raised e
  | ok version ↦ elim (lookup version models) [
    | none ↦ raised (version_not_found version)
    | some report ↦
        let result = check_evaluation_gates describe report requirements in
        ok (if result.passed then 0 else 1)
  ]
]
