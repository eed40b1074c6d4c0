-- ===== src/Evaluation/Cases.antt =====
-- src/sentinel/evaluation/cases.py: the corpus of evaluation cases, loaded line by line. The JSON
-- reader of a line and `str.strip` are parameters.
use sentinel_content_safety.Base.{
  ℕ, ◌+◌, String, Bool, true, false, not, ◌&&◌, ◌||◌, Option, none, some, List, [], ◌∷◌, ◌++◌, any,
  str_eq, ◌==◌, if◌then◌else◌,
}

infixl 5 ◌>>=◌
abbrev pub ◌>>=◌ {ℓ κ} : {A : Type ℓ} {B : Type κ} → Option A → (A → Option B) → Option B
none >>= f = none
some a >>= f = f a

pub record EvaluationCase : Type 0 where
  pub case_id : String
  pub text : String
  pub label : ℕ
  pub category : String
  pub source : String

-- What JSON gives of a line: the fields that are there, as texts, and the label as a number where it
-- is a natural one.
pub record Mapping : Type 0 where
  pub case_id : Option String
  pub text : Option String
  pub label : Option (Option ℕ)
  pub category : Option String
  pub source : Option String

pub data CaseError : Type 0 where
  invalid_case : ℕ → CaseError
  duplicate_id : String → CaseError
  no_case one_sided : CaseError

pub data Loaded {ℓ} (A : Type ℓ) : Type ℓ where
  ok : A → Loaded A
  raised : CaseError → Loaded A

-- `EvaluationCase.from_mapping`; nothing where it raises a ValueError.
unfoldable pub from_mapping : (String → String) → Mapping → Option EvaluationCase
from_mapping strip value = do
  case_id ← value.case_id
  raw ← value.text
  label ← value.label
  category ← value.category
  source ← value.source
  elim label [
    | none ↦ none
    | some l ↦
        if not (l == 0 || l == 1)
        then none
        else if str_eq (strip raw) ""
        then none
        else some (record {
          case_id = case_id;
          text = strip raw;
          label = l;
          category = category;
          source = source;
        })
  ]

abbrev pub has_id : String → List EvaluationCase → Bool
has_id case_id cases = any (λ (c : EvaluationCase). str_eq c.case_id case_id) cases

abbrev pub has_label : ℕ → List EvaluationCase → Bool
has_label label cases = any (λ (c : EvaluationCase). c.label == label) cases

module _ (strip : String → String) (loads : String → Option Mapping) where
  -- The loop of `load_cases`; the identifiers that were seen are those of the cases.
  unfoldable pub load_lines : ℕ → List String → List EvaluationCase → Loaded (List EvaluationCase)
  unfolding from_mapping
  load_lines line_number [] cases = ok cases
  load_lines line_number (line ∷ lines) cases =
      let skipped = load_lines (line_number + 1) lines cases in
      if str_eq (strip line) "" then skipped else elim (loads line) [
        | none ↦ raised (invalid_case line_number)
        | some value ↦ elim (from_mapping strip value) [
          | none ↦ raised (invalid_case line_number)
          | some c ↦ elim (has_id c.case_id cases) [
            | true ↦ raised (duplicate_id c.case_id)
            | false ↦ load_lines (line_number + 1) lines (cases ++ c ∷ [])
          ]
        ]
      ]

  abbrev pub check_corpus : List EvaluationCase → Loaded (List EvaluationCase)
  check_corpus [] = raised no_case
  check_corpus (c ∷ cs) =
      if has_label 0 (c ∷ cs) && has_label 1 (c ∷ cs) then ok (c ∷ cs) else raised one_sided

  -- `load_cases`, over the lines of the file.
  unfoldable pub load_cases : List String → Loaded (List EvaluationCase)
  unfolding load_lines
  load_cases lines = elim (load_lines 1 lines []) [
    | raised e ↦ raised e
    | ok cases ↦ check_corpus cases
  ]
