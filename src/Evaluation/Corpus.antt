-- ===== src/Evaluation/Corpus.antt =====
-- What a corpus that loads satisfies, and what a promoted model meets.
use sentinel_content_safety.Base.{
  ℕ, ◌+◌, ◌≡◌, refl, String, Bool, true, false, not, ◌&&◌, ◌||◌, Option, some, List, [], ◌∷◌, ◌++◌,
  all, str_eq, ◌==◌, leb, arith, Option-cases, Bool-cases, inl, inr, eq_iff,
}
use sentinel_content_safety.Evaluation.Cases.{
  EvaluationCase, Mapping, Loaded, ok, raised, from_mapping, has_id, has_label, load_lines,
  check_corpus, load_cases,
}
use sentinel_content_safety.Evaluation.Gates.{Report, Requirements, check_evaluation_gates, Check}

-- No identifier twice.
abbrev pub distinct : List EvaluationCase → Bool
distinct [] = true
distinct (c ∷ cs) = not (has_id c.case_id cs) && distinct cs

-- A label that is 0 or 1, and some text.
abbrev pub labelled : List EvaluationCase → Bool
labelled cases =
    all (λ (c : EvaluationCase). (c.label == 0 || c.label == 1) && not (str_eq c.text "")) cases

-- A model passes the gates just if its report meets each of the five requirements.
pub check_evaluation_gates_lem :
    (describe : Check → String) (r : Report) (q : Requirements)
    → (check_evaluation_gates describe r q).passed ≡ (
        leb q.minimum_overall_recall r.recall
        && leb q.minimum_overall_precision r.precision
        && leb q.minimum_worst_attack_recall r.worst_attack_recall
        && leb r.false_positive_rate q.maximum_false_positive_rate
        && leb r.maximum_recall_drop_from_clean q.maximum_recall_drop_from_clean)
unfolding check_evaluation_gates
check_evaluation_gates_lem describe r q = ground arith

has_id-append_one :
    (id : String) (cs : List EvaluationCase) (c : EvaluationCase)
    → has_id id (cs ++ c ∷ []) ≡ (has_id id cs || str_eq c.case_id id)
has_id-append_one id [] c = ground arith
has_id-append_one id (d ∷ cs) c = ground (arith, has_id-append_one id cs c)

distinct-append_one :
    (cs : List EvaluationCase) (c : EvaluationCase)
    → distinct cs ≡ true
    → has_id c.case_id cs ≡ false
    → distinct (cs ++ c ∷ []) ≡ true
distinct-append_one [] c h k = refl
distinct-append_one (d ∷ cs) c h k = ground (
  arith,
  has_id-append_one d.case_id cs c,
  distinct-append_one cs c,
  eq_iff d.case_id c.case_id,
  eq_iff c.case_id d.case_id,
)

labelled-append_one :
    (cs : List EvaluationCase) (c : EvaluationCase)
    → labelled cs ≡ true
    → labelled (c ∷ []) ≡ true
    → labelled (cs ++ c ∷ []) ≡ true
labelled-append_one [] c h k = k
labelled-append_one (d ∷ cs) c h k = ground (arith, labelled-append_one cs c)

from_mapping-labelled :
    (strip : String → String) (value : Mapping) {c : EvaluationCase}
    → from_mapping strip value ≡ some c
    → labelled (c ∷ []) ≡ true
unfolding from_mapping
from_mapping-labelled strip value e = ground arith

module _ (strip : String → String) (loads : String → Option Mapping) where
  load_lines-good :
      (n : ℕ) (lines : List String) (cases : List EvaluationCase) {all_cases : List EvaluationCase}
      → distinct cases ≡ true
      → labelled cases ≡ true
      → load_lines strip loads n lines cases ≡ ok all_cases
      → (distinct all_cases ≡ true) × (labelled all_cases ≡ true)
  unfolding load_lines
  load_lines-good n [] cases h k e = ground arith
  load_lines-good n (line ∷ lines) cases {all_cases} h k e = elim (Option-cases (loads line)) [
    | inl absent ↦ ground (arith, load_lines-good (n + 1) lines cases {all_cases = all_cases} h k)
    | inr (value, read) ↦ elim (Option-cases (from_mapping strip value)) [
      | inl refused ↦
          ground (arith, load_lines-good (n + 1) lines cases {all_cases = all_cases} h k)
      | inr (c, made) ↦ elim (Bool-cases (has_id c.case_id cases)) [
        | inl seen ↦ ground (arith, load_lines-good (n + 1) lines cases {all_cases = all_cases} h k)
        | inr new ↦ ground (
          arith,
          load_lines-good (n + 1) lines cases {all_cases = all_cases} h k,
          load_lines-good (n + 1) lines (cases ++ c ∷ []) {all_cases = all_cases}
              (distinct-append_one cases c h new)
              (labelled-append_one cases c k (from_mapping-labelled strip value made)),
        )
      ]
    ]
  ]

  -- A corpus that loads has distinct identifiers, labels that are 0 or 1 with some text each, and at
  -- least one case of either label.
  pub load_cases_lem :
      (lines : List String) {cases : List EvaluationCase}
      → load_cases strip loads lines ≡ ok cases
      → (distinct cases ≡ true)
        × (labelled cases ≡ true)
        × (has_label 0 cases ≡ true)
        × (has_label 1 cases ≡ true)
  unfolding load_cases
  load_cases_lem lines {cases} e = loaded (load_lines strip loads 1 lines []) refl e
    where
      loaded :
          (r : Loaded (List EvaluationCase))
          → load_lines strip loads 1 lines [] ≡ r
          → (elim r [ raised x ↦ raised x | ok cs ↦ check_corpus strip loads cs ]) ≡ ok cases
          → (distinct cases ≡ true)
            × (labelled cases ≡ true)
            × (has_label 0 cases ≡ true)
            × (has_label 1 cases ≡ true)
      loaded (raised x) h e' = ground arith
      loaded (ok []) h e' = ground arith
      loaded (ok (c ∷ cs)) h e' = let good = load_lines-good 1 lines [] refl refl h in ground arith
