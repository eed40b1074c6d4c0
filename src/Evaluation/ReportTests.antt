-- ===== src/Evaluation/ReportTests.antt =====
-- The attacks and the report at one text and two scored cases.
use sentinel_content_safety.Base.{
  ℕ, ◌≡◌, refl, String, Bool, true, false, List, [], ◌∷◌, map, ◌==◌, if◌then◌else◌, ◌+◌, str_eq,
}
use sentinel_content_safety.Base.Dict.{lookup, insert}
use sentinel_content_safety.Core.Trie.{Text}
use sentinel_content_safety.Core.Normalization.{Unicode, normalize_text}
use sentinel_content_safety.Evaluation.Attacks.{zero_width, leetspeak}
use sentinel_content_safety.Evaluation.Robust.{
  ascii_lower, ascii_upper, IsUnicode, normalize_text-attack,
}
use sentinel_content_safety.Evaluation.Metrics.{
  Floats, Drop, ConfusionMatrix, BinaryMetrics, f1_of, ScoredCase, EvaluationReport,
  evaluate_scores, metrics_of, slice_metrics,
}
use sentinel_content_safety.Evaluation.Slices.{AddsUp, evaluate_scores-AddsUp}

abbrev not_space : ℕ → Bool
not_space c = if c == b' ' then false else true

abbrev ascii : Unicode
ascii = record {
  nfkc = λ t. t;
  casefold = λ t. map ascii_lower t;
  is_word = not_space;
  is_letter = not_space;
  is_space = λ c. c == b' ';
}

tables : IsUnicode ascii (map ascii_upper)
tables = record {
  nfkc_plain = λ t h. refl;
  casefold_plain = λ t h. refl;
  upper_plain = λ t h. refl;
}

abbrev text : Text
text = b'B' ∷ b'a' ∷ b'd' ∷ []

normalize_text-attack_example :
    (normalize_text ascii (b'B' ∷ b'A' ∷ b'D' ∷ []) ≡ normalize_text ascii text)
    × (normalize_text ascii (b'B' ∷ 0x200b ∷ b'a' ∷ 0x200b ∷ b'd' ∷ []) ≡ normalize_text ascii text)
    × (normalize_text ascii (b'B' ∷ b'4' ∷ b'd' ∷ []) ≡ normalize_text ascii text)
unfolding sentinel_content_safety.Evaluation.Attacks.insert_between
    sentinel_content_safety.Evaluation.Attacks.leet_character
normalize_text-attack_example = normalize_text-attack ascii (map ascii_upper) tables text refl

abbrev floats : Floats
floats = record {
  plus = λ a b. a;
  times = λ a b. a;
  over = λ a b. a;
  minus = λ a b. 0;
  ratio = λ a b. a;
}

abbrev scored_case : String → ℕ → ℕ → ScoredCase
scored_case attack label score = record {
  case_id = "a";
  label = label;
  category = "c";
  attack = attack;
  score = score;
}

abbrev scored : List ScoredCase
scored = scored_case "clean" 1 9 ∷ scored_case "uppercase" 1 2 ∷ scored_case "clean" 0 1 ∷ []

abbrev confusion_of : ℕ → ℕ → ℕ → ℕ → ConfusionMatrix
confusion_of tn fp fn tp = record { tn = tn; fp = fp; fn = fn; tp = tp }

abbrev metrics : ℕ → ℕ → ConfusionMatrix → BinaryMetrics
metrics examples recall matrix = record {
  examples = examples;
  threshold = 5;
  accuracy = matrix.tp + matrix.tn;
  precision = matrix.tp;
  recall = recall;
  f1 = f1_of floats matrix.tp matrix.tp;
  false_positive_rate = 0;
  false_negative_rate = matrix.fn;
  confusion_matrix = matrix;
}

abbrev report : EvaluationReport
report = record {
  model_version = "v";
  preprocessor_version = "sentinel-normalization-v2";
  decision_threshold = 5;
  overall = metrics 3 1 (confusion_of 1 0 1 1);
  by_attack =
      ("clean", metrics 2 1 (confusion_of 1 0 0 1))
      ∷ ("uppercase", metrics 1 0 (confusion_of 0 0 1 0))
      ∷ [];
  by_category = ("c", metrics 3 1 (confusion_of 1 0 1 1)) ∷ [];
  robustness = record {
    clean_recall = 1;
    worst_attack_recall = 0;
    maximum_recall_drop_from_clean = Drop.lost 0;
  };
  threshold_analysis = [];
  predictions = scored;
}

abbrev precedes : String → String → Bool
precedes a b = str_eq a "clean"

evaluate_scores-AddsUp_example :
    AddsUp floats 5 report.by_attack report.overall
    × AddsUp floats 5 report.by_category report.overall
unfolding evaluate_scores insert sentinel_content_safety.Evaluation.Metrics.binary_metrics lookup
evaluate_scores-AddsUp_example =
    evaluate_scores-AddsUp floats precedes "v" scored 5 [] {report = report} refl
