-- ===== src/Evaluation/Metrics.antt =====
-- src/sentinel/evaluation/metrics.py: the report of an evaluation. The arithmetic of floats, the order of
-- texts and the code points of a text are parameters; a score is never negative.
use sentinel_content_safety.Base.{
  ℕ, ◌+◌, String, Bool, true, false, not, ◌&&◌, ◌||◌, Option, none, some, List, [], ◌∷◌, ◌++◌, map,
  length, leb, ◌==◌, str_eq, max_of, if◌then◌else◌,
}
use sentinel_content_safety.Base.Dict.{Dict, lookup, insert}
use sentinel_content_safety.Schemas.{Score}
use sentinel_content_safety.Core.Trie.{Text}
use sentinel_content_safety.Core.Normalization.{Unicode, normalize_text}
use sentinel_content_safety.Core.Engine.{ToxicityModel}
use sentinel_content_safety.Evaluation.Cases.{EvaluationCase, ◌>>=◌}

-- Sums, products, quotients and differences of floats, and the quotient of two integers; a
-- difference is asked only where it is not negative.
pub record Floats : Type 0 where
  pub plus : Score → Score → Score
  pub times : Score → Score → Score
  pub over : Score → Score → Score
  pub minus : Score → Score → Score
  pub ratio : ℕ → ℕ → Score

pub record ScoredCase : Type 0 where
  pub case_id : String
  pub label : ℕ
  pub category : String
  pub attack : String
  pub score : Score

pub record ConfusionMatrix : Type 0 where
  pub tn : ℕ
  pub fp : ℕ
  pub fn : ℕ
  pub tp : ℕ

pub record BinaryMetrics : Type 0 where
  pub examples : ℕ
  pub threshold : Score
  pub accuracy : Score
  pub precision : Score
  pub recall : Score
  pub f1 : Score
  pub false_positive_rate : Score
  pub false_negative_rate : Score
  pub confusion_matrix : ConfusionMatrix

-- `sum(label == l and prediction == q for label, prediction in pairs)`, of the labels and the scores
-- read side by side.
unfoldable pub count_pairs : ℕ → Bool → Score → List ℕ → List Score → ℕ
count_pairs l q threshold (label ∷ labels) (score ∷ scores) =
    let rest = count_pairs l q threshold labels scores in
    let predicted = leb threshold score in
    if label == l && (if q then predicted else not predicted) then rest + 1 else rest
count_pairs l q threshold _ _ = 0

unfoldable pub confusion : List ℕ → List Score → Score → ConfusionMatrix
unfolding count_pairs
confusion labels scores threshold = record {
  tn = count_pairs 0 false threshold labels scores;
  fp = count_pairs 0 true threshold labels scores;
  fn = count_pairs 1 false threshold labels scores;
  tp = count_pairs 1 true threshold labels scores;
}

-- A quotient of integers, 0.0 where the denominator is 0.
abbrev pub ratio_or_zero : Floats → ℕ → ℕ → Score
ratio_or_zero f a b = if b == 0 then 0 else f.ratio a b

-- 0x4000000000000000 is 2.0.
abbrev pub f1_of : Floats → Score → Score → Score
f1_of f precision recall =
    if f.plus precision recall == 0
    then 0
    else f.over (f.times (f.times 0x4000000000000000 precision) recall) (f.plus precision recall)

-- `binary_metrics`; nothing where it raises a ValueError.
unfoldable pub binary_metrics : Floats → List ℕ → List Score → Score → Option BinaryMetrics
unfolding confusion
binary_metrics f labels scores threshold =
    let m = confusion labels scores threshold in
    let precision = ratio_or_zero f m.tp (m.tp + m.fp) in
    let recall = ratio_or_zero f m.tp (m.tp + m.fn) in
    if not (length labels == length scores) || length labels == 0
    then none
    else some (record {
      examples = length labels;
      threshold = threshold;
      accuracy = f.ratio (m.tp + m.tn) (length labels);
      precision = precision;
      recall = recall;
      f1 = f1_of f precision recall;
      false_positive_rate = ratio_or_zero f m.fp (m.fp + m.tn);
      false_negative_rate = ratio_or_zero f m.fn (m.fn + m.tp);
      confusion_matrix = m;
    })

abbrev pub labels_of : List ScoredCase → List ℕ
labels_of = map (λ (c : ScoredCase). c.label)

abbrev pub scores_of : List ScoredCase → List Score
scores_of = map (λ (c : ScoredCase). c.score)

abbrev pub metrics_of : Floats → Score → List ScoredCase → Option BinaryMetrics
metrics_of f threshold items = binary_metrics f (labels_of items) (scores_of items) threshold

-- `groups[name].append(item)` on a `defaultdict(list)`
abbrev pub group_at : Option (List ScoredCase) → List ScoredCase
group_at none = []
group_at (some items) = items

unfoldable pub group_by :
    (ScoredCase → String) → List ScoredCase → Dict (List ScoredCase) → Dict (List ScoredCase)
group_by attribute [] groups = groups
group_by attribute (item ∷ scored) groups =
    group_by attribute scored
      (insert (attribute item) (group_at (lookup (attribute item) groups) ++ item ∷ []) groups)

-- `sorted(groups.items())`, whose names differ.
unfoldable pub insert_group :
    (String → String → Bool)
    → String × List ScoredCase
    → Dict (List ScoredCase)
    → Dict (List ScoredCase)
insert_group precedes g [] = g ∷ []
insert_group precedes g (h ∷ hs) =
    let later = insert_group precedes g hs in if precedes g.0 h.0 then g ∷ h ∷ hs else h ∷ later

unfoldable pub sort_groups :
    (String → String → Bool) → Dict (List ScoredCase) → Dict (List ScoredCase)
unfolding insert_group
sort_groups precedes [] = []
sort_groups precedes (g ∷ gs) = insert_group precedes g (sort_groups precedes gs)

abbrev pub add_slice :
    String → Option BinaryMetrics → Option (Dict BinaryMetrics) → Option (Dict BinaryMetrics)
add_slice name (some m) (some rest) = some ((name, m) ∷ rest)
add_slice name _ _ = none

unfoldable pub measure : Floats → Score → Dict (List ScoredCase) → Option (Dict BinaryMetrics)
measure f threshold [] = some []
measure f threshold ((name, items) ∷ groups) =
    add_slice name (metrics_of f threshold items) (measure f threshold groups)

-- `_slice_metrics`
unfoldable pub slice_metrics :
    Floats
    → (String → String → Bool)
    → List ScoredCase
    → (ScoredCase → String)
    → Score
    → Option (Dict BinaryMetrics)
unfolding group_by sort_groups measure
slice_metrics f precedes scored attribute threshold =
    measure f threshold (sort_groups precedes (group_by attribute scored []))

-- A difference of two scores, with its sign.
pub data Drop : Type 0 where
  lost gained : Score → Drop

abbrev pub drop_of : Floats → Score → Score → Drop
drop_of f clean_recall recall =
    if leb recall clean_recall
    then Drop.lost (f.minus clean_recall recall)
    else Drop.gained (f.minus recall clean_recall)

abbrev pub larger : Drop → Drop → Drop
larger (Drop.lost a) (Drop.lost b) = Drop.lost (max_of a b)
larger (Drop.lost a) (Drop.gained b) = Drop.lost a
larger (Drop.gained a) (Drop.lost b) = Drop.lost b
larger (Drop.gained a) (Drop.gained b) = if leb a b then Drop.gained a else Drop.gained b

abbrev pub attacked_recalls : Dict BinaryMetrics → List Score
attacked_recalls [] = []
attacked_recalls ((name, m) ∷ slices) =
    let rest = attacked_recalls slices in if str_eq name "clean" then rest else m.recall ∷ rest

-- `min(recalls, default=clean_recall)`
unfoldable pub worst : Score → List Score → Score
worst clean_recall [] = clean_recall
worst clean_recall (r ∷ []) = r
worst clean_recall (r ∷ s ∷ rs) =
    let rest = worst clean_recall (s ∷ rs) in if leb r rest then r else rest

-- `max(..., default=0.0)` of the drops
unfoldable pub largest_drop : Floats → Score → List Score → Drop
largest_drop f clean_recall [] = Drop.lost 0
largest_drop f clean_recall (r ∷ []) = drop_of f clean_recall r
largest_drop f clean_recall (r ∷ s ∷ rs) =
    larger (drop_of f clean_recall r) (largest_drop f clean_recall (s ∷ rs))

pub record Robustness : Type 0 where
  pub clean_recall : Score
  pub worst_attack_recall : Score
  pub maximum_recall_drop_from_clean : Drop

pub record EvaluationReport : Type 0 where
  pub model_version : String
  pub preprocessor_version : String
  pub decision_threshold : Score
  pub overall : BinaryMetrics
  pub by_attack : Dict BinaryMetrics
  pub by_category : Dict BinaryMetrics
  pub robustness : Robustness
  pub threshold_analysis : List BinaryMetrics
  pub predictions : List ScoredCase

unfoldable pub analyse : Floats → List ScoredCase → List Score → Option (List BinaryMetrics)
analyse f scored [] = some []
analyse f scored (candidate ∷ candidates) = do
  m ← metrics_of f candidate scored
  rest ← analyse f scored candidates
  some (m ∷ rest)

-- `evaluate_scores`; nothing where it raises, on no case, or with no case under "clean".
unfoldable pub evaluate_scores :
    Floats
    → (String → String → Bool)
    → String
    → List ScoredCase
    → Score
    → List Score
    → Option EvaluationReport
unfolding slice_metrics analyse worst largest_drop
evaluate_scores f precedes model_version scored threshold threshold_candidates = do
  attack_slices ← slice_metrics f precedes scored (λ c. c.attack) threshold
  clean ← lookup "clean" attack_slices
  overall ← metrics_of f threshold scored
  category_slices ← slice_metrics f precedes scored (λ c. c.category) threshold
  analysis ← analyse f scored threshold_candidates
  some (record {
    model_version = model_version;
    preprocessor_version = "sentinel-normalization-v2";
    decision_threshold = threshold;
    overall = overall;
    by_attack = attack_slices;
    by_category = category_slices;
    robustness = record {
      clean_recall = clean.recall;
      worst_attack_recall = worst clean.recall (attacked_recalls attack_slices);
      maximum_recall_drop_from_clean = largest_drop f clean.recall (attacked_recalls attack_slices);
    };
    threshold_analysis = analysis;
    predictions = scored;
  })

module _ (u : Unicode) (code_points : String → Text) (model : ToxicityModel) where
  -- The inner loop of `evaluate_model`, of one case; 0x3ff0000000000000 is 1.0.
  unfoldable pub score_attacks :
      EvaluationCase → List (String × (Text → Text)) → Option (List ScoredCase)
  score_attacks case [] = some []
  score_attacks case ((attack_name, attack) ∷ attacks) = do
    let score = model.predict_score (normalize_text u (attack (code_points case.text)))
    rest ← score_attacks case attacks
    if not (leb score 0x3ff0000000000000)
        then none
        else some (
            record {
              case_id = case.case_id;
              label = case.label;
              category = case.category;
              attack = attack_name;
              score = score;
            }
            ∷ rest)

  unfoldable pub score_cases :
      List EvaluationCase → List (String × (Text → Text)) → Option (List ScoredCase)
  unfolding score_attacks
  score_cases [] attacks = some []
  score_cases (case ∷ cases) attacks = do
    scored ← score_attacks case attacks
    rest ← score_cases cases attacks
    some (scored ++ rest)

  -- `evaluate_model`, without the versions of the members of an ensemble.
  unfoldable pub evaluate_model :
      Floats
      → (String → String → Bool)
      → List EvaluationCase
      → Score
      → List (String × (Text → Text))
      → List Score
      → Option EvaluationReport
  unfolding score_cases evaluate_scores
  evaluate_model f precedes cases threshold attacks threshold_candidates = do
    scored ← score_cases cases attacks
    evaluate_scores f precedes model.version scored threshold threshold_candidates
