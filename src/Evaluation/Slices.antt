-- ===== src/Evaluation/Slices.antt =====
-- The slices of a report add up to the whole.
use sentinel_content_safety.Base.{
  ℕ, ◌+◌, ◌≡◌, refl, ap, ◌∙◌, String, Bool, true, false, not, ◌&&◌, Option, none, some, List, [],
  ◌∷◌, ◌++◌, length, leb, ◌==◌, if◌then◌else◌, arith, Option-cases, inl, inr, some-inj, subst,
}
use sentinel_content_safety.Base.Dict.{Dict, lookup, insert}
use sentinel_content_safety.Schemas.{Score}
use sentinel_content_safety.Evaluation.Cases.{◌>>=◌}
use sentinel_content_safety.Evaluation.Metrics.{
  Floats, ScoredCase, ConfusionMatrix, BinaryMetrics, count_pairs, confusion, binary_metrics,
  labels_of, scores_of, metrics_of, group_at, group_by, insert_group, sort_groups, measure,
  slice_metrics, EvaluationReport, evaluate_scores, analyse,
}

-- The sum of a number over the cases, over the groups, and over the slices.
abbrev sum_over : (ScoredCase → ℕ) → List ScoredCase → ℕ
sum_over w [] = 0
sum_over w (c ∷ cs) = w c + sum_over w cs

abbrev total : (ScoredCase → ℕ) → Dict (List ScoredCase) → ℕ
total w [] = 0
total w ((name, items) ∷ groups) = sum_over w items + total w groups

abbrev pub over_slices : (BinaryMetrics → ℕ) → Dict BinaryMetrics → ℕ
over_slices g [] = 0
over_slices g ((name, m) ∷ slices) = g m + over_slices g slices

module _ (w : ScoredCase → ℕ) where
  sum_over-append_one :
      (cs : List ScoredCase) (c : ScoredCase) → sum_over w (cs ++ c ∷ []) ≡ sum_over w cs + w c
  sum_over-append_one [] c = omega arith
  sum_over-append_one (d ∷ cs) c = omega (arith, sum_over-append_one cs c)

  total-insert :
      (name : String) (c : ScoredCase) (groups : Dict (List ScoredCase))
      → total w (insert name (group_at (lookup name groups) ++ c ∷ []) groups)
        ≡ total w groups + w c
  unfolding insert lookup
  total-insert name c [] = omega arith
  total-insert name c ((k, items) ∷ groups) =
      ground (arith, total-insert name c groups, sum_over-append_one items c)

  total-group_by :
      (attribute : ScoredCase → String) (cs : List ScoredCase) (groups : Dict (List ScoredCase))
      → total w (group_by attribute cs groups) ≡ total w groups + sum_over w cs
  unfolding group_by
  total-group_by attribute [] groups = omega arith
  total-group_by attribute (c ∷ cs) groups =
      total-group_by attribute cs _ ∙ omega (arith, total-insert (attribute c) c groups)

  total-insert_group :
      (precedes : String → String → Bool) (g : String × List ScoredCase)
      (groups : Dict (List ScoredCase))
      → total w (insert_group precedes g groups) ≡ sum_over w g.1 + total w groups
  unfolding insert_group
  total-insert_group precedes g [] = refl
  total-insert_group precedes g (h ∷ hs) = ground (arith, total-insert_group precedes g hs)

  total-sort_groups :
      (precedes : String → String → Bool) (groups : Dict (List ScoredCase))
      → total w (sort_groups precedes groups) ≡ total w groups
  unfolding sort_groups
  total-sort_groups precedes [] = refl
  total-sort_groups precedes (g ∷ gs) =
      total-insert_group precedes g (sort_groups precedes gs)
      ∙ omega (arith, total-sort_groups precedes gs)

  module _ (f : Floats) (threshold : Score) (g : BinaryMetrics → ℕ)
      (agrees : (items : List ScoredCase) (m : BinaryMetrics)
        → metrics_of f threshold items ≡ some m
        → g m ≡ sum_over w items) where
    measure-over_slices :
        (groups : Dict (List ScoredCase)) (slices : Dict BinaryMetrics)
        → measure f threshold groups ≡ some slices
        → over_slices g slices ≡ total w groups
    unfolding measure
    measure-over_slices [] slices e = rw (← some-inj e) refl
    measure-over_slices ((name, items) ∷ groups) slices e =
        elim (Option-cases (metrics_of f threshold items)) [
          | inl stop ↦ let e' = rw stop at e in cc
          | inr (m, here) ↦ elim (Option-cases (measure f threshold groups)) [
            | inl stop ↦ let e' = rw stop at (rw here at e) in cc
            | inr (rest, there) ↦
                let e' = rw there at (rw here at e) in
                rw (← some-inj e')
                  (omega (arith, agrees items m here, measure-over_slices groups rest there))
          ]
        ]

    slice_metrics-over_slices :
        (precedes : String → String → Bool) (attribute : ScoredCase → String)
        (scored : List ScoredCase) {slices : Dict BinaryMetrics} {m : BinaryMetrics}
        → slice_metrics f precedes scored attribute threshold ≡ some slices
        → metrics_of f threshold scored ≡ some m
        → over_slices g slices ≡ g m
    unfolding slice_metrics
    slice_metrics-over_slices precedes attribute scored {slices} {m} e whole =
        measure-over_slices _ slices e
        ∙ total-sort_groups precedes (group_by attribute scored [])
        ∙ total-group_by attribute scored []
        ∙ omega (arith, agrees scored m whole)

-- What a case adds to an entry of the confusion matrix.
abbrev adds : ℕ → Bool → Score → ScoredCase → ℕ
adds l q threshold c =
    let predicted = leb threshold c.score in
    if c.label == l && (if q then predicted else not predicted) then 1 else 0

count_pairs-sum :
    (l : ℕ) (q : Bool) (threshold : Score) (cs : List ScoredCase)
    → count_pairs l q threshold (labels_of cs) (scores_of cs) ≡ sum_over (adds l q threshold) cs
unfolding count_pairs
count_pairs-sum l q threshold [] = refl
count_pairs-sum l q threshold (c ∷ cs) = ground (arith, count_pairs-sum l q threshold cs)

length-labels : (cs : List ScoredCase) → length (labels_of cs) ≡ sum_over (λ _. 1) cs
length-labels [] = refl
length-labels (c ∷ cs) = omega (arith, length-labels cs)

module _ (f : Floats) (threshold : Score) where
  metrics_of-some :
      (items : List ScoredCase) {m : BinaryMetrics}
      → metrics_of f threshold items ≡ some m
      → (m.confusion_matrix ≡ confusion (labels_of items) (scores_of items) threshold)
        × (m.examples ≡ length (labels_of items))
  unfolding binary_metrics
  metrics_of-some items {m} e = ground arith

  -- The numbers of examples and of each entry of the confusion matrix add up.
  pub record AddsUp (slices : Dict BinaryMetrics) (m : BinaryMetrics) : Type 0 where
    pub examples : over_slices (λ x. x.examples) slices ≡ m.examples
    pub tn : over_slices (λ x. x.confusion_matrix.tn) slices ≡ m.confusion_matrix.tn
    pub fp : over_slices (λ x. x.confusion_matrix.fp) slices ≡ m.confusion_matrix.fp
    pub fn : over_slices (λ x. x.confusion_matrix.fn) slices ≡ m.confusion_matrix.fn
    pub tp : over_slices (λ x. x.confusion_matrix.tp) slices ≡ m.confusion_matrix.tp

  module _ (precedes : String → String → Bool) (attribute : ScoredCase → String)
      (scored : List ScoredCase) {slices : Dict BinaryMetrics} {m : BinaryMetrics}
      (e : slice_metrics f precedes scored attribute threshold ≡ some slices)
      (whole : metrics_of f threshold scored ≡ some m) where
    entry-over_slices :
        (l : ℕ) (q : Bool) (g : ConfusionMatrix → ℕ)
        → ((labels : List ℕ) (scores : List Score)
            → g (confusion labels scores threshold) ≡ count_pairs l q threshold labels scores)
        → over_slices (λ x. g x.confusion_matrix) slices ≡ g m.confusion_matrix
    entry-over_slices l q g reads =
        slice_metrics-over_slices (adds l q threshold) f threshold (λ x. g x.confusion_matrix)
          (λ items n here.
            ap g (metrics_of-some items here).0
            ∙ reads (labels_of items) (scores_of items)
            ∙ count_pairs-sum l q threshold items)
          precedes attribute scored e whole

    slice_metrics-AddsUp : AddsUp slices m
    unfolding confusion
    slice_metrics-AddsUp = record {
      examples =
          slice_metrics-over_slices (λ _. 1) f threshold (λ x. x.examples)
            (λ items n here. (metrics_of-some items here).1 ∙ length-labels items) precedes
            attribute scored e whole;
      tn = entry-over_slices 0 false (λ x. x.tn) (λ labels scores. refl);
      fp = entry-over_slices 0 true (λ x. x.fp) (λ labels scores. refl);
      fn = entry-over_slices 1 false (λ x. x.fn) (λ labels scores. refl);
      tp = entry-over_slices 1 true (λ x. x.tp) (λ labels scores. refl);
    }

bind-some :
    {A B : Type 0} (o : Option A) (k : A → Option B) {b : B}
    → (o >>= k) ≡ some b
    → (a : A) × (o ≡ some a) × (k a ≡ some b)
bind-some none k e = cc
bind-some (some a) k e = (a, refl, e)

-- Of every report that `evaluate_scores` gives: the slices by attack add up to the whole, and so do
-- the slices by category, in the number of examples and in each entry of the confusion matrix.
pub evaluate_scores-AddsUp :
    (f : Floats) (precedes : String → String → Bool) (model_version : String)
    (scored : List ScoredCase) (threshold : Score) (candidates : List Score)
    {report : EvaluationReport}
    → evaluate_scores f precedes model_version scored threshold candidates ≡ some report
    → AddsUp f threshold report.by_attack report.overall
      × AddsUp f threshold report.by_category report.overall
unfolding evaluate_scores
evaluate_scores-AddsUp f precedes model_version scored threshold candidates {report} e =
    let (attack_slices, by_attack, e1) =
      bind-some (slice_metrics f precedes scored (λ c. c.attack) threshold) _ e in
    let (clean, _, e2) = bind-some (lookup "clean" attack_slices) _ e1 in
    let (overall, whole, e3) = bind-some (metrics_of f threshold scored) _ e2 in
    let (category_slices, by_category, e4) =
      bind-some (slice_metrics f precedes scored (λ c. c.category) threshold) _ e3 in
    let (analysis, _, e5) = bind-some (analyse f scored candidates) _ e4 in
    let made = some-inj e5 in
    (
      subst (λ (r : EvaluationReport). AddsUp f threshold r.by_attack r.overall) made
          (slice_metrics-AddsUp f threshold precedes (λ c. c.attack) scored by_attack whole),
      subst (λ (r : EvaluationReport). AddsUp f threshold r.by_category r.overall) made
          (slice_metrics-AddsUp f threshold precedes (λ c. c.category) scored by_category whole),
    )
