-- ===== src/Models/Maximum.antt =====
-- What the scores of an image model are: src/sentinel/multimodal/timm_model.py, `predict_scores`.
use sentinel_content_safety.Base.{
  ℕ, ◌≤◌, ◌≡◌, refl, sym, ◌∙◌, ap, ◌⊎◌, inl, inr, subst, Bool, true, false, not, ◌&&◌, ◌||◌,
  Bool-cases, Option-cases, none, some, List, [], ◌∷◌, all, any, max_of, ltb, leb, ◌==◌,
  if◌then◌else◌, arith,
}
use sentinel_content_safety.Schemas.{SafetyCategory, category_eq, category_rank, Score}
use sentinel_content_safety.Multimodal.Bytes.{get_elem?}
use sentinel_content_safety.Multimodal.Engine.{Scores}
use sentinel_content_safety.Multimodal.Image.{Result, ok}
use sentinel_content_safety.Models.Labels.{LabelCategories}
use sentinel_content_safety.Models.Predict.{get_score, set_score, score_labels}

-- The probability of a label by its index.
abbrev pub probability : List Score → ℕ → Score
probability probabilities index = elim (get_elem? probabilities index) [ none ↦ 0 | some p ↦ p ]

-- A score is the greatest probability of the labels of a category: none of them is above it, and it
-- is one of them, or zero.
pub record IsMaximum (category : SafetyCategory) (labels : LabelCategories)
    (probabilities : List Score) (score : Score) : Type 0 where
  pub bound :
      all
        (λ (l : ℕ × SafetyCategory).
          not (category_eq l.1 category) || leb (probability probabilities l.0) score)
        labels
      ≡ true
  pub attained :
      (score ≡ 0)
      ⊎ (any
            (λ (l : ℕ × SafetyCategory).
              category_eq l.1 category && probability probabilities l.0 == score)
            labels
          ≡ true)

eq-same : (a b c : ℕ) → (a == b) ≡ true → (a == c) ≡ (b == c)
eq-same a b c h = ground arith

eq-same_right : (a b c : ℕ) → (a == b) ≡ true → (c == a) ≡ (c == b)
eq-same_right a b c h = ground arith

swapped :
    (a b c x y z : ℕ)
    → (a == b) ≡ false
    → (if a == c then x else (if b == c then y else z))
      ≡ (if b == c then y else (if a == c then x else z))
swapped a b c x y z h = ground arith

get_score-same :
    (c d : SafetyCategory) (scores : Scores)
    → category_eq d c ≡ true
    → get_score d scores ≡ get_score c scores
unfolding get_score
get_score-same c d [] h = refl
get_score-same c d ((e, old) ∷ rest) h =
    rw
      (
        eq-same_right (category_rank d) (category_rank c) (category_rank e) h,
        get_score-same c d rest h,
      )
      refl

get_score-set_score :
    (c d : SafetyCategory) (s : Score) (scores : Scores)
    → get_score c (set_score d s scores) ≡ (if category_eq d c then s else get_score c scores)
unfolding get_score set_score
get_score-set_score c d s [] = refl
get_score-set_score c d s ((e, old) ∷ rest) = elim (Bool-cases (category_eq e d)) [
  | inl same ↦
      rw (same, eq-same (category_rank e) (category_rank d) (category_rank c) same)
        (put (category_eq d c))
  | inr different ↦
      rw (different, get_score-set_score c d s rest)
        (swapped (category_rank e) (category_rank d) (category_rank c) old s (get_score c rest)
          different)
]
  where
    put :
        (b : Bool)
        → (if b then s else get_score c rest)
          ≡ (if b then s else (if b then old else get_score c rest))
    put true = refl
    put false = refl

-- The greatest probability of a category, by recursion on the labels.
unfoldable pub best : SafetyCategory → LabelCategories → List Score → Score
best c [] ps = 0
best c ((i, d) ∷ rest) ps =
    let later = best c rest ps in if category_eq d c then max_of (probability ps i) later else later

ok-injective : {a b : Scores} → ◌≡◌ {A = Result Scores} (ok a) (ok b) → a ≡ b
ok-injective e = cc

max_zero : (a : ℕ) → max_of a 0 ≡ a
max_zero a = ground arith

raise_to :
    (b : Bool) (g g' p q m : ℕ)
    → p ≡ q
    → (b ≡ true → g' ≡ g)
    → max_of (if b then max_of g' p else g) m ≡ max_of g (if b then max_of q m else m)
raise_to true g g' p q m e same = let e' = same refl in ground arith
raise_to false g g' p q m e same = refl

score_labels-best :
    (c : SafetyCategory) (labels : LabelCategories) (ps : List Score) (acc scores : Scores)
    → score_labels labels ps acc ≡ ok scores
    → get_score c scores ≡ max_of (get_score c acc) (best c labels ps)
unfolding score_labels best
score_labels-best c [] ps acc scores h =
    ap (get_score c) (sym (ok-injective h)) ∙ sym (max_zero (get_score c acc))
score_labels-best c ((i, d) ∷ rest) ps acc scores h = elim (Option-cases (get_elem? ps i)) [
  | inl absent ↦ ground arith
  | inr (p, found) ↦
      let h' = rw (found, score_labels) at h in
      let e =
        score_labels-best c rest ps (set_score d (max_of (get_score d acc) p) acc) scores h' in
      let e' = get_score-set_score c d (max_of (get_score d acc) p) acc in
      e
      ∙ ap (λ x. max_of x (best c rest ps)) e'
      ∙ raise_to (category_eq d c) (get_score c acc) (get_score d acc) p (probability ps i)
          (best c rest ps) (rw (found, probability) refl) (get_score-same c d acc)
]

bound_step :
    (b : Bool) (q m s : ℕ) → (if b then max_of q m else m) ≤ s → (not b || leb q s ≡ true) × (m ≤ s)
bound_step true q m s h = ground arith
bound_step false q m s h = (refl, h)

-- The greatest probability is no less than any, and it is one of them or zero.
best-bound :
    (c : SafetyCategory) (labels : LabelCategories) (ps : List Score) (s : Score)
    → best c labels ps ≤ s
    → all (λ (l : ℕ × SafetyCategory). not (category_eq l.1 c) || leb (probability ps l.0) s) labels
      ≡ true
unfolding best
best-bound c [] ps s h = refl
best-bound c ((i, d) ∷ rest) ps s h =
    let (own, later) = bound_step (category_eq d c) (probability ps i) (best c rest ps) s h in
    rw (own, best-bound c rest ps s later) refl

attained_step :
    (b : Bool) (q m : ℕ) (r : ℕ → Bool)
    → (m ≡ 0) ⊎ (r m ≡ true)
    → ((if b then max_of q m else m) ≡ 0)
      ⊎ ((b && q == (if b then max_of q m else m)) || r (if b then max_of q m else m) ≡ true)
attained_step false q m r h = h
attained_step true q m r h = elim (Bool-cases (ltb q m)) [
  | inl less ↦ rw (less, max_of) (attained_later h)
  | inr no_less ↦ inr (ground arith)
]
  where
    attained_later : (m ≡ 0) ⊎ (r m ≡ true) → (m ≡ 0) ⊎ ((q == m) || r m ≡ true)
    attained_later (inl z) = inl z
    attained_later (inr t) = inr (ground arith)

best-attained :
    (c : SafetyCategory) (labels : LabelCategories) (ps : List Score)
    → (best c labels ps ≡ 0)
      ⊎ (any
            (λ (l : ℕ × SafetyCategory).
              category_eq l.1 c && probability ps l.0 == best c labels ps)
            labels
          ≡ true)
unfolding best
best-attained c [] ps = inl refl
best-attained c ((i, d) ∷ rest) ps =
    attained_step (category_eq d c) (probability ps i) (best c rest ps)
      (λ s. any (λ (l : ℕ × SafetyCategory). category_eq l.1 c && probability ps l.0 == s) rest)
      (best-attained c rest ps)

-- The scores after the loop over the labels: of each category the greatest probability.
pub score_labels-IsMaximum :
    (labels : LabelCategories) (ps : List Score) (scores : Scores)
    → score_labels labels ps [] ≡ ok scores
    → (c : SafetyCategory) → IsMaximum c labels ps (get_score c scores)
unfolding get_score
score_labels-IsMaximum labels ps scores h c =
    let e = score_labels-best c labels ps [] scores h in
    let greatest : get_score c scores ≡ best c labels ps = e ∙ ground arith in
    subst (IsMaximum c labels ps) (sym greatest) (record {
      bound = best-bound c labels ps (best c labels ps) (omega arith);
      attained = best-attained c labels ps;
    })
