-- ===== src/Models/Accepted.antt =====
-- The scores of an image model pass the checks of the engine: src/sentinel/multimodal/timm_model.py
-- and transformer.py against engine.py.
use sentinel_content_safety.Base.{
  both, ℕ, zero, suc, ◌<◌, ◌≡◌, refl, inl, inr, Bool, true, ◌&&◌, Bool-cases, none, some, some-inj,
  subst, List, [], ◌∷◌, length, all, max_of, ltb, leb, arith,
}
use sentinel_content_safety.Schemas.{SafetyCategory, category_eq, Score}
use sentinel_content_safety.Multimodal.Bytes.{get_elem?, get_elem?-lt}
use sentinel_content_safety.Multimodal.Engine.{Scores, refused, is_image_category}
use sentinel_content_safety.Multimodal.Image.{ok}
use sentinel_content_safety.Models.Labels.{LabelCategories}
use sentinel_content_safety.Models.Predict.{get_score, set_score, score_labels}

-- 1.0
abbrev pub one : Score
one = 0x3ff0000000000000

-- A label of the adapter: an index of the network, and a category that the engine takes.
abbrev pub is_label : ℕ → ℕ × SafetyCategory → Bool
is_label classes (index, category) = is_image_category category && ltb index classes

abbrev fits : SafetyCategory × Score → Bool
fits (category, score) = is_image_category category && leb score one

fits_parts :
    (c : SafetyCategory) (s : Score) (scores : Scores)
    → all fits ((c, s) ∷ scores) ≡ true
    → (is_image_category c ≡ true) × (leb s one ≡ true) × (all fits scores ≡ true)
fits_parts c s scores a =
    let (own, later) = both _ _ a in let (image, low) = both _ _ own in (image, low, later)

set_score-fits :
    (c : SafetyCategory) (s : Score) (scores : Scores)
    → is_image_category c ≡ true
    → leb s one ≡ true
    → all fits scores ≡ true
    → all fits (set_score c s scores) ≡ true
unfolding set_score
set_score-fits c s [] i h a = rw (i, h) refl
set_score-fits c s ((d, old) ∷ rest) i h a =
    let (image, low, later) = fits_parts d old rest a in
    elim (Bool-cases (category_eq d c)) [
      | inl same ↦ rw (same, image, h, later) refl
      | inr other ↦ rw (other, image, low, set_score-fits c s rest i h later) refl
    ]

get_score-fits :
    (c : SafetyCategory) (scores : Scores)
    → all fits scores ≡ true
    → leb (get_score c scores) one ≡ true
unfolding get_score
get_score-fits c [] a = refl
get_score-fits c ((d, old) ∷ rest) a =
    let (image, low, later) = fits_parts d old rest a in
    elim (Bool-cases (category_eq d c)) [
      | inl same ↦ rw same low
      | inr other ↦ rw other (get_score-fits c rest later)
    ]

refused-fits : (scores : Scores) → all fits scores ≡ true → refused scores ≡ none
unfolding refused
refused-fits [] a = refl
refused-fits ((d, old) ∷ rest) a =
    let (image, low, later) = fits_parts d old rest a in
    rw (image, low, refused-fits rest later) refl

ltb→lt : (a b : ℕ) → ltb a b ≡ true → a < b
ltb→lt a b h = ground arith

max_fits : (a p : ℕ) → leb a one ≡ true → leb p one ≡ true → leb (max_of a p) one ≡ true
max_fits a p h k = ground arith

within :
    (ps : List Score) (i : ℕ) {p : Score}
    → all (λ p. leb p one) ps ≡ true
    → get_elem? ps i ≡ some p
    → leb p one ≡ true
within [] i a h = ground arith
within (q ∷ ps) zero a h =
    let (own, later) = both _ _ a in subst (λ x. leb x one ≡ true) (some-inj h) own
within (q ∷ ps) (suc i) a h = let (own, later) = both _ _ a in within ps i later h

-- The loop over labels that stand for the classes of the network ends, and what it gives passes the
-- checks of the engine.
pub score_labels-fits :
    (labels : LabelCategories) (ps : List Score) (acc : Scores)
    → all (is_label (length ps)) labels ≡ true
    → all (λ p. leb p one) ps ≡ true
    → all fits acc ≡ true
    → (scores : Scores) × (score_labels labels ps acc ≡ ok scores) × (refused scores ≡ none)
unfolding score_labels
score_labels-fits [] ps acc l b a = (acc, refl, refused-fits acc a)
score_labels-fits ((i, c) ∷ rest) ps acc l b a =
    let (own, later) = both _ _ l in
    let (image, inside) = both _ _ own in
    let (p, found) = get_elem?-lt ps i (ltb→lt i (length ps) inside) in
    let low = within ps i b found in
    rw (found, score_labels)
      (score_labels-fits rest ps (set_score c (max_of (get_score c acc) p) acc) later b (
        set_score-fits c (max_of (get_score c acc) p) acc image
          (max_fits (get_score c acc) p (get_score-fits c acc a) low) a))
