-- ===== src/Models/Declared.antt =====
-- The categories of a loaded model are those that its metadata declare: the mapping of
-- src/sentinel/multimodal/timm_model.py.
use sentinel_content_safety.Base.{
  both, ℕ, ◌≡◌, refl, sym, ◌∙◌, inl, inr, String, Bool, true, false, not, ◌&&◌, Bool-cases, Option,
  Option-cases, none, some, [], ◌∷◌, all, ◌==◌, if◌then◌else◌, arith,
}
use sentinel_content_safety.Base.Action.{ok, ok-injective}
use sentinel_content_safety.Base.Dict.{Dict}
use sentinel_content_safety.Schemas.{SafetyCategory}
use sentinel_content_safety.Multimodal.Engine.{is_image_category}
use sentinel_content_safety.Models.Labels.{category_of, LabelCategories, read_mapping, set_label}

-- The category of an index.
unfoldable pub category_at : ℕ → LabelCategories → Option SafetyCategory
category_at i [] = none
category_at i ((j, c) ∷ rest) = let later = category_at i rest in if j == i then some c else later

-- No index occurs twice.
abbrev pub lacks : ℕ → LabelCategories → Bool
lacks i = all (λ (l : ℕ × SafetyCategory). not (l.0 == i))

abbrev pub once : LabelCategories → Bool
once [] = true
once ((i, c) ∷ rest) = lacks i rest && once rest

-- A label stands at an index.
abbrev pub stands_at : Option ℕ → ℕ → Bool
stands_at none i = false
stands_at (some j) i = j == i

abbrev pub or_else : Option SafetyCategory → Option SafetyCategory → Option SafetyCategory
or_else none o = o
or_else (some c) o = some c

-- What a mapping declares for an index: the category of the label that stands there; of several
-- entries the last counts.
unfoldable pub declared_at : (String → Option ℕ) → Dict (Option String) → ℕ → Option SafetyCategory
declared_at label_id [] i = none
declared_at label_id ((label, category) ∷ rest) i =
    or_else (declared_at label_id rest i)
      (if stands_at (label_id label) i then category_of category else none)

category_at-set_label :
    (i j : ℕ) (c : SafetyCategory) (labels : LabelCategories)
    → category_at i (set_label j c labels) ≡ (if j == i then some c else category_at i labels)
unfolding category_at set_label
category_at-set_label i j c [] = refl
category_at-set_label i j c ((k, d) ∷ rest) = ground (arith, category_at-set_label i j c rest)

lacks-set_label :
    (i j : ℕ) (c : SafetyCategory) (labels : LabelCategories)
    → (j == i) ≡ false
    → lacks i labels ≡ true
    → lacks i (set_label j c labels) ≡ true
unfolding set_label
lacks-set_label i j c [] apart h = rw apart refl
lacks-set_label i j c ((k, d) ∷ rest) apart h =
    let (own, later) = both (not (k == i)) (lacks i rest) h in
    elim (Bool-cases (k == j)) [
      | inl same ↦ rw (same, own, later) refl
      | inr other ↦ rw (other, own, lacks-set_label i j c rest apart later) refl
    ]

once-set_label :
    (j : ℕ) (c : SafetyCategory) (labels : LabelCategories)
    → once labels ≡ true
    → once (set_label j c labels) ≡ true
unfolding set_label
once-set_label j c [] h = refl
once-set_label j c ((k, d) ∷ rest) h =
    let (own, later) = both (lacks k rest) (once rest) h in
    elim (Bool-cases (k == j)) [
      | inl same ↦ rw (same, own, later) refl
      | inr other ↦
          let apart : (j == k) ≡ false = ground arith in
          rw (other, lacks-set_label k j c rest apart own, once-set_label j c rest later) refl
    ]

or_else_set :
    (o older : Option SafetyCategory) (c : SafetyCategory) (here : Bool)
    → or_else o (if here then some c else older)
      ≡ or_else (or_else o (if here then some c else none)) older
or_else_set none older c true = refl
or_else_set none older c false = refl
or_else_set (some d) older c here = refl

module _ (label_id : String → Option ℕ) where
  -- Reading a mapping gives each index what the mapping declares for it, or else what it had.
  pub read_mapping-declared_at :
      (entries : Dict (Option String)) (acc labels : LabelCategories)
      → read_mapping label_id entries acc ≡ ok labels
      → once acc ≡ true
      → (once labels ≡ true)
        × ((i : ℕ)
            → category_at i labels ≡ or_else (declared_at label_id entries i) (category_at i acc))
  unfolding read_mapping declared_at
  read_mapping-declared_at [] acc labels h a = rw (sym (ok-injective h)) (a, λ i. refl)
  read_mapping-declared_at ((l, t) ∷ rest) acc labels h a = elim (Option-cases (label_id l)) [
    | inl unknown ↦ let h' = rw (unknown, read_mapping) at h in cc
    | inr (j, known) ↦ elim (Option-cases (category_of t)) [
      | inl no_category ↦ let h' = rw (known, no_category, read_mapping) at h in cc
      | inr (c, category) ↦ elim (Bool-cases (is_image_category c)) [
        | inr foreign ↦ let h' = rw (known, category, foreign, read_mapping) at h in cc
        | inl image ↦
            let h' = rw (known, category, image, read_mapping) at h in
            let (unique, found) =
              read_mapping-declared_at rest (set_label j c acc) labels h'
                (once-set_label j c acc a) in
            (
              unique,
              λ i.
                  rw (known, category)
                    (found i
                      ∙ rw (category_at-set_label i j c acc) (
                          or_else_set (declared_at label_id rest i) (category_at i acc) c
                            (j == i))),
            )
      ]
    ]
  ]
