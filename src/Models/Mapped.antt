-- ===== src/Models/Mapped.antt =====
-- The labels of a loaded model are classes of its network: the mapping of src/sentinel/multimodal/
-- timm_model.py and transformer.py.
use sentinel_content_safety.Base.{
  both, ℕ, suc, ◌≡◌, refl, sym, inl, inr, String, true, Bool-cases, Option, Option-cases, none,
  some, some-inj, str_eq, List, [], ◌∷◌, length, all, ltb, ◌==◌, arith,
}
use sentinel_content_safety.Base.Action.{ok, ok-injective}
use sentinel_content_safety.Base.Dict.{Dict}
use sentinel_content_safety.Schemas.{SafetyCategory}
use sentinel_content_safety.Multimodal.Engine.{is_image_category}
use sentinel_content_safety.Models.Labels.{
  category_of, next_index, LabelCategories, read_mapping, set_label, index_of,
}
use sentinel_content_safety.Models.Accepted.{is_label}

set_label-is_label :
    (n i : ℕ) (c : SafetyCategory) (labels : LabelCategories)
    → is_label n (i, c) ≡ true
    → all (is_label n) labels ≡ true
    → all (is_label n) (set_label i c labels) ≡ true
unfolding set_label
set_label-is_label n i c [] h a = rw h refl
set_label-is_label n i c ((j, d) ∷ rest) h a =
    let (own, later) = both _ _ a in
    let (image, _) = both (is_image_category c) (ltb i n) h in
    let (_, inside) = both (is_image_category d) (ltb j n) own in
    elim (Bool-cases (j == i)) [
      | inl same ↦ rw (same, image, inside, later) refl
      | inr apart ↦ rw (apart, own, set_label-is_label n i c rest h later) refl
    ]

next_index-lt :
    (o : Option ℕ) (n : ℕ) {i : ℕ}
    → next_index o ≡ some i
    → ((j : ℕ) → o ≡ some j → ltb j n ≡ true)
    → ltb i (suc n) ≡ true
next_index-lt none n h later = cc
next_index-lt (some j) n h later = let inside = later j refl in ground (arith, some-inj h)

zero_less : (n : ℕ) → ltb 0 (suc n) ≡ true
zero_less n = ground arith

pub index_of-lt :
    (label : String) (names : List (Option String)) (i : ℕ)
    → index_of label names ≡ some i
    → ltb i (length names) ≡ true
unfolding index_of
index_of-lt label [] i h = cc
index_of-lt label (none ∷ names) i h =
    next_index-lt (index_of label names) (length names) h (index_of-lt label names)
index_of-lt label (some name ∷ names) i h = elim (Bool-cases (str_eq name label)) [
  | inl same ↦ let e = some-inj (rw same at h) in rw (sym e) (zero_less (length names))
  | inr apart ↦
      next_index-lt (index_of label names) (length names) (rw apart at h) (index_of-lt label names)
]

module _ (label_id : String → Option ℕ) (n : ℕ) where
  -- The categories of a mapping whose labels are known are labels of the network.
  pub read_mapping-is_label :
      ((label : String) (i : ℕ) → label_id label ≡ some i → ltb i n ≡ true)
      → (entries : Dict (Option String)) (acc labels : LabelCategories)
      → read_mapping label_id entries acc ≡ ok labels
      → all (is_label n) acc ≡ true
      → all (is_label n) labels ≡ true
  unfolding read_mapping
  read_mapping-is_label inside [] acc labels h a = rw (sym (ok-injective h)) a
  read_mapping-is_label inside ((l, t) ∷ rest) acc labels h a = elim (Option-cases (label_id l)) [
    | inl unknown ↦ let h' = rw (unknown, read_mapping) at h in cc
    | inr (i, known) ↦ elim (Option-cases (category_of t)) [
      | inl no_category ↦ let h' = rw (known, no_category, read_mapping) at h in cc
      | inr (c, category) ↦ elim (Bool-cases (is_image_category c)) [
        | inr foreign ↦ let h' = rw (known, category, foreign, read_mapping) at h in cc
        | inl image ↦
            let h' = rw (known, category, image, read_mapping) at h in
            read_mapping-is_label inside rest (set_label i c acc) labels h'
              (set_label-is_label n i c acc (rw (image, inside l i known) refl) a)
      ]
    ]
  ]
