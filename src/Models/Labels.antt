-- ===== src/Models/Labels.antt =====
-- The part of `load` that the two image adapters share: the reviewed mapping of a model's labels to
-- safety categories, as src/sentinel/multimodal/timm_model.py and transformer.py read it.
use sentinel_content_safety.Base.{
  ℕ, ◌+◌, String, true, false, Option, none, some, List, [], ◌∷◌, str_eq, ◌==◌, if◌then◌else◌,
}
use sentinel_content_safety.Base.Action.{Result, ok, raised}
use sentinel_content_safety.Base.Dict.{Dict}
use sentinel_content_safety.Schemas.{SafetyCategory}
use sentinel_content_safety.Multimodal.Engine.{is_image_category}

-- A value of the metadata, as far as the code tells values apart: a text, a list or a mapping, whose
-- members are none where they are no texts, or something else.
pub data Json : Type 0 where
  text : String → Json
  list : List (Option String) → Json
  mapping : Dict (Option String) → Json
  other : Json

-- What `load` raises. A key that is missing after the check of the fields never occurs, and neither
-- does the end of the fuel of the checksum.
pub data LoadError : Type 0 where
  metadata_missing metadata_unreadable : LoadError
  missing_fields : List String → LoadError
  unsupported_backend : Json → LoadError
  weights_missing : String → LoadError
  checksum_mismatch no_label_names no_label_categories : LoadError
  unknown_label : String → LoadError
  unknown_category : Option String → LoadError
  unsupported_category : SafetyCategory → LoadError
  build_failed key_error out_of_fuel : LoadError

infixl 5 ◌>>=◌
abbrev pub ◌>>=◌ :
    {A B : Type 0} → Result LoadError A → (A → Result LoadError B) → Result LoadError B
ok a >>= f = f a
raised e >>= f = raised e

infixl 5 ◌>>◌
abbrev pub ◌>>◌ :
    {B : Type 0} → Result LoadError (Unit {0}) → Result LoadError B → Result LoadError B
m >> k = m >>= λ _. k

-- `SafetyCategory(category)`, or nothing where it raises a ValueError.
unfoldable pub category_of : Option String → Option SafetyCategory
category_of none = none
category_of (some value) =
    if str_eq value "harassment"
    then some SafetyCategory.harassment
    else if str_eq value "identity_attack"
    then some SafetyCategory.identity_attack
    else if str_eq value "threat"
    then some SafetyCategory.threat
    else if str_eq value "toxicity"
    then some SafetyCategory.toxicity
    else if str_eq value "coordinated_abuse"
    then some SafetyCategory.coordinated_abuse
    else if str_eq value "sexual_content"
    then some SafetyCategory.sexual_content
    else if str_eq value "graphic_violence"
    then some SafetyCategory.graphic_violence
    else if str_eq value "cross_modal_disagreement"
    then some SafetyCategory.cross_modal_disagreement
    else none

-- `dict[int, SafetyCategory]`
abbrev pub LabelCategories : Type 0
LabelCategories = List (ℕ × SafetyCategory)

-- `label_categories[index] = category`
unfoldable pub set_label : ℕ → SafetyCategory → LabelCategories → LabelCategories
set_label index category [] = (index, category) ∷ []
set_label index category ((i, c) ∷ rest) =
    let later = set_label index category rest in
    if i == index then (i, category) ∷ rest else (i, c) ∷ later

-- The loop over the mapping, given where a label stands among those of the model.
unfoldable pub read_mapping :
    (String → Option ℕ) → Dict (Option String) → LabelCategories → Result LoadError LabelCategories
unfolding set_label
read_mapping label_id [] labels = ok labels
read_mapping label_id ((model_label, category) ∷ rest) labels = elim (label_id model_label) [
  | none ↦ raised (unknown_label model_label)
  | some index ↦ elim (category_of category) [
    | none ↦ raised (unknown_category category)
    | some safety_category ↦ elim (is_image_category safety_category) [
      | false ↦ raised (unsupported_category safety_category)
      | true ↦ read_mapping label_id rest (set_label index safety_category labels)
    ]
  ]
]

abbrev pub next_index : Option ℕ → Option ℕ
next_index none = none
next_index (some i) = some (i + 1)

-- `label_names.index(model_label)`, or nothing where the label is not in the list.
unfoldable pub index_of : String → List (Option String) → Option ℕ
index_of label [] = none
index_of label (none ∷ names) = next_index (index_of label names)
index_of label (some name ∷ names) =
    let later = next_index (index_of label names) in if str_eq name label then some 0 else later

-- `matching_ids[0]`, over the items of `id2label`.
unfoldable pub first_id : String → List (ℕ × String) → Option ℕ
first_id label [] = none
first_id label ((index, name) ∷ rest) =
    let later = first_id label rest in if str_eq name label then some index else later
