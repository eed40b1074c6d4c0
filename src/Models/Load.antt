-- ===== src/Models/Load.antt =====
-- `_load_metadata` and `load` of src/sentinel/multimodal/timm_model.py, and `load` of transformer.py
-- beside it. Files, `str` of a value of the metadata, and the libraries that build a network are
-- parameters.
use sentinel_content_safety.Base.{
  ℕ, String, Bool, true, false, not, Option, none, some, List, [], ◌∷◌, is_some, keep, str_eq,
}
use sentinel_content_safety.Base.Action.{Result, ok, raised}
use sentinel_content_safety.Base.Dict.{Dict, lookup}
use sentinel_content_safety.Multimodal.Engine.{ImageSafetyModel}
use sentinel_content_safety.Models.Checksum.{Hash, sha256_of}
use sentinel_content_safety.Models.Labels.{
  Json, text, list, mapping, other, LoadError, metadata_missing, metadata_unreadable,
  missing_fields, unsupported_backend, weights_missing, checksum_mismatch, no_label_names,
  no_label_categories, build_failed, key_error, out_of_fuel, ◌>>=◌, ◌>>◌, LabelCategories,
  read_mapping, index_of, first_id,
}
use sentinel_content_safety.Models.Predict.{Network, predict_scores}

-- The directory of a model: the metadata is none where the file is missing, and `some none` where it
-- is no JSON object; files are read by their names.
pub record Artifact : Type 0 where
  pub metadata : Option (Option (Dict Json))
  pub is_file : String → Bool
  pub read : String → List ℕ
  pub str : Json → String

-- The required fields, sorted.
abbrev pub required : List String
required =
    "architecture" ∷ "backend" ∷ "input_size" ∷ "label_categories" ∷ "label_names" ∷ "mean"
    ∷ "model_version" ∷ "std" ∷ "weights_file" ∷ "weights_sha256" ∷ []

unfoldable pub missing_of : Dict Json → List String
missing_of metadata = keep (λ name. not (is_some (lookup name metadata))) required

-- `value == expected` for a text
abbrev pub is_text : String → Json → Bool
is_text expected (text value) = str_eq value expected
is_text expected (list _) = false
is_text expected (mapping _) = false
is_text expected other = false

-- `metadata[name]`
unfoldable pub field : String → Dict Json → Result LoadError Json
field name metadata = elim (lookup name metadata) [
  | none ↦ raised key_error
  | some value ↦ ok value
]

abbrev pub raise_unless : Bool → LoadError → Result LoadError (Unit {0})
raise_unless true e = ok tt
raise_unless false e = raised e

-- `if missing: raise ...`
abbrev pub raise_missing : List String → Result LoadError (Unit {0})
raise_missing [] = ok tt
raise_missing (name ∷ names) = raised (missing_fields (name ∷ names))

unfoldable pub load_metadata : Artifact → Result LoadError (Dict Json)
unfolding missing_of field
load_metadata artifact = elim artifact.metadata [
  | none ↦ raised metadata_missing
  | some none ↦ raised metadata_unreadable
  | some (some metadata) ↦ do
    raise_missing (missing_of metadata)
    backend ← field "backend" metadata
    raise_unless (is_text "timm-safetensors" backend) (unsupported_backend backend)
    ok metadata
]

-- `isinstance(_, list)` and not empty
abbrev pub names_of : Json → Result LoadError (List (Option String))
names_of (list (name ∷ names)) = ok (name ∷ names)
names_of (list []) = raised no_label_names
names_of (text _) = raised no_label_names
names_of (mapping _) = raised no_label_names
names_of other = raised no_label_names

-- `isinstance(_, dict)` and not empty
abbrev pub mapping_of : Json → Result LoadError (Dict (Option String))
mapping_of (mapping (entry ∷ entries)) = ok (entry ∷ entries)
mapping_of (mapping []) = raised no_label_categories
mapping_of (text _) = raised no_label_categories
mapping_of (list _) = raised no_label_categories
mapping_of other = raised no_label_categories

abbrev pub or_raise : {A : Type 0} → LoadError → Option A → Result LoadError A
or_raise e none = raised e
or_raise e (some a) = ok a

-- A loaded adapter.
pub record ImageAdapter (R : Type 0) : Type 0 where
  pub network : Network R
  pub version : String
  pub label_categories : LabelCategories

-- The adapter as the engine sees it.
abbrev pub as_model : {R : Type 0} → ImageAdapter R → ImageSafetyModel
as_model adapter = record {
  version = adapter.version;
  predict_scores = predict_scores adapter.network adapter.label_categories;
}

-- The part of `load` on the weights: their bytes, once their checksum is the declared one.
unfoldable pub checked_weights :
    {D : Type 0} → Hash D → Artifact → Dict Json → Result LoadError (List ℕ)
unfolding field sha256_of
checked_weights hash artifact metadata = do
  weights_file ← field "weights_file" metadata
  raise_unless (artifact.is_file (artifact.str weights_file))
      (weights_missing (artifact.str weights_file))
  actual_sha256 ← or_raise out_of_fuel (sha256_of hash (artifact.read (artifact.str weights_file)))
  weights_sha256 ← field "weights_sha256" metadata
  raise_unless (is_text actual_sha256 weights_sha256) checksum_mismatch
  ok (artifact.read (artifact.str weights_file))

-- The part on the labels: their names, and the categories by the index of the label.
unfoldable pub reviewed_labels :
    Dict Json → Result LoadError (List (Option String) × LabelCategories)
unfolding field read_mapping index_of
reviewed_labels metadata = do
  raw_names ← field "label_names" metadata
  raw_mapping ← field "label_categories" metadata
  label_names ← names_of raw_names
  entries ← mapping_of raw_mapping
  label_categories ← read_mapping (λ label. index_of label label_names) entries []
  ok (label_names, label_categories)

-- `TimmImageSafetyModel.load`; `build` is what timm, torch and safetensors make of the metadata, the
-- names of the classes and the weights.
unfoldable pub load :
    {D R : Type 0}
    → Hash D
    → (Dict Json → List (Option String) → List ℕ → Option (Network R))
    → Artifact
    → Result LoadError (ImageAdapter R)
unfolding load_metadata checked_weights reviewed_labels
load hash build artifact = do
  metadata ← load_metadata artifact
  weights ← checked_weights hash artifact metadata
  (label_names, label_categories) ← reviewed_labels metadata
  network ← or_raise build_failed (build metadata label_names weights)
  model_version ← field "model_version" metadata
  ok (record {
    network = network;
    version = artifact.str model_version;
    label_categories = label_categories;
  })

-- `TransformerImageSafetyModel.load`; `from_pretrained` gives the network and `id2label`.
unfoldable pub load_pretrained :
    {R : Type 0}
    → Option (Network R × List (ℕ × String))
    → Artifact
    → Result LoadError (ImageAdapter R)
unfolding read_mapping field
load_pretrained from_pretrained artifact = elim artifact.metadata [
  | none ↦ raised metadata_missing
  | some none ↦ raised metadata_unreadable
  | some (some metadata) ↦ do
    entries ←
        mapping_of (elim (lookup "label_categories" metadata) [ none ↦ other | some value ↦ value ])
    (network, id2label) ← or_raise build_failed from_pretrained
    label_categories ← read_mapping (λ label. first_id label id2label) entries []
    model_version ← field "model_version" metadata
    ok (record {
      network = network;
      version = artifact.str model_version;
      label_categories = label_categories;
    })
]
