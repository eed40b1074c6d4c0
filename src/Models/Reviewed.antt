-- ===== src/Models/Reviewed.antt =====
-- What a loaded image model is: src/sentinel/multimodal/timm_model.py, and transformer.py beside it.
use sentinel_content_safety.Base.{
  subst, ◌∷◌, ℕ, ◌≡◌, refl, sym, ◌∙◌, ap, inl, inr, String, Bool, true, false, Option, Option-cases,
  none, some, eq_iff, List, [], length, all, arith,
}
use sentinel_content_safety.Base.Action.{Result, ok, raised, ok-injective}
use sentinel_content_safety.Base.Dict.{Dict, lookup}
use sentinel_content_safety.Models.Checksum.{Hash, sha256_of}
use sentinel_content_safety.Models.Labels.{
  Json, text, list, mapping, other, build_failed, unsupported_backend, weights_missing,
  checksum_mismatch, out_of_fuel, LoadError, ◌>>=◌, LabelCategories, read_mapping, index_of,
}
use sentinel_content_safety.Models.Predict.{Network}
use sentinel_content_safety.Models.Load.{
  raise_missing, missing_of, names_of, mapping_of, checked_weights, reviewed_labels, load_metadata,
  Artifact, ImageAdapter, load, field, is_text, raise_unless, or_raise,
}
use sentinel_content_safety.Models.Accepted.{is_label}
use sentinel_content_safety.Models.Mapped.{index_of-lt, read_mapping-is_label}
use sentinel_content_safety.Models.Declared.{
  category_at, declared_at, once, or_else, read_mapping-declared_at,
}
use sentinel_content_safety.Schemas.{SafetyCategory}

-- A step of a load that returned.
bind-inv :
    {A B C : Type 0} (r : Result LoadError A) (k : A → Result LoadError B) {b : B}
    → (r >>= k) ≡ ok b
    → ((a : A) → r ≡ ok a → k a ≡ ok b → C)
    → C
bind-inv (ok a) k h next = next a refl h
bind-inv (raised e) k h next = cc

field-inv :
    (name : String) (metadata : Dict Json) {value : Json}
    → field name metadata ≡ ok value
    → lookup name metadata ≡ some value
unfolding field
field-inv name metadata h = elim (Option-cases (lookup name metadata)) [
  | inl absent ↦ let h' = rw (absent, field) at h in cc
  | inr (v, found) ↦ let h' = rw (found, field) at h in found ∙ ap some (ok-injective h')
]

raise_unless-inv : (b : Bool) (e : LoadError) → raise_unless b e ≡ ok tt → b ≡ true
raise_unless-inv true e h = refl
raise_unless-inv false e h = cc

or_raise-inv :
    {A : Type 0} (e : LoadError) (o : Option A) {a : A} → or_raise e o ≡ ok a → o ≡ some a
or_raise-inv e none h = cc
or_raise-inv e (some a) h = ap some (ok-injective h)

is_text-inv :
    (expected : String) (value : Json) → is_text expected value ≡ true → value ≡ text expected
is_text-inv expected (text value) h = ap text (ground (arith, eq_iff value expected))
is_text-inv expected (list _) h = cc
is_text-inv expected (mapping _) h = cc
is_text-inv expected other h = cc

load_metadata-inv :
    (artifact : Artifact) {metadata : Dict Json}
    → load_metadata artifact ≡ ok metadata
    → (artifact.metadata ≡ some (some metadata))
      × (lookup "backend" metadata ≡ some (text "timm-safetensors"))
unfolding load_metadata
load_metadata-inv artifact {metadata} h = elim (Option-cases artifact.metadata) [
  | inl absent ↦ let h' = rw (absent, load_metadata) at h in cc
  | inr (read, found) ↦ elim (Option-cases read) [
    | inl no_object ↦ let h' = rw (found, no_object, load_metadata) at h in cc
    | inr (value, object) ↦
        let h' = rw (found, object, load_metadata) at h in
        bind-inv (raise_missing (missing_of value)) _ h' (λ _ complete h1.
          bind-inv (field "backend" value) _ h1 (λ backend named h2.
            bind-inv
              (raise_unless (is_text "timm-safetensors" backend) (unsupported_backend backend)) _ h2
              (λ _ supported h3. (
                found ∙ ap some (object ∙ ap some (ok-injective h3)),
                ap (lookup "backend") (sym (ok-injective h3))
                    ∙ field-inv "backend" value named
                    ∙ ap some (
                        is_text-inv "timm-safetensors" backend (
                          raise_unless-inv (is_text "timm-safetensors" backend)
                            (unsupported_backend backend) supported)),
              ))))
  ]
]

names_of-inv :
    (value : Json) {names : List (Option String)} → names_of value ≡ ok names → value ≡ list names
names_of-inv (list (name ∷ names)) h = ap list (ok-injective h)
names_of-inv (list []) h = cc
names_of-inv (text _) h = cc
names_of-inv (mapping _) h = cc
names_of-inv other h = cc

mapping_of-inv :
    (value : Json) {entries : Dict (Option String)}
    → mapping_of value ≡ ok entries
    → value ≡ mapping entries
mapping_of-inv (mapping (entry ∷ entries)) h = ap mapping (ok-injective h)
mapping_of-inv (mapping []) h = cc
mapping_of-inv (list _) h = cc
mapping_of-inv (text _) h = cc
mapping_of-inv other h = cc

-- The labels that metadata declare: their names, and the category of each index, once, which is one
-- that the engine takes for a class of the network.
pub record IsDeclared (metadata : Dict Json) (label_names : List (Option String))
    (label_categories : LabelCategories) : Type 0 where
  pub names : lookup "label_names" metadata ≡ some (list label_names)
  pub entries : Dict (Option String)
  pub declared : lookup "label_categories" metadata ≡ some (mapping entries)
  pub categories :
      (i : ℕ)
      → category_at i label_categories ≡ declared_at (λ label. index_of label label_names) entries i
  pub unique : once label_categories ≡ true
  pub labels : all (is_label (length label_names)) label_categories ≡ true

or_else-none : (o : Option SafetyCategory) → or_else o none ≡ o
or_else-none none = refl
or_else-none (some c) = refl

reviewed_labels-IsDeclared :
    (metadata : Dict Json) (labels : List (Option String) × LabelCategories)
    → reviewed_labels metadata ≡ ok labels
    → IsDeclared metadata labels.0 labels.1
unfolding reviewed_labels category_at
reviewed_labels-IsDeclared metadata labels h =
    bind-inv (field "label_names" metadata) _ h (λ raw_names listed h1.
      bind-inv (field "label_categories" metadata) _ h1 (λ raw_mapping given h2.
        bind-inv (names_of raw_names) _ h2 (λ names named h3.
          bind-inv (mapping_of raw_mapping) _ h3 (λ entries read h4.
            let label_id : String → Option ℕ = λ label. index_of label names in
            bind-inv (read_mapping label_id entries []) _ h4 (λ categories mapped h5.
              let (unique, found) =
                read_mapping-declared_at label_id entries [] categories mapped refl in
              subst (λ (x : List (Option String) × LabelCategories). IsDeclared metadata x.0 x.1)
                (ok-injective h5)
                (record {
                  names =
                      field-inv "label_names" metadata listed
                      ∙ ap some (names_of-inv raw_names named);
                  entries = entries;
                  declared =
                      field-inv "label_categories" metadata given
                      ∙ ap some (mapping_of-inv raw_mapping read);
                  categories = λ i. found i ∙ or_else-none (declared_at label_id entries i);
                  unique = unique;
                  labels =
                      read_mapping-is_label label_id (length names)
                        (λ label i. index_of-lt label names i) entries [] categories mapped refl;
                }))))))

module _ {D R : Type 0} (hash : Hash D)
    (build : Dict Json → List (Option String) → List ℕ → Option (Network R))
    (artifact : Artifact) where
  -- Weights of the declared digest.
  pub record IsChecked (metadata : Dict Json) (weights : List ℕ) : Type 0 where
    pub weights_file : Json
    pub named : lookup "weights_file" metadata ≡ some weights_file
    pub present : artifact.is_file (artifact.str weights_file) ≡ true
    pub bytes : weights ≡ artifact.read (artifact.str weights_file)
    pub digest : String
    pub digested : sha256_of hash weights ≡ some digest
    pub declared : lookup "weights_sha256" metadata ≡ some (text digest)

  checked_weights-IsChecked :
      (metadata : Dict Json) (weights : List ℕ)
      → checked_weights hash artifact metadata ≡ ok weights
      → IsChecked metadata weights
  unfolding checked_weights
  checked_weights-IsChecked metadata weights h =
      bind-inv (field "weights_file" metadata) _ h (λ weights_file named h1.
        let path = artifact.str weights_file in
        bind-inv (raise_unless (artifact.is_file path) (weights_missing path)) _ h1 (λ _ present h2.
          bind-inv (or_raise out_of_fuel (sha256_of hash (artifact.read path))) _ h2
            (λ digest digested h3.
              bind-inv (field "weights_sha256" metadata) _ h3 (λ checksum declared h4.
                bind-inv (raise_unless (is_text digest checksum) checksum_mismatch) _ h4
                  (λ _ matches h5. record {
                    weights_file = weights_file;
                    named = field-inv "weights_file" metadata named;
                    present =
                        raise_unless-inv (artifact.is_file path) (weights_missing path) present;
                    bytes = sym (ok-injective h5);
                    digest = digest;
                    digested =
                        rw (sym (ok-injective h5))
                          (or_raise-inv out_of_fuel (sha256_of hash (artifact.read path)) digested);
                    declared =
                        field-inv "weights_sha256" metadata declared
                        ∙ ap some (
                            is_text-inv digest checksum (
                              raise_unless-inv (is_text digest checksum) checksum_mismatch
                                matches));
                  })))))

  -- What a loaded adapter rests on: metadata of the backend, weights of the digest that they declare,
  -- a network built from both, the labels and categories that they declare, and their version.
  pub record IsReviewed (adapter : ImageAdapter R) : Type 0 where
    pub metadata : Dict Json
    pub found : artifact.metadata ≡ some (some metadata)
    pub backend : lookup "backend" metadata ≡ some (text "timm-safetensors")
    pub weights : List ℕ
    pub checked : IsChecked metadata weights
    pub label_names : List (Option String)
    pub built : build metadata label_names weights ≡ some adapter.network
    pub labels : IsDeclared metadata label_names adapter.label_categories
    pub model_version : Json
    pub versioned : lookup "model_version" metadata ≡ some model_version
    pub version : adapter.version ≡ artifact.str model_version

  -- An adapter that `load` returns is a reviewed one: the metadata that were found name the backend,
  -- its network is built from them and from weights whose digest they declare, and its version, the
  -- names of its labels and the category of each label are those that they declare.
  pub load-IsReviewed :
      {adapter : ImageAdapter R} → load hash build artifact ≡ ok adapter → IsReviewed adapter
  unfolding load
  load-IsReviewed {adapter} h = bind-inv (load_metadata artifact) _ h (λ metadata loaded h1.
      bind-inv (checked_weights hash artifact metadata) _ h1 (λ weights checked h2.
        bind-inv (reviewed_labels metadata) _ h2 (λ labels reviewed h3.
          bind-inv (or_raise build_failed (build metadata labels.0 weights)) _ h3
            (λ network built h4.
              bind-inv (field "model_version" metadata) _ h4 (λ model_version versioned h5. record {
                metadata = metadata;
                found = (load_metadata-inv artifact loaded).0;
                backend = (load_metadata-inv artifact loaded).1;
                weights = weights;
                checked = checked_weights-IsChecked metadata weights checked;
                label_names = labels.0;
                built =
                    or_raise-inv build_failed (build metadata labels.0 weights) built
                    ∙ ap some (ap (λ (x : ImageAdapter R). x.network) (ok-injective h5));
                labels =
                    subst (λ (x : ImageAdapter R). IsDeclared metadata labels.0 x.label_categories)
                      (ok-injective h5) (reviewed_labels-IsDeclared metadata labels reviewed);
                model_version = model_version;
                versioned = field-inv "model_version" metadata versioned;
                version = ap (λ (x : ImageAdapter R). x.version) (sym (ok-injective h5));
              })))))
