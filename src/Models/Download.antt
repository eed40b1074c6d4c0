-- ===== src/Models/Download.antt =====
-- scripts/download_image_model.py: the reviewed artifact that the script writes. The hub is a
-- parameter: it gives the bytes of the weights.
use sentinel_content_safety.Base.{
  eq_iff, subst, refl, ap, arith, ap, ◌∙◌, some-inj, sym, Bool-cases, inr, inl, Option-cases, ◌≡◌,
  String, Option, none, some, List, [], ◌∷◌, ℕ, str_eq, if◌then◌else◌,
}
use sentinel_content_safety.Base.Action.{ok}
use sentinel_content_safety.Base.Dict.{Dict, lookup}
use sentinel_content_safety.Schemas.{SafetyCategory}
use sentinel_content_safety.Models.Checksum.{Hash, sha256_of}
use sentinel_content_safety.Models.Labels.{
  Json, text, list, mapping, other, read_mapping, set_label, index_of, category_of,
}
use sentinel_content_safety.Models.Predict.{Network}
use sentinel_content_safety.Models.Load.{
  Artifact, ImageAdapter, load, load_metadata, checked_weights, reviewed_labels, missing_of, field,
}

abbrev pub weights_name : String
weights_name = "model.safetensors"

abbrev pub reviewed_sha256 : String
reviewed_sha256 = "d42733d1d8a0f3ef7fd61847b2be9ae4d79375720b816d0ab47e606b33019e89"

-- The metadata of the script; its numbers and lists of numbers are `other`.
unfoldable pub metadata : Dict Json
metadata =
    ("model_version", text "swiftformer-image-safety-m-v1")
    ∷ ("base_checkpoint", text "OwenElliott/image-safety-classifier-m")
    ∷ ("revision", text "a5ce9ee")
    ∷ ("backend", text "timm-safetensors")
    ∷ ("architecture", text "swiftformer_l1")
    ∷ ("weights_file", text weights_name)
    ∷ ("weights_sha256", text reviewed_sha256)
    ∷ ("label_names", list (some "NSFL" ∷ some "NSFW" ∷ some "SFW" ∷ []))
    ∷ (
      "label_categories",
      mapping (("NSFL", some "graphic_violence") ∷ ("NSFW", some "sexual_content") ∷ []),
    )
    ∷ ("input_size", other)
    ∷ ("interpolation", text "bicubic")
    ∷ ("crop_pct", other)
    ∷ ("mean", other)
    ∷ ("std", other)
    ∷ ("license", text "MIT")
    ∷ []

-- What `main` leaves in the output directory, the weights and the metadata; nothing where the checksum
-- of the download is not the reviewed one.
unfoldable pub download : {D : Type 0} → Hash D → List ℕ → Option (List ℕ × Dict Json)
unfolding metadata
download hash downloaded = elim (sha256_of hash downloaded) [
  | none ↦ none
  | some actual_sha256 ↦
      if str_eq actual_sha256 reviewed_sha256 then some (downloaded, metadata) else none
]

-- The output directory as `load` finds it, given `str`.
abbrev pub artifact_of : (Json → String) → List ℕ × Dict Json → Artifact
artifact_of str (weights, written) = record {
  metadata = some (some written);
  is_file = λ name. str_eq name weights_name;
  read = λ name. if str_eq name weights_name then weights else [];
  str = str;
}

download-inv :
    {D : Type 0} (hash : Hash D) (downloaded : List ℕ) {files : List ℕ × Dict Json}
    → download hash downloaded ≡ some files
    → (files ≡ (downloaded, metadata)) × (sha256_of hash downloaded ≡ some reviewed_sha256)
unfolding download
download-inv hash downloaded h = elim (Option-cases (sha256_of hash downloaded)) [
  | inl none_found ↦ let h' = rw (none_found, download) at h in cc
  | inr (digest, found) ↦ elim (Bool-cases (str_eq digest reviewed_sha256)) [
    | inl same ↦
        let h' = rw (found, same, download) at h in
        (sym (some-inj h'), found ∙ ap some (ground (arith, eq_iff digest reviewed_sha256)))
    | inr apart ↦ let h' = rw (found, apart, download) at h in cc
  ]
]

-- The adapter that the files of the script stand for.
abbrev pub image_safety : {R : Type 0} → Network R → ImageAdapter R
image_safety network = record {
  network = network;
  version = "swiftformer-image-safety-m-v1";
  label_categories = (0, SafetyCategory.graphic_violence) ∷ (1, SafetyCategory.sexual_content) ∷ [];
}

module _ {D R : Type 0} (hash : Hash D)
    (build : Dict Json → List (Option String) → List ℕ → Option (Network R))
    (str : Json → String) where
  load_of_download :
      (weights : List ℕ) (network : Network R)
      → ((s : String) → str (text s) ≡ s)
      → sha256_of hash weights ≡ some reviewed_sha256
      → build metadata (some "NSFL" ∷ some "NSFW" ∷ some "SFW" ∷ []) weights ≡ some network
      → load hash build (artifact_of str (weights, metadata)) ≡ ok (image_safety network)
  unfolding load metadata missing_of load_metadata checked_weights reviewed_labels read_mapping
      index_of category_of set_label field lookup
  load_of_download weights network law digest built =
      rw
        (
          law weights_name,
          digest,
          built,
          law "swiftformer-image-safety-m-v1",
          load,
          checked_weights,
        )
        refl

  -- What the script writes is what the adapter loads: where the download has the reviewed digest and
  -- the libraries build a network from it, `load` returns that network under the version of the
  -- script, with the first label for graphic violence and the second for sexual content.
  pub download-load :
      (downloaded : List ℕ) {files : List ℕ × Dict Json} {network : Network R}
      → ((s : String) → str (text s) ≡ s)
      → download hash downloaded ≡ some files
      → build files.1 (some "NSFL" ∷ some "NSFW" ∷ some "SFW" ∷ []) files.0 ≡ some network
      → load hash build (artifact_of str files) ≡ ok (image_safety network)
  download-load downloaded {files} {network} law written built =
      let (same, digest) = download-inv hash downloaded written in
      subst
        (λ f.
          build f.1 (some "NSFL" ∷ some "NSFW" ∷ some "SFW" ∷ []) f.0 ≡ some network
          → load hash build (artifact_of str f) ≡ ok (image_safety network))
        (sym same) (load_of_download downloaded network law digest) built
