-- ===== src/Multimodal/Limits.antt =====
-- What an accepted image satisfies.
use sentinel_content_safety.Base.{
  ℕ, ◌*◌, ◌≤◌, ◌<◌, ◌≡◌, refl, ap, ◌∙◌, sym, String, false, Option, none, some, List, length,
  eq_iff, arith,
}
use sentinel_content_safety.Schemas.{ImageMediaType}
use sentinel_content_safety.Multimodal.Image.{
  ValidatedImage, Metadata, Result, ok, raised, ◌>>=◌, max_image_bytes, max_image_pixels,
  max_image_dimension, expected_format, inspect, check_metadata, decode_payload, decode_image,
}

-- The limits of the image boundary, with the payload that was decoded.
pub record IsWithinLimits (declared : ImageMediaType) (payload : List ℕ) (image : ValidatedImage)
    : Type 0 where
  pub kept : image.data_bytes ≡ payload
  pub counted : image.bytes_received ≡ length payload
  pub some_bytes : 0 < length payload
  pub few_bytes : length payload ≤ max_image_bytes
  pub declared_format : image.format ≡ expected_format declared
  pub positive : (0 < image.width) × (0 < image.height)
  pub sides : (image.width ≤ max_image_dimension) × (image.height ≤ max_image_dimension)
  pub pixels : image.width * image.height ≤ max_image_pixels

-- What the inspection found of an accepted image.
abbrev pub still : ValidatedImage → Metadata
still image = record { width = image.width; height = image.height; animated = false }

check_metadata-ok :
    (payload : List ℕ) (declared : ImageMediaType) (format : String) (m : Metadata)
    {image : ValidatedImage}
    → check_metadata payload declared format m ≡ ok image
    → 0 < length payload
    → length payload ≤ max_image_bytes
    → IsWithinLimits declared payload image × (image.format ≡ format) × (still image ≡ m)
unfolding check_metadata
check_metadata-ok payload declared format m h a b =
    grind (arith, eq_iff format (expected_format declared))

checked :
    (payload : List ℕ) (declared : ImageMediaType) (r : Result (String × Metadata))
    {image : ValidatedImage}
    → (r >>= λ (format, m). check_metadata payload declared format m) ≡ ok image
    → 0 < length payload
    → length payload ≤ max_image_bytes
    → IsWithinLimits declared payload image × (r ≡ ok (image.format, still image))
unfolding check_metadata
checked payload declared (ok (format, m)) {image} h a b =
    let (within, e, f) = check_metadata-ok payload declared format m h a b in
    (within, ap ok (ap (λ x. (format, x)) (sym f) ∙ ap (λ x. (x, still image)) (sym e)))
checked payload declared (raised e) h a b = ground arith

decode_payload-ok :
    (declared : ImageMediaType) (o : Option (List ℕ)) {image : ValidatedImage}
    → decode_payload declared o ≡ ok image
    → (payload : List ℕ) × (o ≡ some payload)
      × IsWithinLimits declared payload image
      × (inspect payload ≡ ok (image.format, still image))
unfolding decode_payload
decode_payload-ok declared none h = ground arith
decode_payload-ok declared (some payload) h =
    let (within, found) =
      checked payload declared (inspect payload) (ground arith) (ground arith) (ground arith) in
    (payload, refl, within, found)

-- What `decode_image` accepts: the text decodes to a payload that the image keeps, neither empty nor
-- above the limit of bytes; its format is the declared one, both sides are positive and within the
-- limit, their product too, and the inspection found a still image of just those sides.
pub decode_image-ok :
    (b64decode : String → Option (List ℕ)) (image_base64 : String) (declared : ImageMediaType)
    {image : ValidatedImage}
    → decode_image b64decode image_base64 declared ≡ ok image
    → (payload : List ℕ) × (b64decode image_base64 ≡ some payload)
      × IsWithinLimits declared payload image
      × (inspect payload ≡ ok (image.format, still image))
unfolding decode_image
decode_image-ok b64decode image_base64 declared h =
    decode_payload-ok declared (b64decode image_base64) h
