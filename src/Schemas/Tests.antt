-- ===== src/Schemas/Tests.antt =====
-- The theorems on validators at small bodies.
use sentinel_content_safety.Base.{◌≡◌, refl, false, none, some, [], ◌∷◌, ◌==◌}
use sentinel_content_safety.Schemas.{ImageMediaType}
use sentinel_content_safety.Schemas.Fields.{
  Alphabet, RequestBody, ValidRequest, validate_request, ImageBody, ValidImageRequest,
  validate_image_request,
}
use sentinel_content_safety.Schemas.Again.{
  bodied, validate_request-again, validate_image_request-inner,
}

abbrev spaces : Alphabet
spaces = record { white = λ c. c == b' '; space = λ c. c == b' ' }

-- " hi "
abbrev body : RequestBody
body = record {
  text = b' ' ∷ b'h' ∷ b'i' ∷ b' ' ∷ [];
  request_id = some (b'r' ∷ b' ' ∷ []);
  extra = false;
}

abbrev valid : ValidRequest
valid = record { text = b'h' ∷ b'i' ∷ []; request_id = some (b'r' ∷ []) }

validate_request-again_example : validate_request spaces (bodied valid) ≡ some valid
unfolding validate_request
validate_request-again_example = validate_request-again spaces body {r = valid} refl

abbrev image_body : ImageBody
image_body = record {
  image_base64 = b'A' ∷ b'Q' ∷ b'=' ∷ b'=' ∷ [];
  media_type = ImageMediaType.png;
  text = some (b'h' ∷ b'i' ∷ b' ' ∷ []);
  request_id = none;
  extra = false;
}

abbrev valid_image : ValidImageRequest
valid_image = record {
  image_base64 = b'A' ∷ b'Q' ∷ b'=' ∷ b'=' ∷ [];
  media_type = ImageMediaType.png;
  text = some (b'h' ∷ b'i' ∷ []);
  request_id = none;
}

validate_image_request-inner_example :
    validate_request spaces (bodied (record { text = b'h' ∷ b'i' ∷ []; request_id = none }))
    ≡ some (record { text = b'h' ∷ b'i' ∷ []; request_id = none })
unfolding validate_image_request
validate_image_request-inner_example =
    validate_image_request-inner spaces image_body {r = valid_image} (b'h' ∷ b'i' ∷ []) refl refl
