-- ===== src/Schemas/Fields.antt =====
-- The validators of src/sentinel/schemas/moderation.py and src/sentinel/review/models.py: what Pydantic
-- makes of a body whose fields have the declared types. Its table of white space is a parameter, as
-- Python's is; both are kept apart.
use sentinel_content_safety.Base.{
  ℕ, Bool, false, ◌&&◌, ◌||◌, Option, none, some, List, [], ◌∷◌, length, all, ltb, leb, ◌==◌,
  if◌then◌else◌,
}
use sentinel_content_safety.Schemas.{ImageMediaType}

-- `white` is what `str_strip_whitespace` takes off, `space` what `str.strip` takes off.
pub record Alphabet : Type 0 where
  pub white : ℕ → Bool
  pub space : ℕ → Bool

abbrev pub strip_left : (ℕ → Bool) → List ℕ → List ℕ
strip_left blank [] = []
strip_left blank (c ∷ cs) = if blank c then strip_left blank cs else c ∷ cs

abbrev pub reverse_onto : List ℕ → List ℕ → List ℕ
reverse_onto [] ds = ds
reverse_onto (c ∷ cs) ds = reverse_onto cs (c ∷ ds)

unfoldable pub strip : (ℕ → Bool) → List ℕ → List ℕ
strip blank text = reverse_onto (strip_left blank (reverse_onto (strip_left blank text) [])) []

-- `Field(min_length=..., max_length=...)` of a stripped text
unfoldable pub bounded : Alphabet → ℕ → ℕ → List ℕ → Option (List ℕ)
unfolding strip
bounded a min_length max_length raw =
    let text = strip a.white raw in
    if ltb (length text) min_length || ltb max_length (length text) then none else some text

-- `if not value.strip(): raise ValueError`
unfoldable pub reject_blank : Alphabet → List ℕ → Option (List ℕ)
unfolding strip
reject_blank a text = if leb (length (strip a.space text)) 0 then none else some text

infixl 5 ◌>>=◌
abbrev pub ◌>>=◌ : {A B : Type 0} → Option A → (A → Option B) → Option B
none >>= f = none
some a >>= f = f a

-- A field that may be absent.
abbrev pub optional : (List ℕ → Option (List ℕ)) → Option (List ℕ) → Option (Option (List ℕ))
optional check none = some none
optional check (some raw) = check raw >>= λ text. some (some text)

-- `ModerationRequest` as a body: its fields, and whether it has further ones.
pub record RequestBody : Type 0 where
  pub text : List ℕ
  pub request_id : Option (List ℕ)
  pub extra : Bool

-- The fields of a body that was accepted.
pub record ValidRequest : Type 0 where
  pub text : List ℕ
  pub request_id : Option (List ℕ)

unfoldable pub validate_request : Alphabet → RequestBody → Option ValidRequest
unfolding bounded reject_blank
validate_request a body = do
  stripped ← bounded a 1 5000 body.text
  text ← reject_blank a stripped
  request_id ← optional (bounded a 1 128) body.request_id
  if body.extra then none else some (record { text = text; request_id = request_id })

-- `MultimodalModerationRequest`
pub record ImageBody : Type 0 where
  pub image_base64 : List ℕ
  pub media_type : ImageMediaType
  pub text : Option (List ℕ)
  pub request_id : Option (List ℕ)
  pub extra : Bool

pub record ValidImageRequest : Type 0 where
  pub image_base64 : List ℕ
  pub media_type : ImageMediaType
  pub text : Option (List ℕ)
  pub request_id : Option (List ℕ)

-- `reject_blank_optional_text` after the bounds of the field.
abbrev pub bounded_text : Alphabet → List ℕ → Option (List ℕ)
bounded_text a raw = bounded a 0 5000 raw >>= reject_blank a

unfoldable pub validate_image_request : Alphabet → ImageBody → Option ValidImageRequest
unfolding bounded reject_blank
validate_image_request a body = do
  image_base64 ← bounded a 1 7000000 body.image_base64
  text ← optional (bounded_text a) body.text
  request_id ← optional (bounded a 1 128) body.request_id
  if body.extra
      then none
      else some (record {
        image_base64 = image_base64;
        media_type = body.media_type;
        text = text;
        request_id = request_id;
      })

abbrev pub is_lower : ℕ → Bool
is_lower c = leb b'a' c && leb c b'z'

-- `^[a-z][a-z0-9_]{2,63}$`
unfoldable pub is_reason_code : List ℕ → Bool
is_reason_code [] = false
is_reason_code (c ∷ cs) =
    is_lower c
    && leb 2 (length cs)
    && leb (length cs) 63
    && all (λ d. is_lower d || (leb b'0' d && leb d b'9') || d == b'_') cs

-- `reason_code` of `ReviewDecisionRequest` and `ReviewAppealRequest`
unfoldable pub validate_reason_code : Alphabet → List ℕ → Option (List ℕ)
unfolding strip is_reason_code
validate_reason_code a raw =
    let code = strip a.white raw in if is_reason_code code then some code else none
