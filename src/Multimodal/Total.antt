-- ===== src/Multimodal/Total.antt =====
-- The parsers read no byte out of range, and their loops end: no exception but those of the module.
use sentinel_content_safety.Base.{
  ℕ, zero, suc, ◌+◌, ◌≤◌, ◌<◌, String, Bool, true, false, Option, none, some, List, [], ◌∷◌, length,
  ltb, leb, ◌==◌, arith, if◌then◌else◌, Bool-cases, inl, inr,
}
use sentinel_content_safety.Schemas.{ImageMediaType}
use sentinel_content_safety.Multimodal.Bytes.{get_elem?, get_elem?-lt, starts_with}
use sentinel_content_safety.Multimodal.Image.{
  ImageError, too_large, unsupported, invalid, index_error, out_of_fuel, Metadata, Result, ok,
  raised, ◌>>=◌, skip_fill, Segment, frame, next, stop, read_segment, read_marker, scan_jpeg,
  jpeg_metadata, png_metadata, webp_metadata, inspect, check_metadata, decode_payload, decode_image,
  raise_if, max_image_bytes,
}

-- An exception that the module raises on purpose.
abbrev pub IsDeliberate : ImageError → Type 0
IsDeliberate (too_large _) = Unit
IsDeliberate (unsupported _) = Unit
IsDeliberate (invalid _) = Unit
IsDeliberate index_error = ⊥
IsDeliberate out_of_fuel = ⊥

-- A result, or such an exception; a number at least `low`; a segment that ends behind `low`.
unfoldable pub Returns : {A : Type 0} → Result A → Type 0
Returns (ok a) = Unit
Returns (raised e) = IsDeliberate e

abbrev Lands : ℕ → Result ℕ → Type 0
Lands low (ok p) = low ≤ p
Lands low (raised e) = IsDeliberate e

abbrev Moves : ℕ → Result Segment → Type 0
Moves low (ok (frame m)) = Unit
Moves low (ok stop) = Unit
Moves low (ok (next p)) = low < p
Moves low (raised e) = IsDeliberate e

skip_fill-Lands :
    (fuel : ℕ) (payload : List ℕ) (position low : ℕ)
    → low ≤ position
    → position ≤ length payload
    → length payload < position + fuel
    → Lands low (skip_fill fuel payload position)
unfolding skip_fill
skip_fill-Lands zero payload position low h inside enough = absurd (omega arith)
skip_fill-Lands (suc fuel) payload position low h inside enough =
    elim (Bool-cases (ltb position (length payload))) [
      | inr past ↦ rw past h
      | inl within ↦
          let (b, e) = get_elem?-lt payload position (ground arith) in
          rw (within, e)
            (elim (Bool-cases (b == 0xff)) [
              | inl fill ↦ rw fill (
                  skip_fill-Lands fuel payload (position + 1) low (omega arith) (ground arith)
                    (omega arith))
              | inr other ↦ rw other h
            ])
    ]

read_segment-Moves :
    (payload : List ℕ) (marker position low : ℕ)
    → low < position
    → Moves low (read_segment payload marker position)
unfolding read_segment
read_segment-Moves payload marker position low h = ground arith

after_fill :
    (payload : List ℕ) (low : ℕ) (r : Result ℕ)
    → Lands low r
    → Moves low (
        r >>= λ start.
        if leb (length payload) start then ok stop else (elim (get_elem? payload start) [
          | none ↦ raised index_error
          | some marker ↦ read_segment payload marker (start + 1)
        ]))
after_fill payload low (raised e) h = h
after_fill payload low (ok start) h = elim (Bool-cases (leb (length payload) start)) [
  | inl end ↦ rw end tt
  | inr within ↦
      let (marker, e) = get_elem?-lt payload start (ground arith) in
      rw (within, e) (read_segment-Moves payload marker (start + 1) low (omega arith))
]

read_marker-Moves :
    (payload : List ℕ) (position : ℕ)
    → position ≤ length payload
    → Moves position (read_marker payload position)
unfolding read_marker
read_marker-Moves payload position inside =
    after_fill payload position (skip_fill (suc (length payload)) payload position) (
      skip_fill-Lands (suc (length payload)) payload position position (omega arith) inside
        (omega arith))

scan_jpeg-Returns :
    (fuel : ℕ) (payload : List ℕ) (position : ℕ)
    → length payload < position + fuel
    → 0 < fuel
    → Returns (scan_jpeg fuel payload position)
unfolding scan_jpeg Returns
scan_jpeg-Returns zero payload position enough some_fuel = absurd (omega arith)
scan_jpeg-Returns (suc fuel) payload position enough some_fuel =
    elim (Bool-cases (ltb (length payload) (position + 4))) [
      | inl end ↦ rw end tt
      | inr within ↦
          let (b, e) = get_elem?-lt payload position (ground arith) in
          let fuel_left : 0 < fuel = ground arith in
          rw (within, e)
            (elim (Bool-cases (b == 0xff)) [
              | inr other ↦
                  rw other (scan_jpeg-Returns fuel payload (position + 1) (omega arith) fuel_left)
              | inl mark ↦ rw mark (
                  after (λ p h. scan_jpeg-Returns fuel payload p (omega arith) fuel_left)
                    (read_marker payload position)
                    (read_marker-Moves payload position (ground arith)))
            ])
    ]
  where
    after :
        ((p : ℕ) → position < p → Returns (scan_jpeg fuel payload p))
        → (r : Result Segment) → Moves position r
        → Returns (elim r [
          | raised e ↦ raised e
          | ok segment ↦ elim segment [
            | frame m ↦ ok (some m)
            | stop ↦ raised (invalid "JPEG dimensions could not be determined")
            | next position' ↦ scan_jpeg fuel payload position'
          ]
        ])
    after rec (raised e) h = h
    after rec (ok (frame m)) h = tt
    after rec (ok stop) h = tt
    after rec (ok (next p)) h = rec p h

jpeg_metadata-Returns : (payload : List ℕ) → Returns (jpeg_metadata payload)
unfolding jpeg_metadata Returns
jpeg_metadata-Returns payload = elim (Bool-cases (starts_with (0xff ∷ 0xd8 ∷ []) payload)) [
  | inr other ↦ rw (other, jpeg_metadata) tt
  | inl jpeg ↦
      rw (jpeg, jpeg_metadata)
        (scan_jpeg-Returns (suc (length payload)) payload 2 (omega arith) (omega arith))
]

Returns-raised : (A : Type 0) (e : ImageError) → IsDeliberate e → Returns {A = A} (raised e)
unfolding Returns
Returns-raised A e d = d

png_metadata-Returns : (payload : List ℕ) → Returns (png_metadata payload)
unfolding png_metadata Returns
png_metadata-Returns payload = ground arith

webp_metadata-Returns : (payload : List ℕ) → Returns (webp_metadata payload)
unfolding webp_metadata Returns
webp_metadata-Returns payload = elim (Bool-cases (ltb (length payload) 30)) [
  | inl short ↦ rw (short, webp_metadata) tt
  | inr long ↦
      let (b, e) = get_elem?-lt payload 20 (ground arith) in rw (e, webp_metadata) (ground arith)
]

inspect-Returns : (payload : List ℕ) → Returns (inspect payload)
unfolding inspect Returns
inspect-Returns payload =
    let p = png_metadata-Returns payload in
    let j = jpeg_metadata-Returns payload in let w = webp_metadata-Returns payload in ground arith

Returns-raise_if :
    {A : Type 0} (b : Bool) (e : ImageError) (k : Result A)
    → IsDeliberate e
    → Returns k
    → Returns (raise_if b e >>= λ _. k)
unfolding Returns
Returns-raise_if true e k d h = d
Returns-raise_if false e k d h = h

check_metadata-Returns :
    (payload : List ℕ) (declared : ImageMediaType) (format : String) (m : Metadata)
    → Returns (check_metadata payload declared format m)
unfolding check_metadata Returns
check_metadata-Returns payload declared format m = ground arith

Returns-bind :
    {A B : Type 0} (r : Result A) (f : A → Result B)
    → Returns r
    → ((a : A) → Returns (f a))
    → Returns (r >>= f)
unfolding Returns
Returns-bind (ok a) f h k = k a
Returns-bind (raised e) f h k = h

-- Whatever text is sent and whatever type is declared, `decode_image` returns an image or raises one
-- of the exceptions of its module: it never indexes out of range, and its loops end.
pub decode_image-Returns :
    (b64decode : String → Option (List ℕ)) (image_base64 : String) (declared : ImageMediaType)
    → Returns (decode_image b64decode image_base64 declared)
unfolding decode_image decode_payload
decode_image-Returns b64decode image_base64 declared =
    elim (b64decode image_base64) as (λ o. Returns (decode_payload declared o)) [
      | none ↦ Returns-raised _ (invalid "image_base64 is not valid Base64") tt
      | some payload ↦
          Returns-raise_if (length payload == 0) (invalid "decoded image is empty") _ tt (
            Returns-raise_if (ltb max_image_bytes (length payload))
              (too_large "image exceeds 5242880 bytes") _ tt
              (Returns-bind (inspect payload)
                (λ (format, m). check_metadata payload declared format m) (inspect-Returns payload)
                (λ (format, m). check_metadata-Returns payload declared format m)))
    ]
