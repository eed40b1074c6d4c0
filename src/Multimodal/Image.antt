-- ===== src/Multimodal/Image.antt =====
-- src/sentinel/multimodal/image.py and errors.py: the signatures of PNG, JPEG and WebP, their
-- dimensions, and the limits of an accepted image.
use sentinel_content_safety.Base.{
  ℕ, zero, suc, ◌+◌, ◌*◌, ◌/◌, ◌%◌, ◌^◌, String, Bool, true, false, not, ◌&&◌, ◌||◌, Option, none,
  some, List, [], ◌∷◌, length, any, str_eq, ltb, leb, ◌==◌, if◌then◌else◌,
}
use sentinel_content_safety.Schemas.{ImageMediaType}
use sentinel_content_safety.Multimodal.Bytes.{
  get_elem?, slice, starts_with, bytes_eq, contains, big, little,
}

pub data ImageError : Type 0 where
  too_large unsupported invalid : String → ImageError
  -- An IndexError of Python, and the end of the fuel of the model: neither ever happens.
  index_error out_of_fuel : ImageError

pub record ValidatedImage : Type 0 where
  pub data_bytes : List ℕ
  pub format : String
  pub width : ℕ
  pub height : ℕ
  pub bytes_received : ℕ

-- What an inspector finds: width, height, animation.
pub record Metadata : Type 0 where
  pub width : ℕ
  pub height : ℕ
  pub animated : Bool

-- A function that may raise; an inspector returns nothing for another format.
pub data Result {ℓ} (A : Type ℓ) : Type ℓ where
  ok : A → Result A
  raised : ImageError → Result A

infixl 5 ◌>>=◌
abbrev pub ◌>>=◌ {ℓ κ} : {A : Type ℓ} {B : Type κ} → Result A → (A → Result B) → Result B
ok a >>= f = f a
raised e >>= f = raised e

infixl 5 ◌>>◌
abbrev pub ◌>>◌ {ℓ} : {B : Type ℓ} → Result (Unit {0}) → Result B → Result B
m >> k = m >>= λ _. k

abbrev pub max_image_bytes : ℕ
max_image_bytes = 5 * 1024 * 1024

abbrev pub max_image_pixels : ℕ
max_image_pixels = 20_000_000

abbrev pub max_image_dimension : ℕ
max_image_dimension = 8_192

abbrev pub png_signature : List ℕ
png_signature = 0x89 ∷ b'P' ∷ b'N' ∷ b'G' ∷ 13 ∷ 10 ∷ 0x1a ∷ 10 ∷ []

abbrev pub jpeg_start_of_frame : List ℕ
jpeg_start_of_frame =
    0xc0 ∷ 0xc1 ∷ 0xc2 ∷ 0xc3 ∷ 0xc5 ∷ 0xc6 ∷ 0xc7 ∷ 0xc9 ∷ 0xca ∷ 0xcb ∷ 0xcd ∷ 0xce ∷ 0xcf ∷ []

abbrev ihdr : List ℕ
ihdr = b'I' ∷ b'H' ∷ b'D' ∷ b'R' ∷ []

abbrev actl : List ℕ
actl = b'a' ∷ b'c' ∷ b'T' ∷ b'L' ∷ []

unfoldable pub png_metadata : List ℕ → Result (Option Metadata)
png_metadata payload =
    if not (starts_with png_signature payload)
    then ok none
    else if ltb (length payload) 33 || not (bytes_eq (slice 12 16 payload) ihdr)
    then raised (invalid "PNG is missing a valid IHDR chunk")
    else ok (
        some (record {
          width = big (slice 16 20 payload);
          height = big (slice 20 24 payload);
          animated = contains actl payload;
        }))

-- `while position < len(payload) and payload[position] == 0xFF: position += 1`
unfoldable pub skip_fill : ℕ → List ℕ → ℕ → Result ℕ
skip_fill zero payload position = raised out_of_fuel
skip_fill (suc fuel) payload position =
    let rest = skip_fill fuel payload (position + 1) in
    if ltb position (length payload)
    then (elim (get_elem? payload position) [
      | none ↦ raised index_error
      | some b ↦ if b == 0xff then rest else ok position
    ])
    else ok position

-- Markers that stand alone: 0x01, 0xD0 to 0xD9.
abbrev pub is_standalone : ℕ → Bool
is_standalone marker =
    marker == 0x01 || marker == 0xd8 || marker == 0xd9 || (leb 0xd0 marker && leb marker 0xd7)

abbrev pub undetermined : ImageError
undetermined = invalid "JPEG dimensions could not be determined"

-- The part of the loop after the marker: the segment at `position`. It gives a frame, or where the
-- loop goes on.
pub data Segment : Type 0 where
  frame : Metadata → Segment
  next : ℕ → Segment
  stop : Segment

unfoldable pub read_segment : List ℕ → ℕ → ℕ → Result Segment
read_segment payload marker position =
    if is_standalone marker
    then ok (next position)
    else if ltb (length payload) (position + 2)
    then ok stop
    else let segment_length = big (slice position (position + 2) payload) in
      if ltb segment_length 2 || ltb (length payload) (position + segment_length)
      then raised (invalid "JPEG contains an invalid segment")
      else if any (λ m. marker == m) jpeg_start_of_frame
      then (if ltb segment_length 7
          then raised (invalid "JPEG frame header is incomplete")
          else ok (
              frame (record {
                height = big (slice (position + 3) (position + 5) payload);
                width = big (slice (position + 5) (position + 7) payload);
                animated = false;
              })))
      else ok (next (position + segment_length))

-- One round of the loop from a byte 0xFF on: the fill bytes, the marker and its segment.
unfoldable pub read_marker : List ℕ → ℕ → Result Segment
unfolding skip_fill read_segment
read_marker payload position = do
  start ← skip_fill (suc (length payload)) payload position
  if leb (length payload) start then ok stop else (elim (get_elem? payload start) [
    | none ↦ raised index_error
    | some marker ↦ read_segment payload marker (start + 1)
  ])

unfoldable pub scan_jpeg : ℕ → List ℕ → ℕ → Result (Option Metadata)
unfolding read_marker
scan_jpeg zero payload position = raised out_of_fuel
scan_jpeg (suc fuel) payload position =
    if ltb (length payload) (position + 4)
    then raised undetermined
    else elim (get_elem? payload position) [
      | none ↦ raised index_error
      | some b ↦ elim (b == 0xff) [
        | false ↦ scan_jpeg fuel payload (position + 1)
        | true ↦ elim (read_marker payload position) [
          | raised e ↦ raised e
          | ok segment ↦ elim segment [
            | frame m ↦ ok (some m)
            | stop ↦ raised undetermined
            | next position' ↦ scan_jpeg fuel payload position'
          ]
        ]
      ]
    ]

unfoldable pub jpeg_metadata : List ℕ → Result (Option Metadata)
unfolding scan_jpeg
jpeg_metadata payload =
    if not (starts_with (0xff ∷ 0xd8 ∷ []) payload)
    then ok none
    else scan_jpeg (suc (length payload)) payload 2

abbrev riff : List ℕ
riff = b'R' ∷ b'I' ∷ b'F' ∷ b'F' ∷ []

abbrev webp_tag : List ℕ
webp_tag = b'W' ∷ b'E' ∷ b'B' ∷ b'P' ∷ []

abbrev vp8 : ℕ → List ℕ
vp8 last_byte = b'V' ∷ b'P' ∷ b'8' ∷ last_byte ∷ []

-- `& 0x3FFF` is the remainder by 2 ^ 14, and `flags & 0x02` the second bit.
unfoldable pub webp_metadata : List ℕ → Result (Option Metadata)
webp_metadata payload =
    if ltb (length payload) 30
      || not (bytes_eq (slice 0 4 payload) riff)
      || not (bytes_eq (slice 8 12 payload) webp_tag)
    then ok none
    else let chunk = slice 12 16 payload in
      if bytes_eq chunk (vp8 b'X')
      then (elim (get_elem? payload 20) [
        | none ↦ raised index_error
        | some flags ↦ ok (
            some (record {
              width = 1 + little (slice 24 27 payload);
              height = 1 + little (slice 27 30 payload);
              animated = flags / 2 % 2 == 1;
            }))
      ])
      else if bytes_eq chunk (vp8 b'L')
      then (elim (get_elem? payload 20) [
        | none ↦ raised index_error
        | some mark ↦
            if not (mark == 0x2f)
            then raised (invalid "WebP lossless header is invalid")
            else let bits = little (slice 21 25 payload) in
              ok (
                some (record {
                  width = 1 + bits % 2 ^ 14;
                  height = 1 + bits / 2 ^ 14 % 2 ^ 14;
                  animated = false;
                }))
      ])
      else if bytes_eq chunk (vp8 b' ')
      then (if not (bytes_eq (slice 23 26 payload) (0x9d ∷ 0x01 ∷ 0x2a ∷ []))
          then raised (invalid "WebP frame header is invalid")
          else ok (
              some (record {
                width = little (slice 26 28 payload) % 2 ^ 14;
                height = little (slice 28 30 payload) % 2 ^ 14;
                animated = false;
              })))
      else raised (invalid "WebP uses an unsupported encoding")

-- `_inspect`: the first inspector that knows the format.
unfoldable pub inspect : List ℕ → Result (String × Metadata)
inspect payload = elim (png_metadata payload) [
  | raised e ↦ raised e
  | ok (some m) ↦ ok ("PNG", m)
  | ok none ↦ elim (jpeg_metadata payload) [
    | raised e ↦ raised e
    | ok (some m) ↦ ok ("JPEG", m)
    | ok none ↦ elim (webp_metadata payload) [
      | raised e ↦ raised e
      | ok (some m) ↦ ok ("WEBP", m)
      | ok none ↦ raised (unsupported "payload is not a supported JPEG, PNG, or WebP image")
    ]
  ]
]

abbrev pub expected_format : ImageMediaType → String
expected_format ImageMediaType.jpeg = "JPEG"
expected_format ImageMediaType.png = "PNG"
expected_format ImageMediaType.webp = "WEBP"

abbrev pub raise_if : Bool → ImageError → Result (Unit {0})
raise_if true e = raised e
raise_if false e = ok tt

-- The checks of `decode_image` after the inspection.
unfoldable pub check_metadata : List ℕ → ImageMediaType → String → Metadata → Result ValidatedImage
check_metadata payload declared format m = do
  raise_if (not (str_eq format (expected_format declared)))
      (unsupported "declared media type does not match the image signature")
  raise_if m.animated (unsupported "animated images are not supported")
  raise_if (leb m.width 0 || leb m.height 0) (invalid "image dimensions must be positive")
  raise_if (ltb max_image_dimension m.width || ltb max_image_dimension m.height)
      (too_large "image dimensions exceed the safe limit")
  raise_if (ltb max_image_pixels (m.width * m.height))
      (too_large "image exceeds the safe decoded-pixel limit")
  ok (record {
    data_bytes = payload;
    format = format;
    width = m.width;
    height = m.height;
    bytes_received = length payload;
  })

-- `decode_image` after the decoding of the text.
unfoldable pub decode_payload : ImageMediaType → Option (List ℕ) → Result ValidatedImage
decode_payload declared none = raised (invalid "image_base64 is not valid Base64")
decode_payload declared (some payload) = do
  raise_if (length payload == 0) (invalid "decoded image is empty")
  raise_if (ltb max_image_bytes (length payload)) (too_large "image exceeds 5242880 bytes")
  (format, m) ← inspect payload
  check_metadata payload declared format m

-- `decode_image`, given `base64.b64decode`, which gives nothing for a text that it refuses.
unfoldable pub decode_image :
    (String → Option (List ℕ)) → String → ImageMediaType → Result ValidatedImage
unfolding decode_payload
decode_image b64decode image_base64 declared = decode_payload declared (b64decode image_base64)
