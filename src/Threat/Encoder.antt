-- ===== src/Threat/Encoder.antt =====
-- src/sentinel/threat_intelligence/encoder.py: counts of hashed character n-grams. blake2b and the
-- arithmetic of floats are parameters; a count is a whole number, as the source only adds 1.0 and -1.0.
use sentinel_content_safety.Base.{
  ℕ, zero, suc, ◌-◌, ◌%◌, Bool, true, false, Option, none, some, List, [], ◌∷◌, ◌++◌, map, length,
  leb, ◌==◌, if◌then◌else◌,
}
use sentinel_content_safety.Core.Trie.{Text}
use sentinel_content_safety.Core.Threat.{TextEncoder}
use sentinel_content_safety.Core.Normalization.{Unicode, normalize_text}
use sentinel_content_safety.Multimodal.Bytes.{take, big}

pub data ℤ : Type 0 where
  pos : ℕ → ℤ
  negsuc : ℕ → ℤ

-- `+= sign`, where the sign is 1.0 or -1.0.
abbrev pub add_sign : Bool → ℤ → ℤ
add_sign true (pos n) = pos (suc n)
add_sign true (negsuc zero) = pos 0
add_sign true (negsuc (suc n)) = negsuc n
add_sign false (pos zero) = negsuc 0
add_sign false (pos (suc n)) = pos n
add_sign false (negsuc n) = negsuc (suc n)

-- `blake2b token i` is byte i of the eight of the digest; `norm` is the root of the sum of the
-- squares, and `is_zero` tells whether a float counts as false.
pub record Floats (F : Type 0) : Type 0 where
  pub blake2b : Text → ℕ → ℕ
  pub float : ℤ → F
  pub norm : List ℤ → F
  pub is_zero : F → Bool
  pub div : ℤ → F → F

-- `HashedNgramEncoder`
pub record HashedNgramEncoder : Type 0 where
  pub dimension : ℕ
  pub min_n : ℕ
  pub max_n : ℕ

-- `HashedNgramEncoder(dimension)`, which refuses a dimension of zero.
unfoldable pub hashed_ngram_encoder : ℕ → Option HashedNgramEncoder
hashed_ngram_encoder dimension =
    if leb dimension 0 then none else some (record { dimension = dimension; min_n = 3; max_n = 5 })

-- The tokens of a size, from each start on.
unfoldable pub windows : ℕ → Text → List Text
windows size [] = if leb size 0 then [] ∷ [] else []
windows size (c ∷ cs) =
    let rest = windows size cs in
    if leb size (length (c ∷ cs)) then take size (c ∷ cs) ∷ rest else rest

-- The tokens of `count` sizes from a first one on.
unfoldable pub tokens : ℕ → ℕ → Text → List Text
unfolding windows
tokens size zero text = []
tokens size (suc count) text = windows size text ++ tokens (suc size) count text

abbrev pub zeros : ℕ → List ℤ
zeros zero = []
zeros (suc n) = pos 0 ∷ zeros n

abbrev pub put_first : ℤ → Option (List ℤ) → Option (List ℤ)
put_first v none = none
put_first v (some vs) = some (v ∷ vs)

-- `vector[bucket] += sign`; nothing where the index is out of range.
unfoldable pub add_at : ℕ → Bool → List ℤ → Option (List ℤ)
add_at bucket sign [] = none
add_at zero sign (v ∷ vs) = some (add_sign sign v ∷ vs)
add_at (suc bucket) sign (v ∷ vs) = put_first v (add_at bucket sign vs)

module _ {F : Type 0} (floats : Floats F) (encoder : HashedNgramEncoder) where
  abbrev pub bucket_of : Text → ℕ
  bucket_of token =
      let digest = floats.blake2b token in
      big (digest 0 ∷ digest 1 ∷ digest 2 ∷ digest 3 ∷ []) % encoder.dimension

  abbrev pub sign_of : Text → Bool
  sign_of token = floats.blake2b token 4 % 2 == 1

  -- The loop over the tokens.
  unfoldable pub add_tokens : List Text → List ℤ → Option (List ℤ)
  unfolding add_at
  add_tokens [] vector = some vector
  add_tokens (token ∷ rest) vector = elim (add_at (bucket_of token) (sign_of token) vector) [
    | none ↦ none
    | some vector' ↦ add_tokens rest vector'
  ]

  -- The division by the norm.
  abbrev pub scaled : List ℤ → List F
  scaled vector =
      if floats.is_zero (floats.norm vector)
      then map floats.float vector
      else map (λ v. floats.div v (floats.norm vector)) vector

  -- `encode`; nothing where an index is out of range.
  unfoldable pub encode : Unicode → Text → Option (List F)
  unfolding add_tokens tokens
  encode unicode text =
      let normalized = b' ' ∷ normalize_text unicode text ++ b' ' ∷ [] in
      let sizes = suc encoder.max_n - encoder.min_n in
      elim (add_tokens (tokens encoder.min_n sizes normalized) (zeros encoder.dimension)) [
        | none ↦ none
        | some vector ↦ some (scaled vector)
      ]

  -- The encoder as the service sees it.
  abbrev pub text_encoder : Unicode → TextEncoder (Option (List F))
  text_encoder unicode = record { version = "hashed-char-ngram-v1"; encode = encode unicode }
