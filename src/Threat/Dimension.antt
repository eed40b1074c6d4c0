-- ===== src/Threat/Dimension.antt =====
-- The vectors of src/sentinel/threat_intelligence/encoder.py.
use sentinel_content_safety.Base.{
  some-inj, ◌-◌, ◌++◌, leb, ℕ, zero, suc, ◌%◌, ◌<◌, ◌≡◌, refl, ap, sym, ◌∙◌, Bool, Bool-cases, inl,
  inr, some, List, [], ◌∷◌, map, length, arith,
}
use sentinel_content_safety.Core.Trie.{Text}
use sentinel_content_safety.Core.Normalization.{Unicode, normalize_text}
use sentinel_content_safety.Multimodal.Bytes.{big}
use sentinel_content_safety.Threat.Encoder.{
  ℤ, Floats, HashedNgramEncoder, hashed_ngram_encoder, zeros, add_at, add_tokens, add_sign,
  put_first, tokens, bucket_of, sign_of, scaled, encode,
}

length-zeros : (n : ℕ) → length (zeros n) ≡ n
length-zeros zero = refl
length-zeros (suc n) = ap suc (length-zeros n)

length-map : {A B : Type 0} (f : A → B) (xs : List A) → length (map f xs) ≡ length xs
length-map f [] = refl
length-map f (x ∷ xs) = ap suc (length-map f xs)

-- A bucket in range is counted, and the vector keeps its length.
add_at-lt :
    (bucket : ℕ) (sign : Bool) (vector : List ℤ)
    → bucket < length vector
    → (v : List ℤ) × (add_at bucket sign vector ≡ some v) × (length v ≡ length vector)
unfolding add_at
add_at-lt bucket sign [] h = ground arith
add_at-lt zero sign (v ∷ vs) h = (add_sign sign v ∷ vs, refl, refl)
add_at-lt (suc bucket) sign (v ∷ vs) h =
    let (w, e, l) = add_at-lt bucket sign vs (omega arith) in (v ∷ w, ap (put_first v) e, ap suc l)

bucket_lt : (a d l : ℕ) → l ≡ d → 0 < d → a % d < l
bucket_lt a d l h positive = omega arith

module _ {F : Type 0} (floats : Floats F) (encoder : HashedNgramEncoder) where
  add_tokens-length :
      0 < encoder.dimension
      → (ts : List Text) (vector : List ℤ) → length vector ≡ encoder.dimension
      → (v : List ℤ) × (add_tokens floats encoder ts vector ≡ some v)
        × (length v ≡ encoder.dimension)
  unfolding add_tokens
  add_tokens-length positive [] vector h = (vector, refl, h)
  add_tokens-length positive (t ∷ ts) vector h =
      let (w, e, l) = add_at-lt (bucket_of floats encoder t) (sign_of floats encoder t) vector (
        bucket_lt
          (big (
            floats.blake2b t 0 ∷ floats.blake2b t 1 ∷ floats.blake2b t 2 ∷ floats.blake2b t 3 ∷ []))
          encoder.dimension (length vector) h positive) in
      let (v, e', l') = add_tokens-length positive ts w (l ∙ h) in (v, rw (e, add_tokens) e', l')

  scaled-length : (v : List ℤ) → length (scaled floats encoder v) ≡ length v
  scaled-length v = elim (Bool-cases (floats.is_zero (floats.norm v))) [
    | inl z ↦ rw z (length-map floats.float v)
    | inr n ↦ rw n (length-map (λ x. floats.div x (floats.norm v)) v)
  ]

  encode-dimension :
      (unicode : Unicode) (text : Text)
      → 0 < encoder.dimension
      → (vector : List F) × (encode floats encoder unicode text ≡ some vector)
        × (length vector ≡ encoder.dimension)
  unfolding encode
  encode-dimension unicode text positive =
      let normalized = b' ' ∷ normalize_text unicode text ++ b' ' ∷ [] in
      let (v, e, l) =
        add_tokens-length positive
          (tokens encoder.min_n (suc encoder.max_n - encoder.min_n) normalized)
          (zeros encoder.dimension) (length-zeros encoder.dimension) in
      (scaled floats encoder v, rw (e, encode) refl, scaled-length v ∙ l)

accepted :
    (dimension : ℕ) {encoder : HashedNgramEncoder}
    → hashed_ngram_encoder dimension ≡ some encoder
    → (0 < encoder.dimension) × (encoder.dimension ≡ dimension)
unfolding hashed_ngram_encoder
accepted dimension {encoder} h = elim (Bool-cases (leb dimension 0)) [
  | inl z ↦ let h' = rw (z, hashed_ngram_encoder) at h in cc
  | inr n ↦
      let h' = rw (n, hashed_ngram_encoder) at h in
      let e = ap (λ (x : HashedNgramEncoder). x.dimension) (some-inj h') in
      (ground (arith, e), sym e)
]

-- An encoder of a dimension that the constructor takes gives every text a vector of just that
-- dimension: no bucket is out of range.
pub encode-length :
    {F : Type 0} (floats : Floats F) (unicode : Unicode) (dimension : ℕ)
    {encoder : HashedNgramEncoder}
    → hashed_ngram_encoder dimension ≡ some encoder
    → (text : Text)
    → (vector : List F) × (encode floats encoder unicode text ≡ some vector)
      × (length vector ≡ dimension)
encode-length floats unicode dimension {encoder} h text =
    let (positive, same) = accepted dimension h in
    let (v, e, l) = encode-dimension floats encoder unicode text positive in (v, e, l ∙ same)
