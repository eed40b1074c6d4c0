-- ===== src/Models/Checksum.antt =====
-- `_sha256` of src/sentinel/multimodal/timm_model.py and scripts/download_image_model.py: a file is
-- hashed in chunks of 1 MiB. The hash function is a parameter.
use sentinel_content_safety.Base.{
  ℕ, zero, suc, ◌-◌, ◌*◌, ◌≤◌, ◌≡◌, refl, sym, ◌∙◌, ap, String, Option, none, some, List, [], ◌∷◌,
  ◌++◌, length, arith,
}
use sentinel_content_safety.Multimodal.Bytes.{take, drop}

-- `hashlib.sha256()`, `update` and `hexdigest`
pub record Hash (D : Type 0) : Type 0 where
  pub sha256 : D
  pub update : D → List ℕ → D
  pub hexdigest : D → String

abbrev pub chunk_size : ℕ
chunk_size = 1024 * 1024

module _ {D : Type 0} (hash : Hash D) where
  -- `for chunk in iter(lambda: stream.read(1024 * 1024), b"")`, with fuel.
  unfoldable pub digest_stream : ℕ → ℕ → D → List ℕ → Option D
  digest_stream zero size digest bytes = none
  digest_stream (suc fuel) size digest bytes = elim (take size bytes) [
    | [] ↦ some digest
    | b ∷ bs ↦ digest_stream fuel size (hash.update digest (b ∷ bs)) (drop size bytes)
  ]

  unfoldable pub sha256_of : List ℕ → Option String
  sha256_of bytes = elim (digest_stream (suc (length bytes)) chunk_size hash.sha256 bytes) [
    | none ↦ none
    | some digest ↦ some (hash.hexdigest digest)
  ]

pub take-drop : (n : ℕ) (bytes : List ℕ) → take n bytes ++ drop n bytes ≡ bytes
take-drop zero bytes = refl
take-drop (suc n) [] = refl
take-drop (suc n) (b ∷ bs) = ap (λ x. b ∷ x) (take-drop n bs)

length-drop : (n : ℕ) (bytes : List ℕ) → length (drop n bytes) ≤ length bytes
length-drop zero bytes = omega arith
length-drop (suc n) [] = omega arith
length-drop (suc n) (b ∷ bs) = omega (arith, length-drop n bs)

-- What hashlib documents: updates by one part after the other are an update by both together.
pub record IsIncremental {D : Type 0} (hash : Hash D) : Type 0 where
  pub nothing : (d : D) → hash.update d [] ≡ d
  pub joined :
      (d : D) (xs ys : List ℕ) → hash.update (hash.update d xs) ys ≡ hash.update d (xs ++ ys)

module _ {D : Type 0} (hash : Hash D) (incremental : IsIncremental hash) where
  pub digest_stream_lem :
      (fuel size : ℕ) (digest : D) (bytes : List ℕ)
      → suc (length bytes) ≤ fuel
      → digest_stream hash fuel (suc size) digest bytes ≡ some (hash.update digest bytes)
  unfolding digest_stream
  digest_stream_lem zero size digest bytes h = ground arith
  digest_stream_lem (suc fuel) size digest [] h = ap some (sym (incremental.nothing digest))
  digest_stream_lem (suc fuel) size digest (b ∷ bs) h =
      digest_stream_lem fuel size (hash.update digest (b ∷ take size bs)) (drop size bs)
        (omega (arith, length-drop size bs))
      ∙ ap some (incremental.joined digest (b ∷ take size bs) (drop size bs))
      ∙ ap (λ x. some (hash.update digest (b ∷ x))) (take-drop size bs)

  -- The digest in chunks ends, and it is the digest of the whole file at once.
  pub sha256_of_lem :
      (bytes : List ℕ)
      → sha256_of hash bytes ≡ some (hash.hexdigest (hash.update hash.sha256 bytes))
  unfolding sha256_of digest_stream
  sha256_of_lem bytes =
      rw (digest_stream_lem (suc (length bytes)) (chunk_size - 1) hash.sha256 bytes (omega arith))
        refl
