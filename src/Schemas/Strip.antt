-- ===== src/Schemas/Strip.antt =====
-- `strip` once more changes nothing.
use sentinel_content_safety.Base.{
  ℕ, ◌≡◌, refl, ap, sym, ◌∙◌, Bool, false, Bool-cases, inl, inr, subst, List, [], ◌∷◌, ◌++◌,
  if◌then◌else◌,
}
use sentinel_content_safety.Schemas.Fields.{strip_left, reverse_onto, strip}

reverse_onto-append : (xs ys zs : List ℕ) → reverse_onto xs (ys ++ zs) ≡ reverse_onto xs ys ++ zs
reverse_onto-append [] ys zs = refl
reverse_onto-append (x ∷ xs) ys zs = reverse_onto-append xs (x ∷ ys) zs

reverse_onto_back : (xs ys : List ℕ) → reverse_onto (reverse_onto xs ys) [] ≡ reverse_onto ys xs
reverse_onto_back [] ys = refl
reverse_onto_back (x ∷ xs) ys = reverse_onto_back xs (x ∷ ys)

module _ (blank : ℕ → Bool) where
  -- A text that does not begin with a blank.
  abbrev StartsFull : List ℕ → Type 0
  StartsFull [] = Unit
  StartsFull (c ∷ cs) = blank c ≡ false

  strip_left-StartsFull : (t : List ℕ) → StartsFull (strip_left blank t)
  strip_left-StartsFull [] = tt
  strip_left-StartsFull (c ∷ cs) = elim (Bool-cases (blank c)) [
    | inl b ↦ rw b (strip_left-StartsFull cs)
    | inr f ↦ rw f f
  ]

  strip_left_full : (t : List ℕ) → StartsFull t → strip_left blank t ≡ t
  strip_left_full [] h = refl
  strip_left_full (c ∷ cs) h = ap (λ b. if b then strip_left blank cs else c ∷ cs) h

  StartsFull-append : (xs ys : List ℕ) → StartsFull (xs ++ ys) → StartsFull xs
  StartsFull-append [] ys h = tt
  StartsFull-append (x ∷ xs) ys h = h

  -- What `strip_left` leaves is the end of the text.
  strip_left_end : (t : List ℕ) → (w : List ℕ) × (t ≡ w ++ strip_left blank t)
  strip_left_end [] = ([], refl)
  strip_left_end (c ∷ cs) = elim (Bool-cases (blank c)) [
    | inl b ↦ let (w, e) = strip_left_end cs in (c ∷ w, rw b (ap (λ x. c ∷ x) e))
    | inr f ↦ ([], rw f refl)
  ]

  reverse_onto_parts :
      (w l : List ℕ) → reverse_onto (w ++ l) [] ≡ reverse_onto l [] ++ reverse_onto w []
  reverse_onto_parts w l = parts w [] ∙ reverse_onto-append l [] (reverse_onto w [])
    where
      parts : (xs acc : List ℕ) → reverse_onto (xs ++ l) acc ≡ reverse_onto l (reverse_onto xs acc)
      parts [] acc = refl
      parts (x ∷ xs) acc = parts xs (x ∷ acc)

  -- What `strip` leaves does not begin with a blank.
  strip-StartsFull : (t : List ℕ) → StartsFull (strip blank t)
  unfolding strip
  strip-StartsFull t =
      let s = strip_left blank t in
      let (w, e) = strip_left_end (reverse_onto s []) in
      let rest = strip_left blank (reverse_onto s []) in
      StartsFull-append (reverse_onto rest []) (reverse_onto w []) (
        subst StartsFull
          (sym (reverse_onto_back s []) ∙ ap (λ x. reverse_onto x []) e ∙ reverse_onto_parts w rest)
          (strip_left-StartsFull t))

  pub strip-strip : (t : List ℕ) → strip blank (strip blank t) ≡ strip blank t
  unfolding strip
  strip-strip t =
      let rest = strip_left blank (reverse_onto (strip_left blank t) []) in
      ap (λ x. reverse_onto (strip_left blank (reverse_onto x [])) [])
        (strip_left_full (reverse_onto rest []) (strip-StartsFull t))
      ∙ ap (λ x. reverse_onto (strip_left blank x) []) (reverse_onto_back rest [])
      ∙ ap (λ x. reverse_onto x [])
          (strip_left_full rest (strip_left-StartsFull (reverse_onto (strip_left blank t) [])))
