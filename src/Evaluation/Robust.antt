-- ===== src/Evaluation/Robust.antt =====
-- Which attacks the normalization of texts undoes.
use sentinel_content_safety.Base.{
  ℕ, ◌+◌, ◌-◌, ◌≡◌, refl, sym, ap, ◌∙◌, Bool, true, false, not, ◌&&◌, ◌||◌, [], ◌∷◌, map, all, keep,
  ltb, leb, ◌==◌, subst, Bool-cases, inl, inr, if◌then◌else◌, arith,
}
use sentinel_content_safety.Core.Trie.{Text}
use sentinel_content_safety.Core.Normalization.{
  Unicode, is_zero_width, translate, drop_punctuation, collapse_repeated, squeeze, normalize_text,
}
use sentinel_content_safety.Core.Normalization
use sentinel_content_safety.Evaluation.Attacks.{
  insert_between, zero_width, leet_character, leetspeak,
}

-- ASCII, or the zero-width space.
abbrev pub is_plain : ℕ → Bool
is_plain c = ltb c 128 || c == 0x200b

abbrev pub ascii_lower : ℕ → ℕ
ascii_lower c = if leb b'A' c && leb c b'Z' then c + 32 else c

abbrev pub ascii_upper : ℕ → ℕ
ascii_upper c = if leb b'a' c && leb c b'z' then c - 32 else c

-- What the tables of Unicode say of texts of ASCII and zero-width spaces: NFKC leaves them, and
-- folding and `str.upper` change just the 26 letters.
pub record IsUnicode (u : Unicode) (upper : Text → Text) : Type 0 where
  pub nfkc_plain : (t : Text) → all is_plain t ≡ true → u.nfkc t ≡ t
  pub casefold_plain : (t : Text) → all is_plain t ≡ true → u.casefold t ≡ map ascii_lower t
  pub upper_plain : (t : Text) → all is_plain t ≡ true → upper t ≡ map ascii_upper t

abbrev visible : ℕ → Bool
visible c = not (is_zero_width c)

insert_between-plain :
    (t : Text) → all is_plain t ≡ true → all is_plain (insert_between 0x200b t) ≡ true
unfolding insert_between
insert_between-plain [] h = refl
insert_between-plain (c ∷ []) h = h
insert_between-plain (c ∷ d ∷ t) h = ground (arith, insert_between-plain (d ∷ t))

visible-insert_between :
    (t : Text)
    → keep visible (map ascii_lower (insert_between 0x200b t)) ≡ keep visible (map ascii_lower t)
unfolding insert_between
visible-insert_between [] = refl
visible-insert_between (c ∷ []) = refl
visible-insert_between (c ∷ d ∷ t) = ground (arith, visible-insert_between (d ∷ t))

upper-plain : (t : Text) → all is_plain t ≡ true → all is_plain (map ascii_upper t) ≡ true
upper-plain [] h = refl
upper-plain (c ∷ t) h = ground (arith, upper-plain t)

lower-upper : (t : Text) → map ascii_lower (map ascii_upper t) ≡ map ascii_lower t
lower-upper [] = refl
lower-upper (c ∷ t) = ground (arith, lower-upper t)

leet-plain : (t : Text) → all is_plain t ≡ true → all is_plain (map leet_character t) ≡ true
unfolding leet_character
leet-plain [] h = refl
leet-plain (c ∷ t) h = ground (arith, leet-plain t)

same_number : (a b : ℕ) → (a == b) ≡ true → a ≡ b
same_number a b e = ground arith

-- What normalization makes of a character: whether it stays, and what it is then.
abbrev read : ℕ → Bool × ℕ
read c = (visible (ascii_lower c), Normalization.leetspeak (ascii_lower c))

read-leet : (c : ℕ) → read (leet_character c) ≡ read c
unfolding leet_character Normalization.leetspeak
read-leet c = elim (Bool-cases (c == b'a')) [
  | inl e ↦ subst P (sym (same_number c _ e)) refl
  | inr a ↦ elim (Bool-cases (c == b'e')) [
    | inl e ↦ subst P (sym (same_number c _ e)) refl
    | inr e ↦ elim (Bool-cases (c == b'i')) [
      | inl i ↦ subst P (sym (same_number c _ i)) refl
      | inr i ↦ elim (Bool-cases (c == b'o')) [
        | inl o ↦ subst P (sym (same_number c _ o)) refl
        | inr o ↦ elim (Bool-cases (c == b's')) [
          | inl z ↦ subst P (sym (same_number c _ z)) refl
          | inr z ↦ ap read {x = leet_character c} {y = c} (
              rw (a, leet_character)
                (rw (e, leet_character)
                  (rw (i, leet_character) (rw (o, leet_character) (rw (z, leet_character) refl)))))
        ]
      ]
    ]
  ]
]
  where
    P : ℕ → Type 0
    P d = read (leet_character d) ≡ read d

translate_one : Bool × ℕ → Text → Text
translate_one (true, c) rest = c ∷ rest
translate_one (false, c) rest = rest

translate-keep :
    (c : ℕ) (t : Text)
    → translate (keep visible (ascii_lower c ∷ t))
      ≡ translate_one (read c) (translate (keep visible t))
unfolding translate translate_one
translate-keep c t = elim (Bool-cases (visible (ascii_lower c))) [
  | inl e ↦ rw e refl
  | inr e ↦ rw e refl
]

translate-leet :
    (t : Text)
    → translate (keep visible (map ascii_lower (map leet_character t)))
      ≡ translate (keep visible (map ascii_lower t))
translate-leet [] = refl
translate-leet (c ∷ t) =
    translate-keep (leet_character c) (map ascii_lower (map leet_character t))
    ∙ rw (read-leet c) (ap (translate_one (read c)) (translate-leet t))
    ∙ sym (translate-keep c (map ascii_lower t))

module _ (u : Unicode) (upper : Text → Text) (tables : IsUnicode u upper) where
  -- What normalization does after the case is folded and zero-width characters are dropped.
  abbrev finished : Text → Text
  finished t =
      Normalization.strip u (squeeze u false (collapse_repeated (drop_punctuation u false [] t)))

  normalized :
      (t : Text)
      → all is_plain t ≡ true
      → normalize_text u t ≡ finished (translate (keep visible (map ascii_lower t)))
  unfolding normalize_text
  normalized t h =
      ap (λ x. finished (translate (keep visible x)))
        (ap u.casefold (tables.nfkc_plain t h) ∙ tables.casefold_plain t h)

  -- Of a text of ASCII and zero-width spaces: upper case, zero-width characters between letters and
  -- digits for letters leave its normalized form as it is, so that every model gives the attacked
  -- text the score of the text.
  pub normalize_text-attack :
      (t : Text)
      → all is_plain t ≡ true
      → (normalize_text u (upper t) ≡ normalize_text u t)
        × (normalize_text u (zero_width t) ≡ normalize_text u t)
        × (normalize_text u (leetspeak t) ≡ normalize_text u t)
  normalize_text-attack t h =
      let back = sym (normalized t h) in
      (
        ap (normalize_text u) (tables.upper_plain t h)
            ∙ normalized (map ascii_upper t) (upper-plain t h)
            ∙ ap (λ x. finished (translate (keep visible x))) (lower-upper t)
            ∙ back,
        normalized (zero_width t) (insert_between-plain t h)
            ∙ ap (λ x. finished (translate x)) (visible-insert_between t)
            ∙ back,
        normalized (leetspeak t) (leet-plain t h) ∙ ap finished (translate-leet t) ∙ back,
      )
