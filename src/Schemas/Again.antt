-- ===== src/Schemas/Again.antt =====
-- A request that was validated is valid: src/sentinel/schemas/moderation.py, where the worker and the
-- multimodal engine build a `ModerationRequest` again.
use sentinel_content_safety.Base.{
  ◌≤◌, ℕ, ◌≡◌, refl, ap, sym, ◌∙◌, false, Bool-cases, ◌||◌, inl, inr, Option, none, some, some-inj,
  subst, List, [], ◌∷◌, length, ltb, leb, arith,
}
use sentinel_content_safety.Schemas.Fields.{
  Alphabet, strip, bounded, reject_blank, ◌>>=◌, optional, RequestBody, ValidRequest,
  validate_request, ImageBody, ValidImageRequest, bounded_text, validate_image_request,
}
use sentinel_content_safety.Schemas.Strip.{strip-strip}

bind-inv :
    {A B C : Type 0} (o : Option A) (k : A → Option B) {b : B}
    → (o >>= k) ≡ some b
    → ((a : A) → o ≡ some a → k a ≡ some b → C)
    → C
bind-inv none k h next = cc
bind-inv (some a) k h next = next a refl h

abbrev pub bodied : ValidRequest → RequestBody
bodied r = record { text = r.text; request_id = r.request_id; extra = false }

module _ (a : Alphabet) where
  bounded-again :
      (lo hi : ℕ) (raw : List ℕ) {t : List ℕ}
      → bounded a lo hi raw ≡ some t
      → bounded a lo hi t ≡ some t
  unfolding bounded
  bounded-again lo hi raw {t} h =
      elim (Bool-cases
        (ltb (length (strip a.white raw)) lo || ltb hi (length (strip a.white raw)))) [
          | inl out ↦ let h' = rw (out, bounded) at h in cc
          | inr fits ↦
              let same = some-inj (rw (fits, bounded) at h) in
              rw (sym same, strip-strip a.white raw, fits, bounded) refl
        ]

  reject_blank-same : (s : List ℕ) {t : List ℕ} → reject_blank a s ≡ some t → s ≡ t
  unfolding reject_blank
  reject_blank-same s h = elim (Bool-cases (leb (length (strip a.space s)) 0)) [
    | inl blank ↦ let h' = rw (blank, reject_blank) at h in cc
    | inr full ↦ some-inj (rw (full, reject_blank) at h)
  ]

  optional-again :
      (check : List ℕ → Option (List ℕ))
      → ((raw t : List ℕ) → check raw ≡ some t → check t ≡ some t)
      → (field : Option (List ℕ)) {o : Option (List ℕ)} → optional check field ≡ some o
      → optional check o ≡ some o
  optional-again check again none h = rw (sym (some-inj h)) refl
  optional-again check again (some raw) h =
      bind-inv (check raw) _ h (λ t e h1. rw (sym (some-inj h1), again raw t e) refl)

  validated :
      (t : List ℕ) (id : Option (List ℕ))
      → bounded a 1 5000 t ≡ some t
      → reject_blank a t ≡ some t
      → optional (bounded a 1 128) id ≡ some id
      → validate_request a (bodied (record { text = t; request_id = id }))
        ≡ some (record { text = t; request_id = id })
  unfolding validate_request
  validated t id e f g = rw (e, f, g, validate_request) refl

  kept_text : (s t : List ℕ) → reject_blank a s ≡ some t → reject_blank a t ≡ some t
  kept_text s t f = subst (λ x. reject_blank a x ≡ some t) (reject_blank-same s f) f

  kept_id :
      (field : Option (List ℕ)) {o : Option (List ℕ)}
      → optional (bounded a 1 128) field ≡ some o
      → optional (bounded a 1 128) o ≡ some o
  kept_id field g =
      optional-again (bounded a 1 128) (λ raw t. bounded-again 1 128 raw {t = t}) field g

  -- A request that was accepted is accepted unchanged when it is validated again, as the worker does.
  pub validate_request-again :
      (body : RequestBody) {r : ValidRequest}
      → validate_request a body ≡ some r
      → validate_request a (bodied r) ≡ some r
  unfolding validate_request
  validate_request-again body {r} h = bind-inv (bounded a 1 5000 body.text) _ h (λ stripped e h1.
      bind-inv (reject_blank a stripped) _ h1 (λ t f h2.
        bind-inv (optional (bounded a 1 128) body.request_id) _ h2 (λ id g h3.
          elim (Bool-cases body.extra) [
            | inl more ↦ let h4 = rw more at h3 in cc
            | inr none_more ↦
                let same = some-inj (rw none_more at h3) in
                let kept : bounded a 1 5000 t ≡ some t =
                  subst (λ x. bounded a 1 5000 x ≡ some x) (reject_blank-same stripped f)
                    (bounded-again 1 5000 body.text e) in
                subst (λ (x : ValidRequest). validate_request a (bodied x) ≡ some x) same
                  (validated t id kept (kept_text stripped t f) (kept_id body.request_id g))
          ])))

  in_bounds :
      (lo hi n : ℕ) → lo ≤ n → (ltb n 0 || ltb hi n) ≡ false → (ltb n lo || ltb hi n) ≡ false
  in_bounds lo hi n long h = ground arith

  bounded-longer :
      (lo hi : ℕ) (t : List ℕ)
      → bounded a 0 hi t ≡ some t
      → lo ≤ length t
      → bounded a lo hi t ≡ some t
  unfolding bounded
  bounded-longer lo hi t h long =
      elim (Bool-cases (ltb (length (strip a.white t)) 0 || ltb hi (length (strip a.white t)))) [
        | inl out ↦ let h' = rw (out, bounded) at h in cc
        | inr fits ↦
            let same = some-inj (rw (fits, bounded) at h) in
            let inside = in_bounds lo hi (length (strip a.white t)) (rw same long) fits in
            rw (inside, bounded) (ap some same)
      ]

  full_text : (t : List ℕ) → reject_blank a t ≡ some t → 1 ≤ length t
  unfolding reject_blank strip
  full_text [] h = cc
  full_text (c ∷ cs) h = omega arith

  inner_text :
      (field : Option (List ℕ)) (t : List ℕ)
      → optional (bounded_text a) field ≡ some (some t)
      → (bounded a 1 5000 t ≡ some t) × (reject_blank a t ≡ some t)
  inner_text none t h = cc
  inner_text (some raw) t h = bind-inv (bounded_text a raw) _ h (λ t' e h1.
      bind-inv (bounded a 0 5000 raw) _ e (λ s f g.
        let same : t' ≡ t = some-inj (some-inj h1) in
        let given : reject_blank a s ≡ some t = g ∙ ap some same in
        let full = kept_text s t given in
        let short : bounded a 0 5000 t ≡ some t =
          subst (λ x. bounded a 0 5000 x ≡ some x) (reject_blank-same s given)
            (bounded-again 0 5000 raw f) in
        (bounded-longer 1 5000 t short (full_text t full), full)))

  -- The text of a multimodal request that was accepted is accepted as that of a moderation request with
  -- the same identifier: the engine builds that request without an exception, and with just that text.
  pub validate_image_request-inner :
      (body : ImageBody) {r : ValidImageRequest} (t : List ℕ)
      → validate_image_request a body ≡ some r
      → r.text ≡ some t
      → validate_request a (bodied (record { text = t; request_id = r.request_id }))
        ≡ some (record { text = t; request_id = r.request_id })
  unfolding validate_image_request
  validate_image_request-inner body {r} t h own =
      bind-inv (bounded a 1 7000000 body.image_base64) _ h (λ image _ h1.
        bind-inv (optional (bounded_text a) body.text) _ h1 (λ texts e h2.
          bind-inv (optional (bounded a 1 128) body.request_id) _ h2 (λ id g h3.
            elim (Bool-cases body.extra) [
              | inl more ↦ let h4 = rw more at h3 in cc
              | inr none_more ↦
                  let same = some-inj (rw none_more at h3) in
                  let is_text : texts ≡ some t =
                    ap (λ (x : ValidImageRequest). x.text) same ∙ own in
                  let (kept, full) = inner_text body.text t (e ∙ ap some is_text) in
                  subst
                    (λ (x : Option (List ℕ)).
                      validate_request a (bodied (record { text = t; request_id = x }))
                      ≡ some (record { text = t; request_id = x }))
                    (ap (λ (x : ValidImageRequest). x.request_id) same)
                    (validated t id kept full (kept_id body.request_id g))
            ])))
