-- ===== src/Security/Order.antt =====
-- The order of the lock file does not matter: the components of src/sentinel/security/sbom.py.
use sentinel_content_safety.Base.{
  both, ◌≡◌, refl, ap, sym, ◌∙◌, subst, String, Bool, true, false, not, ◌&&◌, ◌||◌, List, [], ◌∷◌,
  str_eq, eq_iff, eq_refl, inl, inr, Bool-cases, arith,
}
use sentinel_content_safety.Security.Supply.{Texts, SbomComponent, same_key, before, put}

-- The order of texts: of two different ones, just one comes first.
pub record IsOrder (precedes : String → String → Bool) : Type 0 where
  pub irreflexive : (a : String) → precedes a a ≡ false
  pub total : (a b : String) → str_eq a b ≡ false → precedes a b ≡ not (precedes b a)
  pub transitive :
      (a b c : String) → precedes a b ≡ true → precedes b c ≡ true → precedes a c ≡ true

or_left : (a b : Bool) → a ≡ true → a || b ≡ true
or_left a b h = rw h refl

or_false : (a b : Bool) → a || false && b ≡ a
or_false true b = refl
or_false false b = refl

module _ (precedes : String → String → Bool) (order : IsOrder precedes) where
  -- Pairs of a name and a version, by the name first.
  abbrev lex : String → String → String → String → Bool
  lex a v b w = precedes a b || (str_eq a b && precedes v w)

  lex_same : (a v w : String) → lex a v a w ≡ precedes v w
  lex_same a v w = rw (order.irreflexive a, eq_refl a) refl

  lex_apart : (a v b w : String) → str_eq a b ≡ false → lex a v b w ≡ precedes a b
  lex_apart a v b w h = rw h (or_false (precedes a b) (precedes v w))

  pub equal : (a b : String) → str_eq a b ≡ true → a ≡ b
  equal a b h = ground (arith, eq_iff a b)

  apart_sym : (a b : String) → str_eq a b ≡ false → str_eq b a ≡ false
  apart_sym a b h = ground (arith, eq_iff a b, eq_iff b a)

  lex-total :
      (a v b w : String) → (str_eq a b && str_eq v w) ≡ false → lex a v b w ≡ not (lex b w a v)
  lex-total a v b w h = elim (Bool-cases (str_eq a b)) [
    | inl same ↦
        subst (λ x. lex a v x w ≡ not (lex x w a v)) (equal a b same)
          (lex_same a v w ∙ order.total v w (rw same at h) ∙ ap not (sym (lex_same a w v)))
    | inr apart ↦
        lex_apart a v b w apart
        ∙ order.total a b apart
        ∙ ap not (sym (lex_apart b w a v (apart_sym a b apart)))
  ]

  lex-transitive :
      (a v b w c x : String) → lex a v b w ≡ true → lex b w c x ≡ true → lex a v c x ≡ true
  lex-transitive a v b w c x h k = elim (Bool-cases (str_eq a b)) [
    | inl ab ↦ elim (Bool-cases (str_eq b c)) [
      | inl bc ↦
          let e = equal a b ab in
          let f = equal b c bc in
          let h' : precedes v w ≡ true =
            sym (lex_same a v w) ∙ subst (λ y. lex a v y w ≡ true) (sym e) h in
          let k' : precedes w x ≡ true =
            sym (lex_same b w x) ∙ subst (λ y. lex b w y x ≡ true) (sym f) k in
          subst (λ y. lex a v y x ≡ true) (e ∙ f) (lex_same a v x ∙ order.transitive v w x h' k')
      | inr bc ↦
          or_left (precedes a c) (str_eq a c && precedes v x)
            (subst (λ y. precedes y c ≡ true) (sym (equal a b ab)) (sym (lex_apart b w c x bc) ∙ k))
    ]
    | inr ab ↦ elim (Bool-cases (str_eq b c)) [
      | inl bc ↦
          or_left (precedes a c) (str_eq a c && precedes v x)
            (subst (λ y. precedes a y ≡ true) (equal b c bc) (sym (lex_apart a v b w ab) ∙ h))
      | inr bc ↦
          or_left (precedes a c) (str_eq a c && precedes v x) (
            order.transitive a b c (sym (lex_apart a v b w ab) ∙ h)
              (sym (lex_apart b w c x bc) ∙ k))
    ]
  ]

apart_pair :
    (a b v w : String) → (str_eq a b && str_eq v w) ≡ false → (str_eq b a && str_eq w v) ≡ false
apart_pair a b v w h = ground (arith, eq_iff a b, eq_iff b a, eq_iff v w, eq_iff w v)

module _ (t : Texts) (order : IsOrder t.precedes) where
  key_sym : (c d : SbomComponent) → same_key t c d ≡ false → same_key t d c ≡ false
  key_sym c d h = apart_pair c.name d.name c.version d.version h

  before-total : (c d : SbomComponent) → same_key t c d ≡ false → before t c d ≡ not (before t d c)
  before-total c d h = lex-total t.precedes order c.name c.version d.name d.version h

  -- Components with one key stand in the same place.
  module _ (c e : SbomComponent) (same : same_key t c e ≡ true) where
    same_name : e.name ≡ c.name
    same_name =
        let (n, _) = both (str_eq c.name e.name) (str_eq c.version e.version) same in
        sym (equal t.precedes order c.name e.name n)

    same_version : e.version ≡ c.version
    same_version =
        let (_, v) = both (str_eq c.name e.name) (str_eq c.version e.version) same in
        sym (equal t.precedes order c.version e.version v)

    before_same : (d : SbomComponent) → before t d e ≡ before t d c
    before_same d =
        ap (λ x. t.precedes d.name x || (str_eq d.name x && t.precedes d.version e.version))
          same_name
        ∙ ap (λ x. t.precedes d.name c.name || (str_eq d.name c.name && t.precedes d.version x))
            same_version

    key_same : (d : SbomComponent) → same_key t d e ≡ same_key t d c
    key_same d =
        ap (λ x. str_eq d.name x && str_eq d.version e.version) same_name
        ∙ ap (λ x. str_eq d.name c.name && str_eq d.version x) same_version

  -- A component that replaces another keeps its place, whatever else is put.
  put-put_same :
      (c d e : SbomComponent) (es : List SbomComponent)
      → same_key t c d ≡ false
      → same_key t c e ≡ true
      → put t c (put t d (e ∷ es)) ≡ put t d (put t c (e ∷ es))
  unfolding put
  put-put_same c d e es h same =
      let dc = key_sym c d h in
      let de = key_same c e same d ∙ dc in
      elim (Bool-cases (before t d c)) [
        | inl first ↦
            let later = before-total c d h ∙ ap not first in
            rw (de, before_same c e same d ∙ first, h, later, same, dc, first) refl
        | inr last ↦ rw (de, before_same c e same d ∙ last, same, dc, last) refl
      ]

  -- A component after another one in order is not before what the other is not before.
  not_before :
      (c d e : SbomComponent) → before t c e ≡ true → before t d e ≡ false → before t d c ≡ false
  not_before c d e h k = elim (Bool-cases (before t d c)) [
    | inl first ↦
        let e' =
          lex-transitive t.precedes order d.name d.version c.name c.version e.name e.version first
            h in
        let no = sym e' ∙ k in cc
    | inr last ↦ last
  ]

  -- Two components of different keys can be put in either order.
  pub put-put :
      (c d : SbomComponent) (ds : List SbomComponent)
      → same_key t c d ≡ false
      → put t c (put t d ds) ≡ put t d (put t c ds)
  unfolding put
  put-put c d [] h = elim (Bool-cases (before t d c)) [
    | inl first ↦ rw (h, before-total c d h ∙ ap not first, key_sym c d h, first) refl
    | inr last ↦ rw (h, before-total c d h ∙ ap not last, key_sym c d h, last) refl
  ]
  put-put c d (e ∷ es) h = elim (Bool-cases (same_key t c e)) [
    | inl ce ↦ put-put_same c d e es h ce
    | inr ce ↦ elim (Bool-cases (same_key t d e)) [
      | inl de ↦ sym (put-put_same d c e es (key_sym c d h) de)
      | inr de ↦ elim (Bool-cases (before t c e)) [
        | inl c_first ↦ elim (Bool-cases (before t d e)) [
          | inl d_first ↦ elim (Bool-cases (before t d c)) [
            | inl first ↦
                rw
                  (
                    ce,
                    de,
                    c_first,
                    d_first,
                    h,
                    before-total c d h ∙ ap not first,
                    key_sym c d h,
                    first,
                    ce,
                    c_first,
                  )
                  refl
            | inr last ↦
                rw
                  (
                    ce,
                    de,
                    c_first,
                    d_first,
                    h,
                    before-total c d h ∙ ap not last,
                    key_sym c d h,
                    last,
                    de,
                  )
                  refl
          ]
          | inr d_later ↦
              rw
                (
                  ce,
                  de,
                  c_first,
                  d_later,
                  key_sym c d h,
                  not_before c d e c_first d_later,
                  ce,
                  c_first,
                  de,
                )
                refl
        ]
        | inr c_later ↦ elim (Bool-cases (before t d e)) [
          | inl d_first ↦
              rw (ce, de, c_later, d_first, h, not_before d c e d_first c_later, ce, c_later, de)
                refl
          | inr d_later ↦
              rw (ce, de, c_later, d_later, ce, de, c_later) (ap (λ x. e ∷ x) (put-put c d es h))
        ]
      ]
    ]
  ]
