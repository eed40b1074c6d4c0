-- ===== src/Security/OrderTests.antt =====
-- The theorem on lock files at two entries, with texts in the order of their characters.
use Prim.Native.Char.{Char, code}
use Prim.Native.String.{[], ◌∷◌}
use Prim.Native.Nat.{compare as compare_ℕ, Ordering}
use mathlib.Core.List
use text.Mathlib.TextEquality.{codes_equal}
use text.Mathlib.TextPositions.{compare_self}
use sentinel_content_safety.Base.{
  ℕ, ◌≡◌, refl, ap, sym, ◌∙◌, String, Bool, true, false, not, Bool-cases, inl, inr, str_eq, eq_iff,
  eq_refl, subst, ltb, ◌==◌, some, if◌then◌else◌, arith,
}
use sentinel_content_safety.Security.Supply.{Texts, build_cyclonedx_sbom}
use sentinel_content_safety.Security.Order.{IsOrder}
use sentinel_content_safety.Security.Shuffled.{entries, swapped, build_cyclonedx_sbom-Reordered}

unfoldable precedes : String → String → Bool
precedes [] [] = false
precedes [] (d ∷ t) = true
precedes (c ∷ s) [] = false
precedes (c ∷ s) (d ∷ t) =
    let later = precedes s t in if code c == code d then later else ltb (code c) (code d)

precedes_self : (a : String) → precedes a a ≡ false
unfolding precedes
precedes_self [] = refl
precedes_self (c ∷ s) = ground (arith, precedes_self s)

cons_apart :
    (c d : Char) (s t : String)
    → code c ≡ code d
    → str_eq (c ∷ s) (d ∷ t) ≡ false
    → str_eq s t ≡ false
cons_apart c d s t e h = elim (Bool-cases (str_eq s t)) [
  | inr apart ↦ apart
  | inl same ↦
      let tails : s ≡ t = ground (arith, eq_iff s t) in
      let heads =
        codes_equal c d
          (subst (λ n. compare_ℕ (code c) n ≡ Ordering.eq) e (compare_self (code c))) in
      let whole : (c ∷ s) ≡ (d ∷ t) = ap (λ x. x ∷ s) heads ∙ ap (λ x. d ∷ x) tails in
      let yes : str_eq (c ∷ s) (d ∷ t) ≡ true =
        subst (λ x. str_eq (c ∷ s) x ≡ true) whole (eq_refl (c ∷ s)) in
      let no = sym yes ∙ h in cc
]

precedes-total : (a b : String) → str_eq a b ≡ false → precedes a b ≡ not (precedes b a)
unfolding precedes
precedes-total [] [] h = ground (arith, eq_iff [] [])
precedes-total [] (d ∷ t) h = refl
precedes-total (c ∷ s) [] h = refl
precedes-total (c ∷ s) (d ∷ t) h = elim (Bool-cases (code c == code d)) [
  | inl same ↦ let e = precedes-total s t (cons_apart c d s t (ground arith) h) in ground arith
  | inr apart ↦ ground arith
]

step :
    (x y z : ℕ) (p q r : Bool)
    → (p ≡ true → q ≡ true → r ≡ true)
    → (if x == y then p else ltb x y) ≡ true
    → (if y == z then q else ltb y z) ≡ true
    → (if x == z then r else ltb x z) ≡ true
step x y z true true r f h k = let e = f refl refl in ground arith
step x y z true false r f h k = ground arith
step x y z false q r f h k = ground arith

precedes-transitive :
    (a b c : String) → precedes a b ≡ true → precedes b c ≡ true → precedes a c ≡ true
unfolding precedes
precedes-transitive [] [] c h k = k
precedes-transitive [] (y ∷ b) [] h k = k
precedes-transitive [] (y ∷ b) (z ∷ c) h k = refl
precedes-transitive (x ∷ a) [] c h k = ground arith
precedes-transitive (x ∷ a) (y ∷ b) [] h k = k
precedes-transitive (x ∷ a) (y ∷ b) (z ∷ c) h k =
    step (code x) (code y) (code z) (precedes a b) (precedes b c) (precedes a c)
      (precedes-transitive a b c) h k

abbrev texts : Texts
texts = record {
  lower = λ s. s;
  dashes = λ s. s;
  quote = λ s. s;
  precedes = precedes;
  join_lines = λ lines. "";
  uuid5 = λ s. s;
}

precedes-IsOrder : IsOrder texts.precedes
precedes-IsOrder = record {
  irreflexive = precedes_self;
  total = precedes-total;
  transitive = precedes-transitive;
}

abbrev numpy : String × String
numpy = ("numpy", "2.0")

abbrev anyio : String × String
anyio = ("anyio", "4.1")

build_cyclonedx_sbom-Reordered_example :
    build_cyclonedx_sbom texts (some (entries (List.◌∷◌ numpy (List.◌∷◌ anyio List.[]))))
    ≡ build_cyclonedx_sbom texts (some (entries (List.◌∷◌ anyio (List.◌∷◌ numpy List.[]))))
build_cyclonedx_sbom-Reordered_example =
    build_cyclonedx_sbom-Reordered texts precedes-IsOrder (swapped numpy anyio List.[])
