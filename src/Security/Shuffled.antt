-- ===== src/Security/Shuffled.antt =====
-- Lock files in a different order: src/sentinel/security/sbom.py.
use Prim.Native.String.{◌++◌ as str_append}
use sentinel_content_safety.Base.{
  both, ◌≡◌, refl, ap, sym, ◌∙◌, subst, String, true, Option, some, List, [], ◌∷◌, str_eq, inl, inr,
  Bool-cases,
}
use sentinel_content_safety.Security.Supply.{
  Texts, Package, SbomComponent, component_of, same_key, put, collect, build_cyclonedx_sbom,
}
use sentinel_content_safety.Security.Order.{IsOrder, equal, put-put}

-- Well-formed entries of the lock file: names and versions.
abbrev pub entries : List (String × String) → List (Option Package)
entries [] = []
entries ((name, version) ∷ rest) =
    some (record { name = some name; version = some version }) ∷ entries rest

-- One list of entries is another one in a different order.
pub data Reordered : List (String × String) → List (String × String) → Type 0 where
  same : (xs : List (String × String)) → Reordered xs xs
  later :
      (x : String × String) {xs ys : List (String × String)}
      → Reordered xs ys
      → Reordered (x ∷ xs) (x ∷ ys)
  swapped :
      (x y : String × String) (xs : List (String × String)) → Reordered (x ∷ y ∷ xs) (y ∷ x ∷ xs)
  joined : {xs ys zs : List (String × String)} → Reordered xs ys → Reordered ys zs → Reordered xs zs

module _ (t : Texts) (order : IsOrder t.precedes) where
  -- Two entries with one key have one component.
  same_component :
      (m v n w : String)
      → same_key t (component_of t m v) (component_of t n w) ≡ true
      → component_of t m v ≡ component_of t n w
  same_component m v n w h =
      let (name, version) =
        both (str_eq (t.dashes (t.lower m)) (t.dashes (t.lower n))) (str_eq v w) h in
      ap (λ x. of_key x v)
        (equal t.precedes order (t.dashes (t.lower m)) (t.dashes (t.lower n)) name)
      ∙ ap (of_key (t.dashes (t.lower n))) (equal t.precedes order v w version)
    where
      of_key : String → String → SbomComponent
      of_key name version =
          let purl =
            str_append "pkg:pypi/" (str_append (t.quote name) (str_append "@" (t.quote version))) in
          record { type = "library"; bom_ref = purl; name = name; version = version; purl = purl }

  collect-swapped :
      (x y : String × String) (xs : List (String × String)) (acc : List SbomComponent)
      → collect t (entries (x ∷ y ∷ xs)) acc ≡ collect t (entries (y ∷ x ∷ xs)) acc
  unfolding collect
  collect-swapped (m, v) (n, w) xs acc =
      ap (collect t (entries xs))
        (elim (Bool-cases (same_key t (component_of t n w) (component_of t m v))) [
          | inl one ↦
              subst
                (λ c.
                  put t c (put t (component_of t m v) acc)
                  ≡ put t (component_of t m v) (put t c acc))
                (sym (same_component n w m v one)) refl
          | inr two ↦ put-put t order (component_of t n w) (component_of t m v) acc two
        ])

  collect-Reordered :
      {xs ys : List (String × String)}
      → Reordered xs ys
      → (acc : List SbomComponent) → collect t (entries xs) acc ≡ collect t (entries ys) acc
  unfolding collect
  collect-Reordered (same xs) acc = refl
  collect-Reordered (later (n, v) r) acc = collect-Reordered r (put t (component_of t n v) acc)
  collect-Reordered (swapped x y xs) acc = collect-swapped x y xs acc
  collect-Reordered (joined r s) acc = collect-Reordered r acc ∙ collect-Reordered s acc

  -- The bill of materials does not depend on the order of the lock file: of two lists of well-formed
  -- entries, one of which is the other in a different order, both give the same, with the same
  -- serial number.
  pub build_cyclonedx_sbom-Reordered :
      {xs ys : List (String × String)}
      → Reordered xs ys
      → build_cyclonedx_sbom t (some (entries xs)) ≡ build_cyclonedx_sbom t (some (entries ys))
  unfolding build_cyclonedx_sbom
  build_cyclonedx_sbom-Reordered r = rw (collect-Reordered r [], build_cyclonedx_sbom) refl
