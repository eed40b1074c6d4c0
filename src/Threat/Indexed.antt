-- ===== src/Threat/Indexed.antt =====
-- The in-memory store of src/sentinel/threat_intelligence/adapters.py after requests whose texts have
-- one vector.
use sentinel_content_safety.Base.{
  eq_iff, map, ap, ◌⊎◌, ◌&&◌, both, ℕ, zero, suc, ◌≡◌, refl, ap, ◌∙◌, String, Bool, true, false,
  not, Bool-cases, inl, inr, none, List, [], ◌∷◌, ◌++◌, length, all, keep, str_eq, leb, arith,
}
use sentinel_content_safety.Base.Dict.{Dict, lookup, insert}
use sentinel_content_safety.Core.Threat.{
  SimilarContentMatch, Point, sort_match, sort_matches, take, min_of,
}

-- Lists of matches.
module _ (p : SimilarContentMatch → Bool) where
  pub all-append_one :
      (ms : List SimilarContentMatch) (m : SimilarContentMatch)
      → all p ms ≡ true
      → p m ≡ true
      → all p (ms ++ m ∷ []) ≡ true
  all-append_one [] m h k = rw k refl
  all-append_one (n ∷ ns) m h k =
      let (own, later) = both (p n) (all p ns) h in rw (own, all-append_one ns m later k) refl

  all-sort_match :
      (m : SimilarContentMatch) (ms : List SimilarContentMatch)
      → p m ≡ true
      → all p ms ≡ true
      → all p (sort_match m ms) ≡ true
  all-sort_match m [] h k = rw h refl
  all-sort_match m (n ∷ ns) h k =
      let (own, later) = both (p n) (all p ns) k in
      elim (Bool-cases (leb n.score m.score)) [
        | inl low ↦ rw (low, h, own, later) refl
        | inr high ↦ rw (high, own, all-sort_match m ns h later) refl
      ]

  pub all-sort_matches :
      (ms : List SimilarContentMatch) → all p ms ≡ true → all p (sort_matches ms) ≡ true
  all-sort_matches [] h = refl
  all-sort_matches (m ∷ ms) h =
      let (own, later) = both (p m) (all p ms) h in
      all-sort_match m (sort_matches ms) own (all-sort_matches ms later)

  pub all-take :
      (n : ℕ) (ms : List SimilarContentMatch) → all p ms ≡ true → all p (take n ms) ≡ true
  all-take zero ms h = refl
  all-take (suc n) [] h = refl
  all-take (suc n) (m ∷ ms) h =
      let (own, later) = both (p m) (all p ms) h in rw (own, all-take n ms later) refl

  pub keep-all : (ms : List SimilarContentMatch) → all p ms ≡ true → keep p ms ≡ ms
  keep-all [] h = refl
  keep-all (m ∷ ms) h =
      let (own, later) = both (p m) (all p ms) h in rw (own, keep-all ms later) refl

length-sort_match :
    (m : SimilarContentMatch) (ms : List SimilarContentMatch)
    → length (sort_match m ms) ≡ suc (length ms)
length-sort_match m [] = refl
length-sort_match m (n ∷ ns) = ground (arith, length-sort_match m ns)

pub length-sort_matches : (ms : List SimilarContentMatch) → length (sort_matches ms) ≡ length ms
length-sort_matches [] = refl
length-sort_matches (m ∷ ms) =
    length-sort_match m (sort_matches ms) ∙ ap suc (length-sort_matches ms)

pub length-take :
    (n : ℕ) (ms : List SimilarContentMatch) → length (take n ms) ≡ min_of n (length ms)
length-take zero ms = ground arith
length-take (suc n) [] = ground arith
length-take (suc n) (m ∷ ms) = ground (arith, length-take n ms)

-- No request of a list has an identifier.
abbrev pub is_fresh : String → List String → Bool
is_fresh j is = all (λ i. not (str_eq i j)) is

module _ {V : Type 0} (point_id : String → String) (v : V) where
  -- The points of requests, the newest first in the list and last in the store.
  unfoldable pub copies : List String → Dict (Point V)
  copies [] = []
  copies (i ∷ is) = copies is ++ (point_id i, record { vector = v; request_id = i }) ∷ []

  lookup-append_one :
      (k : String) (d : Dict (Point V)) (j : String) (p : Point V)
      → lookup k d ≡ none
      → str_eq j k ≡ false
      → lookup k (d ++ (j, p) ∷ []) ≡ none
  unfolding lookup
  lookup-append_one k [] j p h e = rw e refl
  lookup-append_one k ((i, q) ∷ d) j p h e = elim (Bool-cases (str_eq i k)) [
    | inl same ↦ let h' = rw (same, lookup) at h in cc
    | inr apart ↦ rw apart (lookup-append_one k d j p (rw (apart, lookup) at h) e)
  ]

  insert-append :
      (k : String) (p : Point V) (d : Dict (Point V))
      → lookup k d ≡ none
      → insert k p d ≡ d ++ (k, p) ∷ []
  unfolding lookup insert
  insert-append k p [] h = refl
  insert-append k p ((i, q) ∷ d) h = elim (Bool-cases (str_eq i k)) [
    | inl same ↦ let h' = rw (same, lookup) at h in cc
    | inr apart ↦ rw apart (ap (λ r. (i, q) ∷ r) (insert-append k p d (rw (apart, lookup) at h)))
  ]

  -- The identifiers of the points of requests.
  abbrev pub points : List String → List String
  points = map point_id

  -- A request whose point is new is new.
  pub points_fresh :
      (j : String) (is : List String)
      → is_fresh (point_id j) (points is) ≡ true
      → is_fresh j is ≡ true
  points_fresh j [] h = refl
  points_fresh j (i ∷ is) h =
      let (own, later) =
        both (not (str_eq (point_id i) (point_id j))) (is_fresh (point_id j) (points is)) h in
      rw (points_fresh j is later) (apart (Bool-cases (str_eq i j)) own)
    where
      apart :
          (str_eq i j ≡ true) ⊎ (str_eq i j ≡ false)
          → not (str_eq (point_id i) (point_id j)) ≡ true
          → not (str_eq i j) && true ≡ true
      apart (inr other) own = rw other refl
      apart (inl same) own =
          let e : str_eq (point_id i) (point_id j) ≡ true =
            (eq_iff (point_id i) (point_id j)).1 (ap point_id ((eq_iff i j).0 same)) in
          let own' = rw e at own in cc

  lookup-copies :
      (j : String) (is : List String)
      → is_fresh (point_id j) (points is) ≡ true
      → lookup (point_id j) (copies is) ≡ none
  unfolding copies lookup
  lookup-copies j [] h = refl
  lookup-copies j (i ∷ is) h =
      let (own, later) =
        both (not (str_eq (point_id i) (point_id j))) (is_fresh (point_id j) (points is)) h in
      lookup-append_one (point_id j) (copies is) (point_id i)
        (record { vector = v; request_id = i }) (lookup-copies j is later) (ground arith)

  -- Indexing a further request with that vector.
  pub insert-copies :
      (j : String) (is : List String)
      → is_fresh (point_id j) (points is) ≡ true
      → insert (point_id j) (record { vector = v; request_id = j }) (copies is) ≡ copies (j ∷ is)
  unfolding copies
  insert-copies j is h =
      insert-append (point_id j) (record { vector = v; request_id = j }) (copies is)
        (lookup-copies j is h)
