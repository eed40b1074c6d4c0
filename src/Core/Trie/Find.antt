-- ===== src/Core/Trie/Find.antt =====
-- The matcher finds exactly the phrases that occur in a text.
use sentinel_content_safety.Base.{
  ◌≡◌, refl, Bool, true, false, ◌&&◌, ◌||◌, none, some, List, [], ◌∷◌, ◌++◌, ◌==◌, if◌then◌else◌,
  arith, Option-cases, inl, inr,
}
use sentinel_content_safety.Core.Trie.{
  Text, text_eq, is_in, TrieNode, node, get_child, update, outputs_of, walk, scan, find,
  phrase_trie,
}
use sentinel_content_safety.Core.Trie.Insert.{
  outputs_at, text_eq_refl, text_eq→eq, is_in-phrase_trie,
}

abbrev pub starts_with : Text → Text → Bool
starts_with [] text = true
starts_with (c ∷ p) [] = false
starts_with (c ∷ p) (d ∷ text) = c == d && starts_with p text

-- A phrase that is not empty stands at the start of a text.
abbrev pub begins : Text → Text → Bool
begins [] text = false
begins (c ∷ p) text = starts_with (c ∷ p) text

-- It stands somewhere in a text.
abbrev pub occurs : Text → Text → Bool
occurs p [] = false
occurs p (c ∷ text) = begins p (c ∷ text) || occurs p text

is_in-append_one :
    (p o : Text) (os : List Text) → is_in p (os ++ o ∷ []) ≡ (is_in p os || text_eq p o)
is_in-append_one p o [] = ground arith
is_in-append_one p o (x ∷ os) = ground (arith, is_in-append_one p o os)

is_in-same :
    (p o : Text) (ms : List Text) → is_in o ms ≡ true → text_eq p o ≡ true → is_in p ms ≡ true
is_in-same p o ms h e = ground (arith, text_eq→eq p o)

is_in-update : (p : Text) (os ms : List Text) → is_in p (update os ms) ≡ (is_in p ms || is_in p os)
unfolding update
is_in-update p [] ms = ground arith
is_in-update p (o ∷ os) ms = ground (
  arith,
  is_in-update p os (if is_in o ms then ms else ms ++ o ∷ []),
  is_in-append_one p o ms,
  is_in-same p o ms,
)

-- Whether a phrase is an output of a node on the way along a text.
abbrev along : Text → TrieNode → Text → Bool
along p n [] = false
along p (node children outputs) (c ∷ text) = elim (get_child c children) [
  | none ↦ false
  | some n ↦ is_in p (outputs_of n) || along p n text
]

is_in-walk :
    (p : Text) (n : TrieNode) (text : Text) (ms : List Text)
    → is_in p (walk n text ms) ≡ (is_in p ms || along p n text)
unfolding walk
is_in-walk p n [] ms = ground arith
is_in-walk p (node children outputs) (c ∷ text) ms = elim (Option-cases (get_child c children)) [
  | inl e ↦ ground arith
  | inr (n, e) ↦
      ground
        (arith, is_in-walk p n text (update (outputs_of n) ms), is_in-update p (outputs_of n) ms)
]

outputs_at-nil : (n : TrieNode) → outputs_at n [] ≡ outputs_of n
outputs_at-nil (node children outputs) = refl

-- A node below which `p` is an output just on the path `rest`, if `k`.
along-begins :
    (p rest : Text) (k : Bool) (n : TrieNode) (text : Text)
    → ((q : Text) → is_in p (outputs_at n q) ≡ (k && text_eq rest q))
    → along p n text ≡ (k && begins rest text)
along-begins p [] k n [] h = ground arith
along-begins p (r ∷ rest) k n [] h = ground arith
along-begins p [] k (node children outputs) (c ∷ text) h =
    elim (Option-cases (get_child c children)) [
      | inl e ↦ ground arith
      | inr (n, e) ↦ ground (
        arith,
        along-begins p [] false n text (λ q. ground (arith, h (c ∷ q))),
        h (c ∷ []),
        outputs_at-nil n,
      )
    ]
along-begins p (r ∷ rest) k (node children outputs) (c ∷ text) h =
    elim (Option-cases (get_child c children)) [
      | inl e ↦ ground (arith, h (c ∷ rest), text_eq_refl rest)
      | inr (n, e) ↦ ground (
        arith,
        along-begins p rest (k && r == c) n text (λ q. ground (arith, h (c ∷ q))),
        h (c ∷ []),
        outputs_at-nil n,
        begins_or_empty rest text,
      )
    ]
  where
    begins_or_empty : (s t : Text) → (text_eq s [] || begins s t) ≡ starts_with s t
    begins_or_empty [] t = refl
    begins_or_empty (d ∷ s) t = refl

is_in-scan :
    (p : Text) (k : Bool) (root : TrieNode) (text : Text) (ms : List Text)
    → ((q : Text) → is_in p (outputs_at root q) ≡ (k && text_eq p q))
    → is_in p (scan root text ms) ≡ (is_in p ms || (k && occurs p text))
unfolding scan
is_in-scan p k root [] ms h = ground arith
is_in-scan p k root (c ∷ text) ms h = ground (
  arith,
  is_in-scan p k root text (walk root (c ∷ text) ms) h,
  is_in-walk p root (c ∷ text) ms,
  along-begins p p k root (c ∷ text) h,
)

-- `PhraseTrie(phrases).find(text)` holds a phrase just if it is one of the phrases, is not empty and
-- stands somewhere in the text.
pub find_lem :
    (phrases : List Text) (text p : Text)
    → is_in p (find (phrase_trie phrases) text) ≡ (is_in p phrases && occurs p text)
unfolding find
find_lem phrases text p =
    is_in-scan p (is_in p phrases) (phrase_trie phrases) text []
      (λ q. is_in-phrase_trie p q phrases)
