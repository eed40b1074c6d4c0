-- ===== src/Core/Trie/Insert.antt =====
-- What a trie holds after its phrases are inserted: the outputs on the path of a text.
use sentinel_content_safety.Base.{
  ℕ, ◌≡◌, refl, true, ◌&&◌, ◌||◌, none, some, List, [], ◌∷◌, ◌++◌, ◌==◌, if◌then◌else◌, arith,
}
use sentinel_content_safety.Core.Trie.{
  Text, text_eq, is_in, TrieNode, node, Children, no_child, child, empty_node, get_child, set_child,
  child_or_new, insert_at, insert_phrases, phrase_trie,
}

abbrev pub outputs_at : TrieNode → Text → List Text
outputs_at (node children outputs) [] = outputs
outputs_at (node children outputs) (c ∷ q) = elim (get_child c children) [
  | none ↦ []
  | some n ↦ outputs_at n q
]

pub text_eq_refl : (t : Text) → text_eq t t ≡ true
text_eq_refl [] = refl
text_eq_refl (c ∷ t) = ground (arith, text_eq_refl t)

pub text_eq→eq : (s t : Text) → text_eq s t ≡ true → s ≡ t
text_eq→eq [] [] h = refl
text_eq→eq [] (d ∷ t) h = ground arith
text_eq→eq (c ∷ s) [] h = ground arith
text_eq→eq (c ∷ s) (d ∷ t) h = ground (arith, text_eq→eq s t)

get_child-set_child :
    (c d : ℕ) (n : TrieNode) (children : Children)
    → get_child c (set_child d n children) ≡ (if c == d then some n else get_child c children)
unfolding get_child set_child
get_child-set_child c d n no_child = refl
get_child-set_child c d n (child e m rest) = ground (arith, get_child-set_child c d n rest)

outputs_at-empty : (q : Text) → outputs_at empty_node q ≡ []
unfolding get_child
outputs_at-empty [] = refl
outputs_at-empty (c ∷ q) = refl

outputs_at-child_or_new :
    (c : ℕ) (children : Children) (outputs : List Text) (q : Text)
    → outputs_at (child_or_new c children) q ≡ outputs_at (node children outputs) (c ∷ q)
unfolding child_or_new
outputs_at-child_or_new c children outputs q = ground (arith, outputs_at-empty q)

is_in-append : (p o : Text) (os : List Text) → is_in p (os ++ o ∷ []) ≡ (is_in p os || text_eq p o)
is_in-append p o [] = ground arith
is_in-append p o (x ∷ os) = ground (arith, is_in-append p o os)

is_in-insert_at :
    (p path phrase q : Text) (n : TrieNode)
    → is_in p (outputs_at (insert_at path phrase n) q)
      ≡ (is_in p (outputs_at n q) || (text_eq path q && text_eq p phrase))
unfolding insert_at
is_in-insert_at p [] phrase [] (node children outputs) =
    ground (arith, is_in-append p phrase outputs)
is_in-insert_at p [] phrase (d ∷ q) (node children outputs) = ground arith
is_in-insert_at p (c ∷ path) phrase [] (node children outputs) = ground arith
is_in-insert_at p (c ∷ path) phrase (d ∷ q) (node children outputs) =
    let n = insert_at path phrase (child_or_new c children) in
    ground (
      arith,
      get_child-set_child d c n children,
      is_in-insert_at p path phrase q (child_or_new c children),
      outputs_at-child_or_new c children outputs q,
    )

is_in-insert_phrases :
    (p q : Text) (phrases : List Text) (n : TrieNode)
    → is_in p (outputs_at (insert_phrases phrases n) q)
      ≡ (is_in p (outputs_at n q) || (is_in p phrases && text_eq p q))
unfolding insert_phrases
is_in-insert_phrases p q [] n = ground arith
is_in-insert_phrases p q (phrase ∷ phrases) n = ground (
  arith,
  is_in-insert_phrases p q phrases (insert_at phrase phrase n),
  is_in-insert_at p phrase phrase q n,
  text_eq→eq p phrase,
)

-- A trie has on the path of a text the phrases that are that text.
pub is_in-phrase_trie :
    (p q : Text) (phrases : List Text)
    → is_in p (outputs_at (phrase_trie phrases) q) ≡ (is_in p phrases && text_eq p q)
unfolding phrase_trie
is_in-phrase_trie p q phrases =
    ground (arith, is_in-insert_phrases p q phrases empty_node, outputs_at-empty q)
