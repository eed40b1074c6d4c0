-- ===== src/Core/Trie.antt =====
-- src/sentinel/core/trie.py: the phrase matcher, on texts as lists of code points. A `set` of phrases
-- is a list without repetition.
pub mod Insert
pub mod Find
use sentinel_content_safety.Base.{
  ℕ, Bool, true, false, ◌&&◌, Option, none, some, List, [], ◌∷◌, ◌++◌, any, ◌==◌, if◌then◌else◌,
}

abbrev pub Text : Type 0
Text = List ℕ

abbrev pub text_eq : Text → Text → Bool
text_eq [] [] = true
text_eq [] (d ∷ ds) = false
text_eq (c ∷ cs) [] = false
text_eq (c ∷ cs) (d ∷ ds) = c == d && text_eq cs ds

-- `TrieNode`: its children by their character, in insertion order, and its outputs.
mutual
  pub data TrieNode : Type 0 where
    node : Children → List Text → TrieNode

  pub data Children : Type 0 where
    no_child : Children
    child : ℕ → TrieNode → Children → Children

abbrev pub empty_node : TrieNode
empty_node = node no_child []

-- `children.get(character)`
unfoldable pub get_child : ℕ → Children → Option TrieNode
get_child c no_child = none
get_child c (child d n rest) = if c == d then some n else get_child c rest

-- Assignment to `children[character]`.
unfoldable pub set_child : ℕ → TrieNode → Children → Children
set_child c n no_child = child c n no_child
set_child c n (child d old rest) =
    if c == d then child d n rest else child d old (set_child c n rest)

-- `children.setdefault(character, TrieNode())`, as the child that it gives.
unfoldable pub child_or_new : ℕ → Children → TrieNode
unfolding get_child
child_or_new c children = elim (get_child c children) [ none ↦ empty_node | some n ↦ n ]

-- `_insert` from a node on, along the rest of the phrase.
unfoldable pub insert_at : Text → Text → TrieNode → TrieNode
insert_at [] phrase (node children outputs) = node children (outputs ++ phrase ∷ [])
insert_at (c ∷ cs) phrase (node children outputs) =
    node (set_child c (insert_at cs phrase (child_or_new c children)) children) outputs

unfoldable pub insert_phrases : List Text → TrieNode → TrieNode
insert_phrases [] root = root
insert_phrases (phrase ∷ phrases) root = insert_phrases phrases (insert_at phrase phrase root)

-- `PhraseTrie.__init__`
unfoldable pub phrase_trie : List Text → TrieNode
unfolding insert_phrases
phrase_trie phrases = insert_phrases phrases empty_node

-- `matches.update(outputs)`
abbrev pub is_in : Text → List Text → Bool
is_in phrase phrases = any (text_eq phrase) phrases

unfoldable pub update : List Text → List Text → List Text
update [] matches = matches
update (o ∷ os) matches = update os (if is_in o matches then matches else matches ++ o ∷ [])

abbrev pub outputs_of : TrieNode → List Text
outputs_of (node children outputs) = outputs

-- The inner loop of `find`: from a node along the text, until no child fits.
unfoldable pub walk : TrieNode → Text → List Text → List Text
walk n [] matches = matches
walk (node children outputs) (c ∷ cs) matches = elim (get_child c children) [
  | none ↦ matches
  | some n ↦ walk n cs (update (outputs_of n) matches)
]

-- The outer loop of `find`, from each start on.
unfoldable pub scan : TrieNode → Text → List Text → List Text
scan root [] matches = matches
scan root (c ∷ cs) matches = scan root cs (walk root (c ∷ cs) matches)

unfoldable pub find : TrieNode → Text → List Text
unfolding scan
find root text = scan root text []
