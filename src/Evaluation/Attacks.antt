-- ===== src/Evaluation/Attacks.antt =====
-- src/sentinel/evaluation/attacks.py: the transformations of texts that an evaluation applies.
-- `str.upper` is a parameter.
use sentinel_content_safety.Base.{
  ℕ, String, Bool, ◌&&◌, ◌||◌, List, [], ◌∷◌, ◌++◌, map, length, leb, ◌==◌, if◌then◌else◌,
}
use sentinel_content_safety.Core.Trie.{Text}

abbrev pub clean : Text → Text
clean text = text

-- `[A-Za-z]`
abbrev pub is_ascii_letter : ℕ → Bool
is_ascii_letter c = (leb b'A' c && leb c b'Z') || (leb b'a' c && leb c b'z')

-- A substitution at each place between two letters.
unfoldable pub insert_between : ℕ → Text → Text
insert_between separator [] = []
insert_between separator (c ∷ []) = c ∷ []
insert_between separator (c ∷ d ∷ text) =
    let rest = insert_between separator (d ∷ text) in
    if is_ascii_letter c && is_ascii_letter d then c ∷ separator ∷ rest else c ∷ rest

abbrev pub zero_width : Text → Text
zero_width text = insert_between 0x200b text

abbrev pub punctuation_injection : Text → Text
punctuation_injection text = insert_between b'.' text

unfoldable pub leet_character : ℕ → ℕ
leet_character c =
    if c == b'a'
    then b'4'
    else if c == b'e'
    then b'3'
    else if c == b'i'
    then b'1'
    else if c == b'o'
    then b'0'
    else if c == b's'
    then b'5'
    else c

abbrev pub leetspeak : Text → Text
leetspeak text = map leet_character text

-- The characters whose case-folded form is in "aeiou", of `[A-Za-z]`.
abbrev pub is_vowel : ℕ → Bool
is_vowel c =
    c == b'a'
    || c == b'e'
    || c == b'i'
    || c == b'o'
    || c == b'u'
    || c == b'A'
    || c == b'E'
    || c == b'I'
    || c == b'O'
    || c == b'U'

-- `flood`, behind the first character of the word: the first vowel before the last character is
-- written three times.
unfoldable pub flood_internal : Text → Text
flood_internal [] = []
flood_internal (c ∷ []) = c ∷ []
flood_internal (c ∷ d ∷ word) =
    let rest = flood_internal (d ∷ word) in if is_vowel c then c ∷ c ∷ c ∷ d ∷ word else c ∷ rest

-- A longest run of letters; the pattern matches those of at least four.
unfoldable pub flood_run : Text → Text
flood_run [] = []
flood_run (c ∷ word) = if leb 4 (length (c ∷ word)) then c ∷ flood_internal word else c ∷ word

-- `character_flooding`; `run` is the run of letters just before.
unfoldable pub flood_from : Text → Text → Text
unfolding flood_run
flood_from run [] = flood_run run
flood_from run (c ∷ text) =
    let letter_next = flood_from (run ++ c ∷ []) text in
    let other_next = flood_from [] text in
    if is_ascii_letter c then letter_next else flood_run run ++ c ∷ other_next

abbrev pub character_flooding : Text → Text
character_flooding text = flood_from [] text

-- `ATTACKS`
abbrev pub attacks : (Text → Text) → List (String × (Text → Text))
attacks upper =
    ("clean", clean)
    ∷ ("uppercase", upper)
    ∷ ("zero_width", zero_width)
    ∷ ("leetspeak", leetspeak)
    ∷ ("punctuation", punctuation_injection)
    ∷ ("character_flooding", character_flooding)
    ∷ []
