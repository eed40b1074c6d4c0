-- ===== src/Core/Normalization.antt =====
-- src/sentinel/core/normalization.py: the text that the rules see. The tables of Unicode are
-- parameters; each regular expression of the source is a function here.
use sentinel_content_safety.Base.{
  ℕ, zero, suc, ◌+◌, Bool, true, false, not, ◌&&◌, ◌||◌, [], ◌∷◌, ◌++◌, keep, leb, ◌==◌,
  if◌then◌else◌,
}
use sentinel_content_safety.Core.Trie.{Text}

-- `unicodedata.normalize("NFKC", _)`, `str.casefold`, and the classes `\w`, `[^\W\d_]` and `\s`.
pub record Unicode : Type 0 where
  pub nfkc : Text → Text
  pub casefold : Text → Text
  pub is_word : ℕ → Bool
  pub is_letter : ℕ → Bool
  pub is_space : ℕ → Bool

-- `[\u200b-\u200f\u2060\ufeff]`
abbrev pub is_zero_width : ℕ → Bool
is_zero_width c = (leb 0x200b c && leb c 0x200f) || c == 0x2060 || c == 0xfeff

unfoldable pub leetspeak : ℕ → ℕ
leetspeak c =
    if c == b'0'
    then b'o'
    else if c == b'1'
    then b'i'
    else if c == b'3'
    then b'e'
    else if c == b'4'
    then b'a'
    else if c == b'5'
    then b's'
    else if c == b'7'
    then b't'
    else if c == b'@'
    then b'a'
    else if c == b'$'
    then b's'
    else c

unfoldable pub translate : Text → Text
translate [] = []
translate (c ∷ cs) = leetspeak c ∷ translate cs

-- The intra-word punctuation: between two letters, a run of characters that are neither words nor
-- spaces, or underscores, is dropped. `held` is the run behind the letter that was read last.
unfoldable pub drop_punctuation : Unicode → Bool → Text → Text → Text
drop_punctuation u after_letter held [] = held
drop_punctuation u after_letter held (c ∷ cs) =
    let held_on = drop_punctuation u true (held ++ c ∷ []) cs in
    let letter_next = drop_punctuation u true [] cs in
    let other_next = drop_punctuation u false [] cs in
    if after_letter && ((not (u.is_word c) && not (u.is_space c)) || c == b'_')
    then held_on
    else if u.is_letter c
    then c ∷ letter_next
    else held ++ c ∷ other_next

abbrev pub repeat : ℕ → ℕ → Text
repeat c zero = []
repeat c (suc n) = c ∷ repeat c n

-- `(.)\1{2}`: three or more of a character that is no line end become one.
unfoldable pub collapse_run : ℕ → ℕ → Text
collapse_run c n = if leb 3 n && not (c == 10) then c ∷ [] else repeat c n

unfoldable pub collapse : ℕ → ℕ → Text → Text
collapse c n [] = collapse_run c n
collapse c n (d ∷ ds) =
    let same = collapse c (n + 1) ds in
    let other = collapse d 1 ds in if c == d then same else collapse_run c n ++ other

unfoldable pub collapse_repeated : Text → Text
collapse_repeated [] = []
collapse_repeated (c ∷ cs) = collapse c 1 cs

-- `\s+` becomes one space; `after_space` says whether one was just written.
unfoldable pub squeeze : Unicode → Bool → Text → Text
squeeze u after_space [] = []
squeeze u after_space (c ∷ cs) =
    let on = squeeze u true cs in
    let off = squeeze u false cs in
    if u.is_space c then (if after_space then on else b' ' ∷ on) else c ∷ off

abbrev pub strip_left : Unicode → Text → Text
strip_left u [] = []
strip_left u (c ∷ cs) = if u.is_space c then strip_left u cs else c ∷ cs

abbrev pub reverse_onto : Text → Text → Text
reverse_onto [] ds = ds
reverse_onto (c ∷ cs) ds = reverse_onto cs (c ∷ ds)

-- `str.strip`
abbrev pub strip : Unicode → Text → Text
strip u text = reverse_onto (strip_left u (reverse_onto (strip_left u text) [])) []

unfoldable pub normalize_text : Unicode → Text → Text
normalize_text u text =
    let folded = u.casefold (u.nfkc text) in
    let visible = keep (λ c. not (is_zero_width c)) folded in
    let joined = drop_punctuation u false [] (translate visible) in
    strip u (squeeze u false (collapse_repeated joined))
