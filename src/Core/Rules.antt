-- ===== src/Core/Rules.antt =====
-- src/sentinel/core/rules.py: the rules and the rule engine.
pub mod Evaluate
use sentinel_content_safety.Base.{
  String, Bool, true, false, ◌&&◌, ◌||◌, Option, none, some, List, [], ◌∷◌, ltb, ◌==◌,
  if◌then◌else◌,
}
use sentinel_content_safety.Schemas.{SafetyCategory, Score}
use sentinel_content_safety.Core.Trie.{Text, text_eq, TrieNode, phrase_trie, find}

pub record SafetyRule : Type 0 where
  pub phrase : Text
  pub category : SafetyCategory
  pub severity : Score
  pub reason_code : String

-- 0.95, 0.90, 0.65 and 0.85.
abbrev pub default_rules : List SafetyRule
default_rules =
    record {
      phrase = b'k' ∷ b'i' ∷ b'l' ∷ b'l' ∷ b' ' ∷ b'y' ∷ b'o' ∷ b'u' ∷ [];
      category = SafetyCategory.threat;
      severity = 0x3fee666666666666;
      reason_code = "explicit_threat";
    }
    ∷ record {
      phrase = b'a' ∷ b't' ∷ b't' ∷ b'a' ∷ b'c' ∷ b'k' ∷ b' ' ∷ b't' ∷ b'h' ∷ b'e' ∷ b'm' ∷ [];
      category = SafetyCategory.threat;
      severity = 0x3feccccccccccccd;
      reason_code = "violent_intent";
    }
    ∷ record {
      phrase =
          b'y' ∷ b'o' ∷ b'u' ∷ b' ' ∷ b'a' ∷ b'r' ∷ b'e' ∷ b' ' ∷ b'w' ∷ b'o' ∷ b'r' ∷ b't' ∷ b'h'
          ∷ b'l' ∷ b'e' ∷ b's' ∷ b's' ∷ [];
      category = SafetyCategory.harassment;
      severity = 0x3fe4cccccccccccd;
      reason_code = "targeted_abuse";
    }
    ∷ record {
      phrase =
          b'p' ∷ b'e' ∷ b'o' ∷ b'p' ∷ b'l' ∷ b'e' ∷ b' ' ∷ b'l' ∷ b'i' ∷ b'k' ∷ b'e' ∷ b' ' ∷ b'y'
          ∷ b'o' ∷ b'u' ∷ b' ' ∷ b'd' ∷ b'o' ∷ b' ' ∷ b'n' ∷ b'o' ∷ b't' ∷ b' ' ∷ b'b' ∷ b'e' ∷ b'l'
          ∷ b'o' ∷ b'n' ∷ b'g' ∷ [];
      category = SafetyCategory.identity_attack;
      severity = 0x3feb333333333333;
      reason_code = "exclusionary_attack";
    }
    ∷ []

-- `{rule.phrase: rule for rule in rules}`: a later rule of a phrase takes the place of an earlier one.
abbrev pub put_rule : SafetyRule → List SafetyRule → List SafetyRule
put_rule rule [] = rule ∷ []
put_rule rule (r ∷ rs) = if text_eq rule.phrase r.phrase then rule ∷ rs else r ∷ put_rule rule rs

abbrev pub put_rules : List SafetyRule → List SafetyRule → List SafetyRule
put_rules [] held = held
put_rules (rule ∷ rules) held = put_rules rules (put_rule rule held)

abbrev pub phrases_of : List SafetyRule → List Text
phrases_of [] = []
phrases_of (r ∷ rs) = r.phrase ∷ phrases_of rs

pub record RuleEngine : Type 0 where
  pub rules : List SafetyRule
  pub matcher : TrieNode

-- `RuleEngine.__init__`
unfoldable pub rule_engine : List SafetyRule → RuleEngine
unfolding phrase_trie
rule_engine rules =
    let held = put_rules rules [] in
    record { rules = held; matcher = phrase_trie (phrases_of held) }

-- `sorted` on texts, by their code points.
abbrev pub text_leb : Text → Text → Bool
text_leb [] ds = true
text_leb (c ∷ cs) [] = false
text_leb (c ∷ cs) (d ∷ ds) = ltb c d || (c == d && text_leb cs ds)

abbrev pub sort_in : Text → List Text → List Text
sort_in t [] = t ∷ []
sort_in t (u ∷ us) = if text_leb t u then t ∷ u ∷ us else u ∷ sort_in t us

abbrev pub sort_texts : List Text → List Text
sort_texts [] = []
sort_texts (t ∷ ts) = sort_in t (sort_texts ts)

-- `self._rules[phrase]`; a missing phrase would raise a KeyError, which gives nothing here.
abbrev pub get_rule : Text → List SafetyRule → Option SafetyRule
get_rule phrase [] = none
get_rule phrase (r ∷ rs) = if text_eq phrase r.phrase then some r else get_rule phrase rs

abbrev pub get_rules : List Text → List SafetyRule → Option (List SafetyRule)
get_rules [] rules = some []
get_rules (phrase ∷ phrases) rules = elim (get_rule phrase rules) [
  | none ↦ none
  | some r ↦ elim (get_rules phrases rules) [ none ↦ none | some rs ↦ some (r ∷ rs) ]
]

unfoldable pub evaluate : RuleEngine → Text → Option (List SafetyRule)
unfolding find
evaluate engine normalized_text =
    get_rules (sort_texts (find engine.matcher normalized_text)) engine.rules
