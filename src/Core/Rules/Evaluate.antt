-- ===== src/Core/Rules/Evaluate.antt =====
-- The rule engine gives exactly the rules whose phrase stands in the text, and never misses one.
use sentinel_content_safety.Base.{
  ◌≡◌, refl, sym, ap, ◌∙◌, true, ◌&&◌, ◌||◌, Option, none, some, List, [], ◌∷◌, if◌then◌else◌,
  arith, is_some, Option-cases, inl, inr,
}
use sentinel_content_safety.Core.Trie.{Text, text_eq, is_in, find, phrase_trie}
use sentinel_content_safety.Core.Trie.Insert.{text_eq_refl, text_eq→eq}
use sentinel_content_safety.Core.Trie.Find.{occurs, find_lem}
use sentinel_content_safety.Core.Rules.{
  SafetyRule, put_rule, put_rules, phrases_of, rule_engine, sort_in, sort_texts, get_rule,
  get_rules, evaluate,
}

-- The rule of a phrase: the last one that names it.
abbrev pub last_rule : Text → List SafetyRule → Option SafetyRule
last_rule p [] = none
last_rule p (r ∷ rs) = elim (last_rule p rs) [
  | some s ↦ some s
  | none ↦ if text_eq p r.phrase then some r else none
]

get_rule-put_rule :
    (p : Text) (r : SafetyRule) (held : List SafetyRule)
    → get_rule p (put_rule r held) ≡ (if text_eq p r.phrase then some r else get_rule p held)
get_rule-put_rule p r [] = refl
get_rule-put_rule p r (s ∷ held) = ground (
  arith,
  get_rule-put_rule p r held,
  text_eq→eq r.phrase s.phrase,
  text_eq→eq p r.phrase,
  text_eq→eq p s.phrase,
  text_eq_refl r.phrase,
)

get_rule-put_rules :
    (p : Text) (rules held : List SafetyRule)
    → get_rule p (put_rules rules held)
      ≡ (elim (last_rule p rules) [ some r ↦ some r | none ↦ get_rule p held ])
get_rule-put_rules p [] held = refl
get_rule-put_rules p (r ∷ rules) held =
    ground (arith, get_rule-put_rules p rules (put_rule r held), get_rule-put_rule p r held)

pub get_rule-is_in :
    (p : Text) (rules : List SafetyRule) → is_some (get_rule p rules) ≡ is_in p (phrases_of rules)
get_rule-is_in p [] = refl
get_rule-is_in p (r ∷ rules) = ground (arith, get_rule-is_in p rules)

get_rule-phrase :
    (p : Text) (rules : List SafetyRule) {r : SafetyRule} → get_rule p rules ≡ some r → r.phrase ≡ p
get_rule-phrase p [] h = ground arith
get_rule-phrase p (s ∷ rules) {r} h =
    ground (arith, get_rule-phrase p rules {r = r}, text_eq→eq p s.phrase)

is_in-sort_in : (p t : Text) (ts : List Text) → is_in p (sort_in t ts) ≡ (text_eq p t || is_in p ts)
is_in-sort_in p t [] = refl
is_in-sort_in p t (u ∷ us) = ground (arith, is_in-sort_in p t us)

is_in-sort_texts : (p : Text) (ts : List Text) → is_in p (sort_texts ts) ≡ is_in p ts
is_in-sort_texts p [] = refl
is_in-sort_texts p (t ∷ ts) =
    is_in-sort_in p t (sort_texts ts) ∙ ap (λ b. text_eq p t || b) (is_in-sort_texts p ts)

-- Known phrases all have their rules.
get_rules_known :
    (phrases : List Text) (rules : List SafetyRule)
    → ((p : Text) → is_in p phrases ≡ true → is_some (get_rule p rules) ≡ true)
    → (matches : List SafetyRule) × (get_rules phrases rules ≡ some matches)
      × ((p : Text) → get_rule p matches ≡ (if is_in p phrases then get_rule p rules else none))
get_rules_known [] rules known = ([], refl, λ p. refl)
get_rules_known (phrase ∷ phrases) rules known =
    let (matches, e, each) = get_rules_known phrases rules (λ p h. known p (ground arith)) in
    elim (Option-cases (get_rule phrase rules)) [
      | inl missing ↦ ground (arith, known phrase, text_eq_refl phrase)
      | inr (r, found) ↦ (
        r ∷ matches,
        ground arith,
        λ p. ground (arith, each p, get_rule-phrase phrase rules found, text_eq→eq p phrase),
      )
    ]

-- `RuleEngine(rules).evaluate(text)` never meets a missing rule, and gives under each phrase that
-- stands in the text the last rule of that phrase, and nothing under any other.
pub evaluate_lem :
    (rules : List SafetyRule) (text : Text)
    → (matches : List SafetyRule) × (evaluate (rule_engine rules) text ≡ some matches)
      × ((p : Text) → get_rule p matches ≡ (if occurs p text then last_rule p rules else none))
unfolding evaluate rule_engine
evaluate_lem rules text =
    let held = put_rules rules [] in
    let found = find (phrase_trie (phrases_of held)) text in
    let in_found : (p : Text)
        → is_in p (sort_texts found) ≡ (is_some (get_rule p held) && occurs p text) =
      λ p.
        is_in-sort_texts p found
        ∙ find_lem (phrases_of held) text p
        ∙ ap (λ b. b && occurs p text) (sym (get_rule-is_in p held)) in
    let (matches, e, each) =
      get_rules_known (sort_texts found) held (λ p h. ground (arith, in_found p)) in
    (matches, e, λ p. ground (arith, each p, in_found p, get_rule-put_rules p rules []))
