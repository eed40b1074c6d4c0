-- ===== src/Core/Tests.antt =====
-- The text engine at concrete texts.
use sentinel_content_safety.Base.{
  List, ℕ, ◌≡◌, refl, Bool, true, false, Option, none, some, [], ◌∷◌, ◌==◌, if◌then◌else◌, ◌≢◌,
}
use sentinel_content_safety.Schemas.{
  Decision, SafetyCategory, ModerationSignal, ModerationRequest, ModerationResponse,
}
use sentinel_content_safety.Core.Trie.{
  Text, phrase_trie, insert_phrases, insert_at, child_or_new, get_child, set_child, find, scan,
  walk, update,
}
use sentinel_content_safety.Core.Normalization.{
  Unicode, normalize_text, drop_punctuation, translate, leetspeak, collapse_repeated, collapse,
  collapse_run, squeeze,
}
use sentinel_content_safety.Core.Rules.{rule_engine, evaluate}
use sentinel_content_safety.Core.Threat.{ThreatSettings, ThreatVectorStore}
use sentinel_content_safety.Core.Engine.{
  ModerationEngine, default, Stamp, moderate, model_part, threat_part, decision_of,
}
use sentinel_content_safety.Core.Trie.{is_in}
use sentinel_content_safety.Core.Trie.Find.{occurs, find_lem}
use sentinel_content_safety.Core.Rules.{SafetyRule}
use sentinel_content_safety.Core.Catch.{moderate-catches}
use sentinel_content_safety.Base.{◌&&◌, ◌≤◌}
use sentinel_content_safety.Core.Policy.{IsJudged, moderate-within}

abbrev not_space : ℕ → Bool
not_space c = if c == b' ' then false else true

abbrev ascii : Unicode
ascii = record {
  nfkc = λ t. t;
  casefold = λ t. t;
  is_word = not_space;
  is_letter = not_space;
  is_space = λ c. c == b' ';
}

abbrev stamp : Stamp
stamp = record { threat_id = "t"; response_id = "u"; now = 7 }

abbrev request : ModerationRequest
request = record {
  text = b'k' ∷ b'1' ∷ b'l' ∷ b'l' ∷ b' ' ∷ b'y' ∷ b'o' ∷ b'u' ∷ [];
  request_id = some "r1";
}

abbrev engine : ModerationEngine (Unit {0}) (Unit {0})
unfolding default
engine = default (some (record { version = "v"; predict_score = λ t. 0 })) none

abbrev threat_signal : ModerationSignal
threat_signal = record {
  source = "heuristic";
  category = SafetyCategory.threat;
  score = 0x3fee666666666666;
  reason_code = "explicit_threat";
}

abbrev answer : ModerationResponse
answer = record {
  request_id = "r1";
  decision = Decision.block;
  risk_score = 0x3fee666666666666;
  signals = threat_signal ∷ [];
  policy_version = "2026-08-27";
  evaluated_at = 7;
}

-- The phrase behind a digit for a letter is found, and the text blocked.
moderate_run : moderate ascii engine stamp request tt ≡ some (answer, tt)
unfolding moderate engine rule_engine phrase_trie insert_phrases insert_at child_or_new get_child
    set_child evaluate find scan walk update normalize_text drop_punctuation translate leetspeak
    collapse_repeated collapse collapse_run squeeze model_part threat_part decision_of default
moderate_run = refl

moderate-within_example : IsJudged answer
unfolding engine rule_engine default
moderate-within_example =
    moderate-within ascii engine stamp request tt refl
      (λ settings vectors k e. absurd (none_given e)) moderate_run
  where
    none_given :
        {settings : ThreatSettings (Unit {0})} {vectors : ThreatVectorStore (Unit {0}) (Unit {0})}
        → ◌≢◌ {A = Option (ThreatSettings (Unit {0}) × ThreatVectorStore (Unit {0}) (Unit {0}))}
            none
            (some (settings, vectors))
    none_given e = cc

abbrev kill_you : Text
kill_you = b'k' ∷ b'i' ∷ b'l' ∷ b'l' ∷ b' ' ∷ b'y' ∷ b'o' ∷ b'u' ∷ []

abbrev kill_rule : SafetyRule
kill_rule = record {
  phrase = kill_you;
  category = SafetyCategory.threat;
  severity = 0x3fee666666666666;
  reason_code = "explicit_threat";
}

-- One phrase ends another, and both stand in the text.
abbrev phrases : List Text
phrases = kill_you ∷ (b'y' ∷ b'o' ∷ b'u' ∷ []) ∷ []

find_lem_example :
    is_in (b'y' ∷ b'o' ∷ b'u' ∷ []) (find (phrase_trie phrases) kill_you)
    ≡ (is_in (b'y' ∷ b'o' ∷ b'u' ∷ []) phrases && occurs (b'y' ∷ b'o' ∷ b'u' ∷ []) kill_you)
find_lem_example = find_lem phrases kill_you (b'y' ∷ b'o' ∷ b'u' ∷ [])

moderate-catches_example :
    (given : ModerationResponse × Unit {0}) × (moderate ascii engine stamp request tt ≡ some given)
    × (kill_rule.severity ≤ given.0.risk_score)
    × (given.0.decision ≢ Decision.allow)
unfolding engine normalize_text squeeze collapse_repeated drop_punctuation translate leetspeak
    collapse collapse_run
moderate-catches_example =
    moderate-catches ascii (some (record { version = "v"; predict_score = λ t. 0 })) none stamp
      request tt kill_you {r = kill_rule} refl refl
