-- ===== src/Schemas.antt =====
-- src/sentinel/schemas/moderation.py: the data that the components exchange.
-- A score is a float that is not negative and not NaN. It is modelled by its IEEE 754 bit pattern
-- read as a number: on such floats the order of the patterns is the order of the values, so that
-- comparisons, `max` and the literals of the source are exact. A time is a number of microseconds.
pub mod Fields
pub mod Strip
pub mod Again
mod Tests
use sentinel_content_safety.Base.{ℕ, String, Option, List, Bool, true, false, ◌==◌}

abbrev pub Score : Type 0
Score = ℕ

abbrev pub Time : Type 0
Time = ℕ

pub data Decision : Type 0 where
  allow review block : Decision

abbrev pub decision_eq : Decision → Decision → Bool
decision_eq Decision.allow Decision.allow = true
decision_eq Decision.review Decision.review = true
decision_eq Decision.block Decision.block = true
decision_eq _ _ = false

pub data SafetyCategory : Type 0 where
  harassment identity_attack threat toxicity coordinated_abuse : SafetyCategory
  sexual_content graphic_violence cross_modal_disagreement : SafetyCategory

-- The place of a category in the alphabetical order of the values.
abbrev pub category_rank : SafetyCategory → ℕ
category_rank SafetyCategory.coordinated_abuse = 0
category_rank SafetyCategory.cross_modal_disagreement = 1
category_rank SafetyCategory.graphic_violence = 2
category_rank SafetyCategory.harassment = 3
category_rank SafetyCategory.identity_attack = 4
category_rank SafetyCategory.sexual_content = 5
category_rank SafetyCategory.threat = 6
category_rank SafetyCategory.toxicity = 7

abbrev pub category_eq : SafetyCategory → SafetyCategory → Bool
category_eq a b = category_rank a == category_rank b

-- `text` is a list of code points.
pub record ModerationRequest : Type 0 where
  pub text : List ℕ
  pub request_id : Option String

pub record ModerationSignal : Type 0 where
  pub source : String
  pub category : SafetyCategory
  pub score : Score
  pub reason_code : String

pub record ModerationResponse : Type 0 where
  pub request_id : String
  pub decision : Decision
  pub risk_score : Score
  pub signals : List ModerationSignal
  pub policy_version : String
  pub evaluated_at : Time

pub data ImageMediaType : Type 0 where
  jpeg png webp : ImageMediaType

pub record ImageMetadata : Type 0 where
  pub format : String
  pub width : ℕ
  pub height : ℕ
  pub bytes_received : ℕ

pub data JobState : Type 0 where
  accepted processing succeeded failed : JobState

abbrev pub job_state_eq : JobState → JobState → Bool
job_state_eq JobState.accepted JobState.accepted = true
job_state_eq JobState.processing JobState.processing = true
job_state_eq JobState.succeeded JobState.succeeded = true
job_state_eq JobState.failed JobState.failed = true
job_state_eq _ _ = false

pub record ModerationJob : Type 0 where
  pub job_id : String
  pub request_id : String
  pub state : JobState
  pub attempt : ℕ
  pub result : Option ModerationResponse
  pub error_code : Option String
  pub created_at : Time
  pub updated_at : Time

pub record StoredModerationJob : Type 0 where
  pub job : ModerationJob
  pub request_fingerprint : String

pub record ModerationJobEvent : Type 0 where
  pub job_id : String
  pub request : ModerationRequest
  pub attempt : ℕ
