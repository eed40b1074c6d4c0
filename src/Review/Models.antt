-- ===== src/Review/Models.antt =====
-- src/sentinel/review/models.py and errors.py: cases, audit events and the errors of the workflow.
use sentinel_content_safety.Base.{ℕ, String, Option, List, Bool, true, false}
use sentinel_content_safety.Schemas.{Decision, SafetyCategory, Score, Time}

pub data ReviewState : Type 0 where
  pending claimed resolved appealed : ReviewState

abbrev pub state_eq : ReviewState → ReviewState → Bool
state_eq ReviewState.pending ReviewState.pending = true
state_eq ReviewState.claimed ReviewState.claimed = true
state_eq ReviewState.resolved ReviewState.resolved = true
state_eq ReviewState.appealed ReviewState.appealed = true
state_eq _ _ = false

abbrev pub state_value : ReviewState → String
state_value ReviewState.pending = "pending"
state_value ReviewState.claimed = "claimed"
state_value ReviewState.resolved = "resolved"
state_value ReviewState.appealed = "appealed"

pub data ReviewerRole : Type 0 where
  reviewer senior_reviewer auditor : ReviewerRole

abbrev pub role_eq : ReviewerRole → ReviewerRole → Bool
role_eq ReviewerRole.reviewer ReviewerRole.reviewer = true
role_eq ReviewerRole.senior_reviewer ReviewerRole.senior_reviewer = true
role_eq ReviewerRole.auditor ReviewerRole.auditor = true
role_eq _ _ = false

pub data ReviewAction : Type 0 where
  created claimed decided appealed appeal_decided : ReviewAction

abbrev pub is_appealed : ReviewAction → Bool
is_appealed ReviewAction.appealed = true
is_appealed _ = false

pub record ReviewPrincipal : Type 0 where
  pub reviewer_id : String
  pub role : ReviewerRole

pub record ReviewCase : Type 0 where
  pub case_id : String
  pub request_id : String
  pub automated_decision : Decision
  pub automated_risk_score : Score
  pub signal_categories : List SafetyCategory
  pub policy_version : String
  pub state : ReviewState
  pub assigned_reviewer_id : Option String
  pub final_decision : Option Decision
  pub decision_reason_code : Option String
  pub appeal_reason_code : Option String
  pub created_at : Time
  pub updated_at : Time
  pub resolved_at : Option Time

-- The fields of an event that its digest covers.
pub record AuditPayload : Type 0 where
  pub event_id : String
  pub case_id : String
  pub sequence : ℕ
  pub action : ReviewAction
  pub actor_id : String
  pub actor_role : Option ReviewerRole
  pub from_state : Option ReviewState
  pub to_state : ReviewState
  pub reason_code : String
  pub occurred_at : Time
  pub previous_hash : String

pub record ReviewAuditEvent : Type 0 where
  pub event_id : String
  pub case_id : String
  pub sequence : ℕ
  pub action : ReviewAction
  pub actor_id : String
  pub actor_role : Option ReviewerRole
  pub from_state : Option ReviewState
  pub to_state : ReviewState
  pub reason_code : String
  pub occurred_at : Time
  pub previous_hash : String
  pub event_hash : String

pub record FeedbackRecord : Type 0 where
  pub case_id : String
  pub request_id : String
  pub automated_decision : Decision
  pub automated_risk_score : Score
  pub signal_categories : List SafetyCategory
  pub policy_version : String
  pub human_decision : Decision
  pub decision_reason_code : String
  pub resolved_at : Time
  pub appealed : Bool

pub data ReviewError : Type 0 where
  not_found conflict authorization : String → ReviewError

-- What the workflow takes from the standard library: the hexadecimal SHA-256 of a text, the
-- canonical JSON text of a payload, and UUID5 names.
pub record Platform : Type 0 where
  pub sha256 : String → String
  pub dumps : AuditPayload → String
  pub uuid5 : String → String

unfoldable pub audit_event_digest : Platform → AuditPayload → String
audit_event_digest p payload = p.sha256 (p.dumps payload)

-- `"0" * 64`
abbrev pub genesis_hash : String
genesis_hash = "0000000000000000000000000000000000000000000000000000000000000000"
