-- ===== src/Review/Service.antt =====
-- `ReviewService` of src/sentinel/review/service.py, over any repository. The lock makes each
-- method one step. A method takes the readings of the clock and the UUID4 that it draws.
use Prim.Native.String.{◌++◌ as str_append}
use sentinel_content_safety.Base.{
  ℕ, ◌+◌, String, Option, none, some, List, [], ◌∷◌, Bool, true, false, not, ◌&&◌, ◌||◌, str_eq,
  length, any, keep, if◌then◌else◌,
}
use sentinel_content_safety.Schemas.{
  Decision, decision_eq, SafetyCategory, category_eq, ModerationSignal, ModerationResponse, Time,
}
use sentinel_content_safety.Review.Models.{
  ReviewState, state_eq, state_value, ReviewerRole, role_eq, ReviewAction, is_appealed,
  ReviewPrincipal, ReviewCase, AuditPayload, ReviewAuditEvent, FeedbackRecord, ReviewError,
  not_found, conflict, authorization, Platform, audit_event_digest,
}
use sentinel_content_safety.Review.Repository.{ReviewRepository, expected_previous}
use sentinel_content_safety.Base.Action.{
  ok, raised, Action, pure, gets, ◌>>=◌, ◌>>◌, raise_if, modify,
}

-- The values that one call reads from the clock and from `uuid4`, in the order of the reads.
pub record Readings : Type 0 where
  pub now : Time
  pub updated_at : Time
  pub occurred_at : Time
  pub event_id : String

abbrev pub review_roles : ReviewerRole → Bool
review_roles ReviewerRole.auditor = false
review_roles _ = true

abbrev pub read_roles : ReviewerRole → Bool
read_roles role = review_roles role || role_eq role ReviewerRole.auditor

abbrev pub auditor_only : ReviewerRole → Bool
auditor_only role = role_eq role ReviewerRole.auditor

-- The categories in the order of their values, from which `sorted` of a set picks those it holds.
abbrev pub all_categories : List SafetyCategory
all_categories =
    SafetyCategory.coordinated_abuse ∷ SafetyCategory.cross_modal_disagreement
    ∷ SafetyCategory.graphic_violence ∷ SafetyCategory.harassment ∷ SafetyCategory.identity_attack
    ∷ SafetyCategory.sexual_content ∷ SafetyCategory.threat ∷ SafetyCategory.toxicity ∷ []

unfoldable pub categories_of : ModerationResponse → List SafetyCategory
categories_of response =
    keep (λ c. any (λ (signal : ModerationSignal). category_eq signal.category c) response.signals)
      all_categories

unfoldable pub requires_review : ModerationResponse → Bool
unfolding categories_of
requires_review response =
    decision_eq response.decision Decision.review
    || any (category_eq SafetyCategory.cross_modal_disagreement) (categories_of response)

-- f"sentinel-review:{request_id}:{policy_version}"
unfoldable pub case_id_of : Platform → ModerationResponse → String
case_id_of p response = p.uuid5 (
    str_append "sentinel-review:"
      (str_append response.request_id (str_append ":" response.policy_version)))

abbrev pub new_case : Platform → Readings → ModerationResponse → ReviewCase
new_case p t response = record {
  case_id = case_id_of p response;
  request_id = response.request_id;
  automated_decision = response.decision;
  automated_risk_score = response.risk_score;
  signal_categories = categories_of response;
  policy_version = response.policy_version;
  state = ReviewState.pending;
  assigned_reviewer_id = none;
  final_decision = none;
  decision_reason_code = none;
  appeal_reason_code = none;
  created_at = t.now;
  updated_at = t.updated_at;
  resolved_at = none;
}

abbrev pub from_state_error : String → ReviewCase → ReviewError
from_state_error verb c = conflict (
    str_append "case cannot be "
      (str_append verb (str_append " from state " (state_value c.state))))

abbrev pub assigned_to : Option String → String → Bool
assigned_to none reviewer_id = false
assigned_to (some assigned) reviewer_id = str_eq assigned reviewer_id

abbrev pub was_appealed : List ReviewAuditEvent → Bool
was_appealed = any (λ event. is_appealed event.action)

-- `_event`, given the events that the repository holds for the case.
unfoldable pub make_event :
    Platform
    → Readings
    → ReviewCase
    → ReviewAction
    → String
    → Option ReviewerRole
    → Option ReviewState
    → String
    → List ReviewAuditEvent
    → ReviewAuditEvent
make_event p t c action actor_id actor_role from_state reason_code existing =
    let payload : AuditPayload = record {
      event_id = t.event_id;
      case_id = c.case_id;
      sequence = length existing + 1;
      action = action;
      actor_id = actor_id;
      actor_role = actor_role;
      from_state = from_state;
      to_state = c.state;
      reason_code = reason_code;
      occurred_at = t.occurred_at;
      previous_hash = expected_previous existing;
    } in
    record {
      event_id = payload.event_id;
      case_id = payload.case_id;
      sequence = payload.sequence;
      action = payload.action;
      actor_id = payload.actor_id;
      actor_role = payload.actor_role;
      from_state = payload.from_state;
      to_state = payload.to_state;
      reason_code = payload.reason_code;
      occurred_at = payload.occurred_at;
      previous_hash = payload.previous_hash;
      event_hash = audit_event_digest p payload;
    }

module _ {S : Type 0} (p : Platform) (repository : ReviewRepository S) where
  open repository use {
    get as stored, find_by_request_id, list_cases as stored_cases, audit as stored_events, commit,
  }

  -- `_event` and the commit that follows every call of it.
  unfoldable pub record_event :
      Readings
      → ReviewCase
      → ReviewAction
      → String
      → Option ReviewerRole
      → Option ReviewState
      → String
      → S
      → S
  record_event t c action actor_id actor_role from_state reason_code s = commit s c (
      make_event p t c action actor_id actor_role from_state reason_code
        (stored_events s c.case_id))

  abbrev pub require : ReviewPrincipal → (ReviewerRole → Bool) → Action ReviewError S (Unit {0})
  require principal roles =
      raise_if (not (roles principal.role)) (authorization "reviewer role is not authorized")

  -- `_get`
  unfoldable pub get_case : String → Action ReviewError S ReviewCase
  get_case case_id s = elim (stored s case_id) [
    | none ↦ (raised (not_found "review case not found"), s)
    | some c ↦ (ok c, s)
  ]

  unfoldable pub enqueue : Readings → ModerationResponse → Action ReviewError S (Option ReviewCase)
  enqueue t response s =
      if not (requires_review response)
      then (ok none, s)
      else elim (find_by_request_id s response.request_id) [
        | some existing ↦ (ok (some existing), s)
        | none ↦
            let c = new_case p t response in
            (
              ok (some c),
              record_event t c ReviewAction.created "system" none none "automated_review_required"
                  s,
            )
      ]

  unfoldable pub list_cases :
      ReviewPrincipal → Option ReviewState → Action ReviewError S (List ReviewCase)
  list_cases principal state = do require principal read_roles; gets (λ s. stored_cases s state)

  unfoldable pub backlog : S → List (ReviewState × ℕ)
  backlog s =
      let count = λ (state : ReviewState). length (stored_cases s (some state)) in
      (ReviewState.pending, count ReviewState.pending)
      ∷ (ReviewState.claimed, count ReviewState.claimed)
      ∷ (ReviewState.resolved, count ReviewState.resolved)
      ∷ (ReviewState.appealed, count ReviewState.appealed)
      ∷ []

  unfoldable pub get : String → ReviewPrincipal → Action ReviewError S ReviewCase
  get case_id principal = do require principal read_roles; get_case case_id

  unfoldable pub claim : Readings → String → ReviewPrincipal → Action ReviewError S ReviewCase
  claim t case_id principal = do
    require principal review_roles
    c ← get_case case_id
    raise_if
        (state_eq c.state ReviewState.appealed
          && not (role_eq principal.role ReviewerRole.senior_reviewer))
        (authorization "only a senior reviewer can claim an appeal")
    raise_if (not (state_eq c.state ReviewState.pending || state_eq c.state ReviewState.appealed))
        (from_state_error "claimed" c)
    let claimed : ReviewCase = record c {
      state = ReviewState.claimed;
      assigned_reviewer_id = some principal.reviewer_id;
      updated_at = t.updated_at;
    }
    modify (
        record_event t claimed ReviewAction.claimed principal.reviewer_id (some principal.role)
          (some c.state) "reviewer_claimed")
    pure claimed

  unfoldable pub decide :
      Readings → String → ReviewPrincipal → Decision → String → Action ReviewError S ReviewCase
  decide t case_id principal decision reason_code = do
    require principal review_roles
    raise_if (decision_eq decision Decision.review)
        (conflict "a human decision must be allow or block")
    c ← get_case case_id
    raise_if (not (state_eq c.state ReviewState.claimed)) (from_state_error "decided" c)
    raise_if (not (assigned_to c.assigned_reviewer_id principal.reviewer_id))
        (authorization "case is assigned to a different reviewer")
    events ← gets (λ s. stored_events s case_id)
    let is_appeal = was_appealed events
    raise_if (is_appeal && not (role_eq principal.role ReviewerRole.senior_reviewer))
        (authorization "only a senior reviewer can decide an appeal")
    let resolved : ReviewCase = record c {
      state = ReviewState.resolved;
      final_decision = some decision;
      decision_reason_code = some reason_code;
      updated_at = t.now;
      resolved_at = some t.now;
    }
    modify (
        record_event t resolved
          (if is_appeal then ReviewAction.appeal_decided else ReviewAction.decided)
          principal.reviewer_id (some principal.role) (some ReviewState.claimed) reason_code)
    pure resolved

  unfoldable pub appeal :
      Readings → String → ReviewPrincipal → String → Action ReviewError S ReviewCase
  appeal t case_id principal reason_code = do
    require principal review_roles
    c ← get_case case_id
    raise_if (not (state_eq c.state ReviewState.resolved)) (from_state_error "appealed" c)
    let appealed : ReviewCase = record c {
      state = ReviewState.appealed;
      assigned_reviewer_id = none;
      appeal_reason_code = some reason_code;
      updated_at = t.updated_at;
    }
    modify (
        record_event t appealed ReviewAction.appealed principal.reviewer_id (some principal.role)
          (some ReviewState.resolved) reason_code)
    pure appealed

  unfoldable pub audit : String → ReviewPrincipal → Action ReviewError S (List ReviewAuditEvent)
  audit case_id principal = do
    require principal read_roles
    get_case case_id
    gets (λ s. stored_events s case_id)

  -- One round of the loop of `export_feedback`: a case with an unset field is passed over.
  unfoldable pub feedback_of : S → ReviewCase → List FeedbackRecord → List FeedbackRecord
  feedback_of s c rest = elim c.final_decision [
    | none ↦ rest
    | some human_decision ↦ elim c.decision_reason_code [
      | none ↦ rest
      | some reason_code ↦ elim c.resolved_at [
        | none ↦ rest
        | some resolved_at ↦
            record {
              case_id = c.case_id;
              request_id = c.request_id;
              automated_decision = c.automated_decision;
              automated_risk_score = c.automated_risk_score;
              signal_categories = c.signal_categories;
              policy_version = c.policy_version;
              human_decision = human_decision;
              decision_reason_code = reason_code;
              resolved_at = resolved_at;
              appealed = was_appealed (stored_events s c.case_id);
            }
            ∷ rest
      ]
    ]
  ]

  unfoldable pub feedback_records : S → List ReviewCase → List FeedbackRecord
  unfolding feedback_of
  feedback_records s [] = []
  feedback_records s (c ∷ cs) = feedback_of s c (feedback_records s cs)

  unfoldable pub export_feedback : ReviewPrincipal → Action ReviewError S (List FeedbackRecord)
  export_feedback principal = do
    require principal auditor_only
    gets (λ s. feedback_records s (stored_cases s (some ReviewState.resolved)))
