-- ===== src/Api/Reviews.antt =====
-- src/sentinel/api/reviews.py: the handlers of the review workflow.
use sentinel_content_safety.Base.{
  ℕ, ◌-◌, String, Bool, true, false, not, ◌||◌, Option, none, some, List, [], ◌∷◌, ◌==◌,
  if◌then◌else◌,
}
use sentinel_content_safety.Base.Action.{Result, ok, raised, Action, pure, modify, ◌>>=◌, ◌>>◌}
use sentinel_content_safety.Base.Dict.{Dict}
use sentinel_content_safety.Schemas.{Decision}
use sentinel_content_safety.Core.Trie.{Text, text_eq}
use sentinel_content_safety.Review.Models.{
  ReviewState, state_value, ReviewPrincipal, ReviewCase, ReviewAuditEvent, FeedbackRecord,
  ReviewError, not_found, conflict, authorization, Platform,
}
use sentinel_content_safety.Review.Repository.{ReviewRepository}
use sentinel_content_safety.Review.Service.{Readings}
use sentinel_content_safety.Review.Service
use sentinel_content_safety.Review.Auth.{authenticate}
use sentinel_content_safety.Observability.Metrics.{
  Prometheus, record_review_event, review_backlog, review_resolution_duration,
}
use sentinel_content_safety.Api.Http.{
  HttpError, http, uncaught, Served, ReviewApp, Texts, catching, on_repository, returns,
}

-- `_components`
unfoldable pub components :
    {S : Type 0} → ReviewApp S → Result HttpError (ReviewRepository S × Dict ReviewPrincipal)
components app = elim app.review_service [
  | none ↦ raised (http 503 "human review is not enabled")
  | some service ↦ elim app.review_authorizer [
    | none ↦ raised (http 503 "human review is not enabled")
    | some authorizer ↦ ok (service, authorizer)
  ]
]

-- `str.partition(" ")`, as what stands before the first space and, if there is one, what follows.
unfoldable pub partition : Text → Text × Option Text
partition [] = ([], none)
partition (c ∷ text) =
    let (scheme, rest) = partition text in if c == b' ' then ([], some text) else (c ∷ scheme, rest)

abbrev pub bearer : Text
bearer = b'b' ∷ b'e' ∷ b'a' ∷ b'r' ∷ b'e' ∷ b'r' ∷ []

abbrev pub is_empty : Text → Bool
is_empty [] = true
is_empty (_ ∷ _) = false

abbrev pub token_required : Result HttpError ReviewPrincipal
token_required = raised (http 401 "reviewer bearer token is required")

abbrev pub unauthorized : Result ReviewError ReviewPrincipal → Result HttpError ReviewPrincipal
unauthorized (ok p) = ok p
unauthorized (raised (authorization detail)) = raised (http 401 detail)
unauthorized (raised e) = raised (uncaught e)

-- `_principal`, of the header Authorization, which is empty where it was not sent.
unfoldable pub principal_of : Texts → Text → Dict ReviewPrincipal → Result HttpError ReviewPrincipal
unfolding partition
principal_of t header authorizer =
    let (scheme, rest) = partition header in
    elim rest [
      | none ↦ token_required
      | some token ↦
          if not (text_eq (t.lower scheme) bearer) || is_empty token
          then token_required
          else unauthorized (authenticate t.sha256 authorizer (t.string_of token))
    ]

-- What the handlers begin with: the components and the principal of the request.
unfoldable pub authorized :
    {S : Type 0}
    → Texts
    → ReviewApp S
    → Text
    → Result HttpError (ReviewRepository S × ReviewPrincipal)
authorized texts app header = elim (components app) [
  | raised e ↦ raised e
  | ok (service, authorizer) ↦ elim (principal_of texts header authorizer) [
    | raised e ↦ raised e
    | ok principal ↦ ok (service, principal)
  ]
]

-- `_translate`
unfoldable pub translate : ReviewError → HttpError
translate (not_found detail) = http 404 detail
translate (conflict detail) = http 409 detail
translate (authorization detail) = http 403 detail

pub record ReviewDecisionRequest : Type 0 where
  pub decision : Decision
  pub reason_code : String

pub record ReviewAppealRequest : Type 0 where
  pub reason_code : String

abbrev pub seconds_between : Option ℕ → ℕ → Option ℕ
seconds_between none created_at = none
seconds_between (some resolved_at) created_at = some (resolved_at - created_at)

module _ {R : Type 0} (prometheus : Prometheus R) where
  open prometheus use {set, observe}

  -- The loop that sets the gauges of the backlog.
  unfoldable pub set_backlog : List (ReviewState × ℕ) → R → R
  set_backlog [] r = r
  set_backlog ((state, count) ∷ rest) r =
      set_backlog rest (set r review_backlog (state_value state ∷ []) count)

  -- The observation at the end of `decide_review_case`, in microseconds.
  unfoldable pub observe_resolution : ReviewCase → R → R
  observe_resolution c r = elim (seconds_between c.resolved_at c.created_at) [
    | none ↦ r
    | some duration ↦ observe r review_resolution_duration [] duration
  ]

abbrev pub on_registry : {S R : Type 0} → (R → R) → Action HttpError (Served S R) (Unit {0})
on_registry f = modify λ s. record s { registry = f s.registry }

module _ {S R : Type 0} (p : Platform) (prometheus : Prometheus R) (texts : Texts)
    (app : ReviewApp S) where
  -- `_refresh_backlog`
  unfoldable pub refresh_backlog :
      ReviewRepository S → ReviewPrincipal → Action ReviewError (Served S R) (Unit {0})
  refresh_backlog service principal = do
    on_repository (Service.list_cases p service principal none)
    modify λ s. record s {
      registry = set_backlog prometheus (Service.backlog p service s.repository) s.registry;
    }

  -- `raise _translate(error)`
  abbrev pub fail : {A : Type 0} → ReviewError → Action HttpError (Served S R) A
  fail error s = (raised (translate error), s)

  -- What follows `except` in the handlers that count their failures.
  abbrev pub count_failure : {A : Type 0} → String → ReviewError → Action HttpError (Served S R) A
  count_failure action error s = (
    raised (translate error),
    record s { registry = record_review_event prometheus action "failed" s.registry },
  )

  -- `try` around a call of the service and the refresh that follows it.
  abbrev pub call_and_refresh :
      ReviewRepository S
      → ReviewPrincipal
      → Action ReviewError S ReviewCase
      → Action ReviewError (Served S R) ReviewCase
  call_and_refresh service principal call = do
    c ← on_repository call
    refresh_backlog service principal
    pure c

  unfoldable pub claim_review_case :
      Readings → String → Text → Action HttpError (Served S R) ReviewCase
  claim_review_case t case_id header = do
    (service, principal) ← returns (authorized texts app header)
    c ←
        catching (call_and_refresh service principal (Service.claim p service t case_id principal))
          (count_failure "claimed")
    on_registry (record_review_event prometheus "claimed" "success")
    pure c

  unfoldable pub decide_review_case :
      Readings → String → ReviewDecisionRequest → Text → Action HttpError (Served S R) ReviewCase
  decide_review_case t case_id payload header = do
    (service, principal) ← returns (authorized texts app header)
    c ←
        catching
          (call_and_refresh service principal
            (Service.decide p service t case_id principal payload.decision payload.reason_code))
          (count_failure "decided")
    on_registry (record_review_event prometheus "decided" "success")
    on_registry (observe_resolution prometheus c)
    pure c

  unfoldable pub appeal_review_case :
      Readings → String → ReviewAppealRequest → Text → Action HttpError (Served S R) ReviewCase
  appeal_review_case t case_id payload header = do
    (service, principal) ← returns (authorized texts app header)
    c ←
        catching
          (call_and_refresh service principal
            (Service.appeal p service t case_id principal payload.reason_code))
          (count_failure "appealed")
    on_registry (record_review_event prometheus "appealed" "success")
    pure c

  unfoldable pub export_review_feedback : Text → Action HttpError (Served S R) (List FeedbackRecord)
  export_review_feedback header = do
    (service, principal) ← returns (authorized texts app header)
    export ← catching (on_repository (Service.export_feedback p service principal)) fail
    on_registry (record_review_event prometheus "feedback_exported" "success")
    pure export

  -- Handlers that catch only some exceptions pass the others on.
  abbrev pub fail_authorization : {A : Type 0} → ReviewError → Action HttpError (Served S R) A
  fail_authorization (authorization detail) s = (raised (translate (authorization detail)), s)
  fail_authorization error s = (raised (uncaught error), s)

  abbrev pub fail_read : {A : Type 0} → ReviewError → Action HttpError (Served S R) A
  fail_read (conflict detail) s = (raised (uncaught (conflict detail)), s)
  fail_read error s = (raised (translate error), s)

  unfoldable pub list_review_cases :
      Option ReviewState → Text → Action HttpError (Served S R) (List ReviewCase)
  list_review_cases state header = do
    (service, principal) ← returns (authorized texts app header)
    catching
        (do
          cases ← on_repository (Service.list_cases p service principal state)
          refresh_backlog service principal
          pure cases)
        fail_authorization

  unfoldable pub get_review_case : String → Text → Action HttpError (Served S R) ReviewCase
  get_review_case case_id header = do
    (service, principal) ← returns (authorized texts app header)
    catching (on_repository (Service.get p service case_id principal)) fail_read

  unfoldable pub get_review_audit :
      String → Text → Action HttpError (Served S R) (List ReviewAuditEvent)
  get_review_audit case_id header = do
    (service, principal) ← returns (authorized texts app header)
    catching (on_repository (Service.audit p service case_id principal)) fail_read
