-- ===== src/Api/Routes.antt =====
-- src/sentinel/api/routes.py: the handlers of moderation, at once and as jobs, and of the health of
-- the service. The text engine and its state are parameters of the handlers that use it.
use sentinel_content_safety.Base.{
  ℕ, String, Bool, not, Option, none, some, List, [], ◌∷◌, if◌then◌else◌,
}
use sentinel_content_safety.Base.Action.{Result, ok, raised, Action, pure, modify, ◌>>=◌, ◌>>◌}
use sentinel_content_safety.Schemas.{
  Decision, ModerationRequest, ModerationResponse, ModerationJob, Time,
}
use sentinel_content_safety.Review.Models.{ReviewCase, Platform}
use sentinel_content_safety.Review.Repository.{ReviewRepository}
use sentinel_content_safety.Review.Service.{Readings, backlog}
use sentinel_content_safety.Review.Service
use sentinel_content_safety.Multimodal.Image.{too_large, unsupported, invalid}
use sentinel_content_safety.Multimodal.Engine.{
  MultimodalModerationRequest, MultimodalModerationResponse, ImageSafetyModel, FusionError,
  image_error,
}
use sentinel_content_safety.Multimodal.Engine
use sentinel_content_safety.Distributed.Protocols.{
  JobStore, EventPublisher, ServiceError, idempotency_conflict, queue_unavailable,
}
use sentinel_content_safety.Distributed.Service.{
  Naming, Pipeline, submit, status, Readings as JobReadings,
}
use sentinel_content_safety.Observability.Metrics.{
  Prometheus, moderation_duration, record_decision, record_review_event, record_submission,
}
use sentinel_content_safety.Api.Http.{
  HttpError, http, uncaught, unhandled, Served, catching, on_repository,
}
use sentinel_content_safety.Api.Reviews.{set_backlog, on_registry}

pub record HealthResponse : Type 0 where
  pub status : String
  pub service : String
  pub version : String

abbrev pub health : HealthResponse
health = record { status = "ok"; service = "sentinel-api"; version = "0.1.0" }

-- `readiness`, of the flag that the start of the application sets.
abbrev pub readiness : Bool → Result HttpError String
readiness ready = if not ready then raised (http 503 "service is not ready") else ok "ready"

abbrev pub decision_value : Decision → String
decision_value Decision.allow = "allow"
decision_value Decision.review = "review"
decision_value Decision.block = "block"

-- A multimodal response as the response that it extends.
abbrev pub as_response : MultimodalModerationResponse → ModerationResponse
as_response m = record {
  request_id = m.request_id;
  decision = m.decision;
  risk_score = m.risk_score;
  signals = m.signals;
  policy_version = m.policy_version;
  evaluated_at = m.evaluated_at;
}

-- What the handler of images makes of the errors of the multimodal engine.
abbrev pub image_status : FusionError → HttpError
image_status (image_error (too_large detail)) = http 413 detail
image_status (image_error (unsupported detail)) = http 415 detail
image_status (image_error (invalid detail)) = http 422 detail
image_status _ = unhandled

module _ {S R : Type 0} (p : Platform) (prometheus : Prometheus R) where
  -- What follows where `enqueue` gives a case.
  unfoldable pub announce :
      ReviewRepository S → Option ReviewCase → Action HttpError (Served S R) (Unit {0})
  announce service none = pure tt
  announce service (some c) = do
    on_registry (record_review_event prometheus "enqueued" "success")
    modify λ s. record s {
      registry = set_backlog prometheus (backlog p service s.repository) s.registry;
    }

  -- The part of both handlers after the engine has answered.
  unfoldable pub enqueue_response :
      Option (ReviewRepository S)
      → Readings
      → ModerationResponse
      → Action HttpError (Served S R) (Unit {0})
  enqueue_response none t response = pure tt
  enqueue_response (some service) t response = do
    found ←
        catching (on_repository (Service.enqueue p service t response))
          (λ error s. (raised (uncaught error), s))
    announce service found

  unfoldable pub answered :
      {A : Type 0}
      → Option (ReviewRepository S)
      → Readings
      → String
      → ℕ
      → A
      → ModerationResponse
      → Action HttpError (Served S R) A
  answered review_service t path duration answer response = do
    on_registry (λ r. prometheus.observe r moderation_duration (path ∷ []) duration)
    on_registry (record_decision prometheus (decision_value response.decision) path)
    enqueue_response review_service t response
    pure answer

  -- `moderate_text`, with the state of the text engine.
  unfoldable pub moderate_text :
      {T : Type 0}
      → (ModerationRequest → T → Option (ModerationResponse × T))
      → Option (ReviewRepository S)
      → Readings
      → ℕ
      → ModerationRequest
      → T
      → Served S R
      → (Result HttpError ModerationResponse × Served S R) × T
  unfolding answered enqueue_response announce
  moderate_text text_engine review_service t duration payload store s =
      elim (text_engine payload store) [
        | none ↦ ((raised unhandled, s), store)
        | some (response, store') ↦
            (answered review_service t "synchronous" duration response response s, store')
      ]

  -- `moderate_multimodal`
  unfoldable pub moderate_multimodal :
      {T : Type 0}
      → (String → Option (List ℕ))
      → (ModerationRequest → T → Option (ModerationResponse × T))
      → Option ImageSafetyModel
      → String
      → Time
      → Option (ReviewRepository S)
      → Readings
      → ℕ
      → MultimodalModerationRequest
      → T
      → Served S R
      → (Result HttpError MultimodalModerationResponse × Served S R) × T
  unfolding answered enqueue_response announce
  moderate_multimodal b64decode text_engine none uuid4 now review_service t duration payload store
        s =
      ((raised (http 503 "image moderation is not enabled"), s), store)
  moderate_multimodal b64decode text_engine (some model) uuid4 now review_service t duration payload
        store s =
      let (result, store') = Engine.moderate b64decode text_engine model uuid4 now payload store in
      elim result [
        | Engine.raised e ↦ ((raised (image_status e), s), store')
        | Engine.ok response ↦ (
          answered review_service t "multimodal" duration response (as_response response) s,
          store',
        )
      ]

-- The state of the job routes: the jobs and the broker, and the metrics.
pub record JobsServed (S P R : Type 0) : Type 0 where
  pub pipeline : Pipeline S P
  pub registry : R

-- What `submit_moderation_job` makes of an error of the service: the outcome that it counts, and the
-- response.
abbrev pub submission_outcome : ServiceError → String
submission_outcome (idempotency_conflict _) = "idempotency_conflict"
submission_outcome (queue_unavailable _) = "queue_unavailable"

abbrev pub submission_error : ServiceError → HttpError
submission_error (idempotency_conflict _) =
    http 409 "request_id was already used with different content"
submission_error (queue_unavailable _) = http 503 "moderation queue is unavailable"

module _ {S P R : Type 0} (prometheus : Prometheus R) (n : Naming) (input_topic : String) where
  -- The end of `submit_moderation_job`, given what the service did.
  unfoldable pub submitted :
      Result ServiceError ModerationJob × Pipeline S P
      → R
      → Result HttpError ModerationJob × JobsServed S P R
  submitted (ok job, pipeline) r =
      (ok job, record { pipeline = pipeline; registry = record_submission prometheus "accepted" r })
  submitted (raised e, pipeline) r = (
    raised (submission_error e),
    record {
      pipeline = pipeline;
      registry = record_submission prometheus (submission_outcome e) r;
    },
  )

  unfoldable pub submit_moderation_job :
      Option (JobStore S × EventPublisher P)
      → JobReadings
      → ModerationRequest
      → Action HttpError (JobsServed S P R) ModerationJob
  unfolding submitted
  submit_moderation_job none t payload s = (
    raised (http 503 "distributed moderation is not enabled"),
    record s { registry = record_submission prometheus "disabled" s.registry },
  )
  submit_moderation_job (some (jobs, publisher)) t payload s =
      submitted (submit jobs publisher input_topic n t payload s.pipeline) s.registry

  unfoldable pub get_moderation_job :
      Option (JobStore S × EventPublisher P)
      → String
      → JobsServed S P R
      → Result HttpError ModerationJob
  get_moderation_job none job_id s = raised (http 503 "distributed moderation is not enabled")
  get_moderation_job (some (jobs, publisher)) job_id s =
      elim (status jobs publisher input_topic job_id s.pipeline) [
        | none ↦ raised (http 404 "job not found")
        | some job ↦ ok job
      ]
