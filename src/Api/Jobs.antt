-- ===== src/Api/Jobs.antt =====
-- What the routes of jobs make of the job service, and what they count.
use sentinel_content_safety.Base.{
  Bool, true, false, str_eq, Bool-cases, inl, inr, is_some, ◌==◌, if◌then◌else◌, ℕ, ◌+◌, ◌≡◌, sym,
  ap, ◌∙◌, String, Option, none, some, [], ◌∷◌, arith,
}
use sentinel_content_safety.Base.Action.{Result, ok, raised}
use sentinel_content_safety.Schemas.{ModerationRequest, ModerationJob}
use sentinel_content_safety.Distributed.Protocols.{
  JobStore, EventPublisher, ServiceError, idempotency_conflict, queue_unavailable,
}
use sentinel_content_safety.Distributed.Service.{
  Naming, Readings, Pipeline, submit, status, job_id_of, or_new,
}
use sentinel_content_safety.Distributed.Idempotency.{Keeps, submit-Keeps, IsKeyed}
use sentinel_content_safety.Observability.Metrics.{Prometheus, job_submissions, record_submission}
use sentinel_content_safety.Api.Http.{HttpError, http, uncaught, unhandled}
use sentinel_content_safety.Api.Routes.{
  JobsServed, submitted, submit_moderation_job, get_moderation_job,
}

-- The outcome of a submission, by whether the service is on and what was answered.
abbrev pub outcome_of : Bool → Result HttpError ModerationJob → String
outcome_of false answer = "disabled"
outcome_of true (ok job) = "accepted"
outcome_of true (raised (http status detail)) =
    if status == 409 then "idempotency_conflict" else "queue_unavailable"
outcome_of true (raised (uncaught e)) = "none"
outcome_of true (raised unhandled) = "none"

module _ {R : Type 0} (prometheus : Prometheus R) where
  open prometheus use {value, value-inc}

  -- The submissions that were counted under an outcome.
  abbrev pub submissions : R → String → ℕ
  submissions r outcome = value r job_submissions (outcome ∷ [])

  record_submission-counted :
      (r : R) (counted outcome : String)
      → submissions (record_submission prometheus counted r) outcome
        ≡ submissions r outcome + (if str_eq counted outcome then 1 else 0)
  unfolding record_submission
  record_submission-counted r counted outcome =
      let e = value-inc r job_submissions job_submissions (counted ∷ []) (outcome ∷ []) in
      elim (Bool-cases (str_eq counted outcome)) [
        | inl own ↦ rw own (rw own at e)
        | inr other ↦ rw other (rw other at e ∙ omega arith)
      ]

module _ {S P R : Type 0} (prometheus : Prometheus R) (n : Naming) (topic : String) (t : Readings)
    (payload : ModerationRequest) where
  -- Just the counter of the outcome moves, and by one.
  abbrev pub Counts : Bool → R → Result HttpError ModerationJob × JobsServed S P R → Type 0
  Counts on before (answer, after) =
      (outcome : String)
      → submissions prometheus after.registry outcome
        ≡ submissions prometheus before outcome
          + (if str_eq (outcome_of on answer) outcome then 1 else 0)

  -- An answered job is the one that asking for its identifier then gives.
  abbrev pub IsReadable :
      Option (JobStore S × EventPublisher P)
      → Result HttpError ModerationJob × JobsServed S P R
      → Type 0
  IsReadable service (ok job, after) =
      get_moderation_job prometheus n topic service job.job_id after ≡ ok job
  IsReadable service (raised e, after) = Unit {0}

  -- Every job is held under its own identifier, if the service is on.
  abbrev pub IsKeyedService : Option (JobStore S × EventPublisher P) → Pipeline S P → Type 0
  IsKeyedService none pipeline = Unit {0}
  IsKeyedService (some (jobs, publisher)) pipeline = IsKeyed jobs publisher topic n pipeline.store

  submitted-counted :
      (out : Result ServiceError ModerationJob × Pipeline S P) (r : R)
      → Counts true r (submitted prometheus n topic out r)
  unfolding submitted
  submitted-counted (ok job, u) r outcome = record_submission-counted prometheus r _ outcome
  submitted-counted (raised (idempotency_conflict _), u) r outcome =
      record_submission-counted prometheus r _ outcome
  submitted-counted (raised (queue_unavailable _), u) r outcome =
      record_submission-counted prometheus r _ outcome

  submitted-IsReadable :
      (jobs : JobStore S) (publisher : EventPublisher P)
      (out : Result ServiceError ModerationJob × Pipeline S P) (r : R)
      → Keeps jobs publisher topic n t payload out
      → IsReadable (some (jobs, publisher)) (submitted prometheus n topic out r)
  unfolding submitted get_moderation_job status
  submitted-IsReadable jobs publisher (raised error, u) r kept = tt
  submitted-IsReadable jobs publisher (ok job, u) r (kept, held, same, _, _, own) =
      let id : job.job_id ≡ job_id_of n (or_new payload.request_id t.uuid4) =
        sym (ap (λ (j : ModerationJob). j.job_id) same) ∙ own in
      let found : jobs.get u.store job.job_id ≡ some kept = ap (jobs.get u.store) id ∙ held in
      rw (found, get_moderation_job, status) (ap ok same)

  -- Each submission, whether the service is on or off and whatever is answered, is counted once, under
  -- the outcome of the answer: disabled where the service is off, accepted where the answer is a job,
  -- a conflict where it is 409, and else an unavailable queue. Where every job is held under its own
  -- identifier, asking for an answered job gives that job.
  pub submit_moderation_job-IsReadable :
      (service : Option (JobStore S × EventPublisher P)) (s : JobsServed S P R)
      → IsKeyedService service s.pipeline
      → let after = submit_moderation_job prometheus n topic service t payload s in
        Counts (is_some service) s.registry after × IsReadable service after
  unfolding submit_moderation_job
  submit_moderation_job-IsReadable none s keyed =
      ((λ outcome. record_submission-counted prometheus s.registry _ outcome), tt)
  submit_moderation_job-IsReadable (some (jobs, publisher)) s keyed =
      let out = submit jobs publisher topic n t payload s.pipeline in
      (
        submitted-counted out s.registry,
        submitted-IsReadable jobs publisher out s.registry
            (submit-Keeps jobs publisher topic n t payload s.pipeline keyed),
      )
