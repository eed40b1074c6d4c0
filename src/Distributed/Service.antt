-- ===== src/Distributed/Service.antt =====
-- `DistributedModerationService` of src/sentinel/distributed/service.py, over any store and any
-- publisher.
use Prim.Native.String.{◌++◌ as str_append}
use sentinel_content_safety.Base.{
  String, Option, none, some, Bool, false, not, ◌&&◌, str_eq, if◌then◌else◌,
}
use sentinel_content_safety.Base.Action.{ok, raised, Action, ◌>>◌, pure, modify}
use sentinel_content_safety.Schemas.{
  ModerationRequest, ModerationJob, StoredModerationJob, ModerationJobEvent, JobState, job_state_eq,
  Time,
}
use sentinel_content_safety.Distributed.Protocols.{
  JobStore, EventPublisher, job_event, ServiceError, idempotency_conflict, queue_unavailable,
}

-- SHA-256, the JSON text of a request, and UUID5 names.
pub record Naming : Type 0 where
  pub sha256 : String → String
  pub dump_json : ModerationRequest → String
  pub uuid5 : String → String

-- What one call reads from `uuid4` and from the clock.
pub record Readings : Type 0 where
  pub uuid4 : String
  pub now : Time
  pub later : Time

unfoldable pub fingerprint : Naming → ModerationRequest → String
fingerprint n request = n.sha256 (n.dump_json request)

-- `request.request_id or str(uuid4())`
abbrev pub or_new : Option String → String → String
or_new none new = new
or_new (some id) new = if str_eq id "" then new else id

abbrev pub job_id_of : Naming → String → String
job_id_of n request_id = n.uuid5 (str_append "sentinel:" request_id)

abbrev pub normalized : Readings → ModerationRequest → ModerationRequest
normalized t request = record request { request_id = some (or_new request.request_id t.uuid4) }

unfoldable pub new_job : Naming → Readings → ModerationRequest → StoredModerationJob
new_job n t request =
    let request_id = or_new request.request_id t.uuid4 in
    record {
      job = record {
        job_id = job_id_of n request_id;
        request_id = request_id;
        state = JobState.accepted;
        attempt = 0;
        result = none;
        error_code = none;
        created_at = t.now;
        updated_at = t.now;
      };
      request_fingerprint = fingerprint n (normalized t request);
    }

abbrev pub new_event : Naming → Readings → ModerationRequest → ModerationJobEvent
new_event n t request = record {
  job_id = job_id_of n (or_new request.request_id t.uuid4);
  request = normalized t request;
  attempt = 0;
}

abbrev pub code_is : Option String → String → Bool
code_is none code = false
code_is (some c) code = str_eq c code

-- The job is known only because its event never reached the broker.
abbrev pub awaits_publication : ModerationJob → Bool
awaits_publication job =
    job_state_eq job.state JobState.failed && code_is job.error_code "queue_publish_failed"

abbrev pub as_failed : Time → StoredModerationJob → StoredModerationJob
as_failed now j = record j {
  job = record j.job {
    state = JobState.failed;
    error_code = some "queue_publish_failed";
    updated_at = now;
  };
}

abbrev pub as_accepted : Time → StoredModerationJob → StoredModerationJob
as_accepted now j = record j {
  job = record j.job { state = JobState.accepted; error_code = none; updated_at = now };
}

pub record Pipeline (S P : Type 0) : Type 0 where
  pub store : S
  pub broker : P

module _ {S P : Type 0} (jobs : JobStore S) (publisher : EventPublisher P)
    (input_topic : String) where
  -- `_publish_or_fail`
  unfoldable pub publish_or_fail :
      Time
      → StoredModerationJob
      → ModerationJobEvent
      → Action ServiceError (Pipeline S P) (Unit {0})
  publish_or_fail now j event s =
      let (acknowledged, broker') =
        publisher.publish s.broker
          (record { topic = input_topic; key = event.job_id; payload = job_event event }) in
      if acknowledged then (ok tt, record s { broker = broker' }) else (
        raised (queue_unavailable "broker did not acknowledge moderation job"),
        record { store = jobs.save s.store (as_failed now j); broker = broker' },
      )

  -- The part of `submit` for a request identifier that is taken.
  unfoldable pub resubmit :
      Naming
      → Readings
      → ModerationRequest
      → StoredModerationJob
      → Action ServiceError (Pipeline S P) ModerationJob
  resubmit n t request existing =
      let request_id = or_new request.request_id t.uuid4 in
      if not (str_eq existing.request_fingerprint (fingerprint n (normalized t request)))
      then (λ s. (raised (idempotency_conflict request_id), s))
      else if awaits_publication existing.job
      then (do
        publish_or_fail t.later existing (new_event n t request)
        modify (λ s. record s { store = jobs.save s.store (as_accepted t.later existing) })
        pure (as_accepted t.later existing).job)
      else pure existing.job

  unfoldable pub submit :
      Naming → Readings → ModerationRequest → Action ServiceError (Pipeline S P) ModerationJob
  submit n t request s =
      let j = new_job n t request in
      let (created, store') = jobs.create s.store j in
      let s' : Pipeline S P = record s { store = store' } in
      if not created
      then (elim (jobs.get store' j.job.job_id) [
        | none ↦ (raised (queue_unavailable "job state disappeared during idempotency check"), s')
        | some existing ↦ resubmit n t request existing s'
      ])
      else (do publish_or_fail t.later j (new_event n t request); pure j.job) s'

  -- `get`
  unfoldable pub status : String → Pipeline S P → Option ModerationJob
  status job_id s = elim (jobs.get s.store job_id) [ none ↦ none | some j ↦ some j.job ]
