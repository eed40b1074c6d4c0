-- ===== src/Distributed/Processor.antt =====
-- `ModerationEventProcessor` of src/sentinel/distributed/processor.py, over any store, publisher and
-- moderation engine. An exception of the publisher leaves the loop of the worker, so that the offset
-- of the event is not committed.
use sentinel_content_safety.Base.{
  ℕ, ◌+◌, String, Option, none, some, List, [], ◌∷◌, ◌++◌, ltb, if◌then◌else◌,
}
use sentinel_content_safety.Base.Action.{ok, raised, Action, ◌>>◌, modify}
use sentinel_content_safety.Schemas.{
  Decision, ModerationRequest, ModerationResponse, StoredModerationJob, ModerationJobEvent,
  JobState, job_state_eq, Time,
}
use sentinel_content_safety.Distributed.Protocols.{
  JobStore, EventPublisher, Event, job_event, result, dead_letter,
}

-- The counters of `SentinelMetrics` that a worker increments.
pub data Metric : Type 0 where
  worker_event : String → Metric
  terminal_job : String → String → Metric
  decision : Decision → String → Metric
  moderation_duration : String → Metric

pub data WorkerError : Type 0 where
  publication_failed : WorkerError

pub record Settings : Type 0 where
  pub retry_topic : String
  pub result_topic : String
  pub dlq_topic : String
  pub max_attempts : ℕ

pub record Worker (S P : Type 0) : Type 0 where
  pub store : S
  pub broker : P
  pub metrics : Option (List Metric)

-- `_with_job_update`, for each of its calls.
abbrev pub as_processing : Time → ModerationJobEvent → StoredModerationJob → StoredModerationJob
as_processing now event j = record j {
  job = record j.job {
    state = JobState.processing;
    attempt = event.attempt;
    error_code = none;
    updated_at = now;
  };
}

abbrev pub as_succeeded :
    Time → ModerationJobEvent → ModerationResponse → StoredModerationJob → StoredModerationJob
as_succeeded now event response j = record j {
  job = record j.job {
    state = JobState.succeeded;
    attempt = event.attempt;
    result = some response;
    error_code = none;
    updated_at = now;
  };
}

abbrev pub as_retrying : Time → ℕ → StoredModerationJob → StoredModerationJob
as_retrying now attempt j = record j {
  job = record j.job {
    state = JobState.accepted;
    attempt = attempt;
    error_code = some "processing_retry_scheduled";
    updated_at = now;
  };
}

abbrev pub as_exhausted : Time → ModerationJobEvent → StoredModerationJob → StoredModerationJob
as_exhausted now event j = record j {
  job = record j.job {
    state = JobState.failed;
    attempt = event.attempt;
    error_code = some "processing_attempts_exhausted";
    updated_at = now;
  };
}

-- One counter, if metrics are on.
abbrev pub count : {S P : Type 0} → Metric → Worker S P → Worker S P
count m w = record w { metrics = elim w.metrics [ none ↦ none | some ms ↦ some (ms ++ m ∷ []) ] }

module _ {S P : Type 0} (settings : Settings) (jobs : JobStore S) (publisher : EventPublisher P)
    (moderate : ModerationRequest → Option ModerationResponse) where
  unfoldable pub publish : Event → Action WorkerError (Worker S P) (Unit {0})
  publish e w =
      let (acknowledged, broker') = publisher.publish w.broker e in
      let w' : Worker S P = record w { broker = broker' } in
      if acknowledged then (ok tt, w') else (raised publication_failed, w')

  unfoldable pub save : StoredModerationJob → Worker S P → Worker S P
  save j w = record w { store = jobs.save w.store j }

  unfoldable pub publish_dlq :
      ModerationJobEvent → String → Action WorkerError (Worker S P) (Unit {0})
  publish_dlq event error_code = publish (record {
    topic = settings.dlq_topic;
    key = event.job_id;
    payload = dead_letter event.job_id event.request.request_id event.attempt error_code;
  })

  -- `_handle_failure`
  unfoldable pub handle_failure :
      Time → ModerationJobEvent → StoredModerationJob → Action WorkerError (Worker S P) (Unit {0})
  handle_failure now event stored_job =
      let next_attempt = event.attempt + 1 in
      if ltb next_attempt settings.max_attempts
      then (do
        publish (record {
          topic = settings.retry_topic;
          key = event.job_id;
          payload = job_event (record event { attempt = next_attempt });
        })
        modify (save (as_retrying now next_attempt stored_job))
        modify (count (worker_event "retry_scheduled")))
      else (do
        publish_dlq event "processing_attempts_exhausted"
        modify (save (as_exhausted now event stored_job))
        modify (count (worker_event "dlq"))
        modify (count (terminal_job "failed" "processing_attempts_exhausted")))

  -- The `try` of `process`, with its `except` and `finally`, and what follows a success.
  unfoldable pub moderate_job :
      Time → ModerationJobEvent → StoredModerationJob → Action WorkerError (Worker S P) (Unit {0})
  moderate_job now event processing w = elim (moderate event.request) [
    | none ↦
        let (r, w') = handle_failure now event processing w in
        (r, count (moderation_duration "worker") w')
    | some response ↦
        (do
          modify (count (moderation_duration "worker"))
          publish (record {
            topic = settings.result_topic;
            key = event.job_id;
            payload = result response;
          })
          modify (save (as_succeeded now event response processing))
          modify (count (decision response.decision "worker"))
          modify (count (worker_event "succeeded"))
          modify (count (terminal_job "succeeded" "none")))
          w
  ]

  unfoldable pub process : Time → ModerationJobEvent → Action WorkerError (Worker S P) (Unit {0})
  process now event w = elim (jobs.get w.store event.job_id) [
    | none ↦
        (do
          publish_dlq event "missing_job_state"
          modify (count (worker_event "missing_job_state"))
          modify (count (terminal_job "failed" "missing_job_state")))
          w
    | some stored_job ↦
        if job_state_eq stored_job.job.state JobState.succeeded
        then (ok tt, count (worker_event "duplicate_skipped") w)
        else (do
          modify (save (as_processing now event stored_job))
          moderate_job now event (as_processing now event stored_job))
            w
  ]
