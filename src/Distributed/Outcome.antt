-- ===== src/Distributed/Outcome.antt =====
-- The ends of `process`: a success and its redelivery, and an exception of the publisher.
use sentinel_content_safety.Base.{
  ◌≡◌, refl, sym, ap, ◌∙◌, String, Option, some, true, false, eq_iff, arith,
}
use sentinel_content_safety.Base.Action.{ok, raised, ◌>>=◌}
use sentinel_content_safety.Schemas.{
  ModerationRequest, ModerationResponse, StoredModerationJob, ModerationJobEvent, JobState,
  job_state_eq, Time,
}
use sentinel_content_safety.Distributed.Protocols.{JobStore, EventPublisher, Event, result}
use sentinel_content_safety.Distributed.Processor.{
  worker_event, publication_failed, Settings, Worker, as_processing, count, publish, save,
  publish_dlq, handle_failure, moderate_job, process,
}

module _ {S P : Type 0} (settings : Settings) (jobs : JobStore S) (publisher : EventPublisher P)
    (moderate : ModerationRequest → Option ModerationResponse) where
  abbrev Held : Worker S P → String → StoredModerationJob → Type 0
  Held w id j = jobs.get w.store id ≡ some j

  -- Two writes of a held job leave the second.
  pub get-save_twice :
      (s : S) (id : String) (old a b : StoredModerationJob)
      → jobs.get s id ≡ some old
      → a.job.job_id ≡ id
      → b.job.job_id ≡ id
      → jobs.get (jobs.save (jobs.save s a) b) id ≡ some b
  get-save_twice s id old a b held ea eb =
      let first : jobs.get (jobs.save s a) id ≡ some a =
        jobs.get-save s a id (rw ea (rw held refl)) ∙ rw ((eq_iff a.job.job_id id).1 ea) refl in
      jobs.get-save (jobs.save s a) b id (rw eb (rw first refl))
      ∙ rw ((eq_iff b.job.job_id id).1 eb) refl

  abbrev result_event : ModerationJobEvent → ModerationResponse → Event
  result_event event response = record {
    topic = settings.result_topic;
    key = event.job_id;
    payload = result response;
  }

  -- Where the call raises, nothing was stored after the publication.
  moderate_job-raised :
      (now : Time) (event : ModerationJobEvent) (j : StoredModerationJob) (w : Worker S P)
      → (moderate_job settings jobs publisher moderate now event j w).0 ≡ raised publication_failed
      → (moderate_job settings jobs publisher moderate now event j w).1.store ≡ w.store
  unfolding moderate_job handle_failure publish_dlq publish save ◌>>=◌
  moderate_job-raised now event j w e = ground arith

  module _ (now : Time) (event : ModerationJobEvent) (w : Worker S P) (j : StoredModerationJob)
      (held : jobs.get w.store event.job_id ≡ some j) (own : j.job.job_id ≡ event.job_id) where
    -- A job that has not succeeded is moderated, after it is stored as processing.
    pub process_open :
        job_state_eq j.job.state JobState.succeeded ≡ false
        → process settings jobs publisher moderate now event w
          ≡ moderate_job settings jobs publisher moderate now event
              (as_processing now event j)
              (record w { store = jobs.save w.store (as_processing now event j) })
    unfolding process save ◌>>=◌
    process_open unfinished = rw (held, process) (rw unfinished refl)

    -- The event of a succeeded job is skipped: only the counter moves.
    process_done :
        job_state_eq j.job.state JobState.succeeded ≡ true
        → process settings jobs publisher moderate now event w
          ≡ (ok tt, count (worker_event "duplicate_skipped") w)
    unfolding process
    process_done finished = rw (held, process) (rw finished refl)

    -- A publication that the broker refuses raises out of `process`, so that the event is delivered
    -- again; the job then stands as processing, at the attempt of the event, with no result added.
    pub interrupted_is_processing :
        job_state_eq j.job.state JobState.succeeded ≡ false
        → (process settings jobs publisher moderate now event w).0 ≡ raised publication_failed
        → jobs.get (process settings jobs publisher moderate now event w).1.store event.job_id
          ≡ some (as_processing now event j)
    interrupted_is_processing unfinished interrupted =
        let opened = process_open unfinished in
        ap (λ r. jobs.get r.1.store event.job_id) opened
        ∙ ap (λ s. jobs.get s event.job_id)
            (moderate_job-raised now event _ _ (sym (ap (λ r. r.0) opened) ∙ interrupted))
        ∙ jobs.get-save w.store (as_processing now event j) event.job_id (rw own (rw held refl))
        ∙ rw ((eq_iff j.job.job_id event.job_id).1 own) refl
