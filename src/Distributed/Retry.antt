-- ===== src/Distributed/Retry.antt =====
-- A job whose moderation always fails: its retries end, and how. The worker is followed over a
-- publisher that records what it sends, and each retry event that it sends is delivered next.
use sentinel_content_safety.Base.{
  ℕ, zero, suc, ◌+◌, ◌≤◌, ◌<◌, ◌≡◌, refl, sym, subst, String, Option, none, some, true, false,
  arith, Bool-cases, inl, inr, ltb, [], ◌∷◌, ◌++◌, length, last, last-append_one, length-append,
}
use sentinel_content_safety.Base.Action.{Result, ◌>>=◌}
use sentinel_content_safety.Schemas.{
  ModerationRequest, ModerationResponse, StoredModerationJob, ModerationJobEvent, JobState,
  job_state_eq, Time,
}
use sentinel_content_safety.Distributed.Protocols.{JobStore, Event, job_event, result, dead_letter}
use sentinel_content_safety.Distributed.Adapters.{Recorder, recorder}
use sentinel_content_safety.Distributed.Adapters
use sentinel_content_safety.Distributed.Processor.{
  WorkerError, Settings, Worker, as_processing, as_retrying, as_exhausted, publish, save,
  publish_dlq, handle_failure, moderate_job, process,
}
use sentinel_content_safety.Distributed.Outcome.{get-save_twice, process_open}

-- The retry that the last published event asks for.
abbrev pub requested_retry : Option Event → Option ModerationJobEvent
requested_retry none = none
requested_retry (some e) = elim e.payload [
  | job_event again ↦ some again
  | result _ ↦ none
  | dead_letter _ _ _ _ ↦ none
]

module _ {S : Type 0} (settings : Settings) (jobs : JobStore S)
    (moderate : ModerationRequest → Option ModerationResponse) where
  abbrev Delivered : Type 0
  Delivered = Worker S Recorder

  -- At most `fuel` deliveries of an event and of the retries that it brings about.
  pub deliver : ℕ → Time → ModerationJobEvent → Worker S Recorder → Worker S Recorder
  deliver zero now event w = w
  deliver (suc fuel) now event w =
      let w' = (process settings jobs recorder moderate now event w).1 in
      elim (requested_retry (last w'.broker.events)) [
        | none ↦ w'
        | some again ↦ deliver fuel now again w'
      ]

  abbrev retry_event : ModerationJobEvent → Event
  retry_event event = record {
    topic = settings.retry_topic;
    key = event.job_id;
    payload = job_event (record event { attempt = event.attempt + 1 });
  }

  abbrev dlq_event : ModerationJobEvent → Event
  dlq_event event = record {
    topic = settings.dlq_topic;
    key = event.job_id;
    payload =
        dead_letter event.job_id event.request.request_id event.attempt
          "processing_attempts_exhausted";
  }

  -- After one attempt: the job that is held, the event that was sent last, and one event more.
  abbrev After :
      Worker S Recorder → Worker S Recorder → String → StoredModerationJob → Event → Type 0
  After w w' id j e =
      (jobs.get w'.store id ≡ some j)
      × (last w'.broker.events ≡ some e)
      × (length w'.broker.events ≡ length w.broker.events + 1)
      × (w'.broker.fails ≡ false)

  -- One failed attempt, over a publisher that works.
  failed_attempt :
      (now : Time) (event : ModerationJobEvent) (j : StoredModerationJob) (w : Worker S Recorder)
      → w.broker.fails ≡ false
      → moderate event.request ≡ none
      → let w' = (moderate_job settings jobs recorder moderate now event j w).1 in
        (ltb (event.attempt + 1) settings.max_attempts ≡ true
          → (w'.store ≡ jobs.save w.store (as_retrying now (event.attempt + 1) j))
            × (w'.broker ≡ record w.broker { events = w.broker.events ++ retry_event event ∷ [] }))
        × (ltb (event.attempt + 1) settings.max_attempts ≡ false
            → (w'.store ≡ jobs.save w.store (as_exhausted now event j))
              × (w'.broker ≡ record w.broker { events = w.broker.events ++ dlq_event event ∷ [] }))
  unfolding moderate_job handle_failure publish publish_dlq save ◌>>=◌ Adapters.publish
  failed_attempt now event j w working failing =
      rw (failing, moderate_job)
        (
          λ more. rw (more, handle_failure) (rw working (refl, refl)),
          λ spent. rw (spent, handle_failure) (rw working (refl, refl)),
        )

  module _ (now : Time) (event : ModerationJobEvent) (w : Worker S Recorder)
      (j : StoredModerationJob) (working : w.broker.fails ≡ false)
      (failing : moderate event.request ≡ none) (held : jobs.get w.store event.job_id ≡ some j)
      (own : j.job.job_id ≡ event.job_id)
      (unfinished : job_state_eq j.job.state JobState.succeeded ≡ false) where
    abbrev processing : StoredModerationJob
    processing = as_processing now event j

    abbrev opened : Worker S Recorder
    opened = record w { store = jobs.save w.store processing }

    abbrev processed : Worker S Recorder
    processed = (process settings jobs recorder moderate now event w).1

    -- From what `moderate_job` leaves to what `process` leaves.
    attempt-After :
        (next : StoredModerationJob) (e : Event)
        → next.job.job_id ≡ event.job_id
        → let w' = (moderate_job settings jobs recorder moderate now event processing opened).1 in
          (w'.store ≡ jobs.save opened.store next)
            × (w'.broker ≡ record w.broker { events = w.broker.events ++ e ∷ [] })
          → After w processed event.job_id next e
    attempt-After next e same (stored, sent) =
        subst
          (λ (r : Result WorkerError (Unit {0}) × Worker S Recorder).
            After w r.1 event.job_id next e)
          (sym (process_open settings jobs recorder moderate now event w j held own unfinished))
          (
            rw stored (
                get-save_twice settings jobs recorder moderate w.store event.job_id j processing
                  next held own same),
            rw sent (last-append_one w.broker.events e),
            rw sent (length-append w.broker.events (e ∷ [])),
            rw sent working,
          )

    process_more :
        ltb (event.attempt + 1) settings.max_attempts ≡ true
        → After w processed event.job_id
            (as_retrying now (event.attempt + 1) processing)
            (retry_event event)
    process_more more =
        attempt-After _ _ own ((failed_attempt now event processing opened working failing).0 more)

    process_spent :
        ltb (event.attempt + 1) settings.max_attempts ≡ false
        → After w processed event.job_id (as_exhausted now event processing) (dlq_event event)
    process_spent spent =
        attempt-After _ _ own ((failed_attempt now event processing opened working failing).1 spent)

  -- A job that ended by spending its attempts.
  pub record IsExhausted (w w' : Worker S Recorder) (event : ModerationJobEvent) : Type 0 where
    pub final : StoredModerationJob
    pub held : jobs.get w'.store event.job_id ≡ some final
    pub state : final.job.state ≡ JobState.failed
    pub code : final.job.error_code ≡ some "processing_attempts_exhausted"
    pub attempts : final.job.attempt + 1 ≡ settings.max_attempts
    pub published :
        length w'.broker.events + event.attempt ≡ length w.broker.events + settings.max_attempts

  -- A job whose moderation always raises, over a broker that works: its deliveries end, after as
  -- many attempts as are allowed, with the job stored as failed and one event published for each
  -- attempt that was left.
  pub failing_job_ends :
      (fuel : ℕ) (now : Time) (event : ModerationJobEvent) (w : Worker S Recorder)
      (j : StoredModerationJob)
      → w.broker.fails ≡ false
      → moderate event.request ≡ none
      → jobs.get w.store event.job_id ≡ some j
      → j.job.job_id ≡ event.job_id
      → job_state_eq j.job.state JobState.succeeded ≡ false
      → event.attempt < settings.max_attempts
      → settings.max_attempts ≤ event.attempt + fuel
      → IsExhausted w (deliver fuel now event w) event
  unfolding deliver
  failing_job_ends zero now event w j working failing held own unfinished room enough =
      absurd (omega arith)
  failing_job_ends (suc fuel) now event w j working failing held own unfinished room enough =
      elim (Bool-cases (ltb (event.attempt + 1) settings.max_attempts)) [
        | inr spent ↦
            let (kept, sent, number, _) =
              process_spent now event w j working failing held own unfinished spent in
            rw (sent, deliver)
              (record {
                final = as_exhausted now event (as_processing now event j);
                held = kept;
                state = refl;
                code = refl;
                attempts = ground arith;
                published = ground arith;
              })
        | inl more ↦
            let (kept, sent, number, works) =
              process_more now event w j working failing held own unfinished more in
            let next = record event { attempt = event.attempt + 1 } in
            let w' = (process settings jobs recorder moderate now event w).1 in
            let ended =
              failing_job_ends fuel now next w'
                (as_retrying now (event.attempt + 1) (as_processing now event j)) works failing kept
                own refl (ground arith) (omega arith) in
            rw (sent, deliver)
              (record {
                final = ended.final;
                held = ended.held;
                state = ended.state;
                code = ended.code;
                attempts = ended.attempts;
                published = omega (arith, ended.published, number);
              })
      ]
