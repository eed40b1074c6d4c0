-- ===== src/Distributed/Submission.antt =====
-- What a submission promises: `submit` of src/sentinel/distributed/service.py against a table of its
-- outcomes.
use sentinel_content_safety.Base.{
  ◌≡◌, String, Option, none, some, Bool, true, false, str_eq, if◌then◌else◌,
}
use sentinel_content_safety.Base.Action.{Result, ok, raised}
use sentinel_content_safety.Schemas.{ModerationRequest, ModerationJob, StoredModerationJob, Time}
use sentinel_content_safety.Distributed.Protocols.{
  JobStore, EventPublisher, ServiceError, idempotency_conflict, queue_unavailable,
}
use sentinel_content_safety.Distributed.Service.{
  Naming, Readings, or_new, job_id_of, new_event, awaits_publication, as_failed, as_accepted,
  Pipeline,
}
use sentinel_content_safety.Distributed.Idempotency.{sent}

-- What a submission ends in: its answer, the job that is then held, and whether its event was given
-- to the broker.
pub record Outcome : Type 0 where
  pub answer : Result ServiceError ModerationJob
  pub held : StoredModerationJob
  pub published : Bool

-- The end of a publication, by the acknowledgement of the broker.
abbrev pub published_as : Bool → Time → StoredModerationJob → StoredModerationJob → Outcome
published_as true later before accepted = record {
  answer = ok accepted.job;
  held = accepted;
  published = true;
}
published_as false later before accepted = record {
  answer = raised (queue_unavailable "broker did not acknowledge moderation job");
  held = as_failed later before;
  published = true;
}

-- The table of outcomes, by what is held under the identifier, the new job, and the acknowledgement of
-- the broker.
abbrev pub outcome : Option StoredModerationJob → StoredModerationJob → Bool → Time → Outcome
outcome none new acknowledged later = published_as acknowledged later new new
outcome (some old) new acknowledged later =
    if str_eq old.request_fingerprint new.request_fingerprint
    then (if awaits_publication old.job
        then published_as acknowledged later old (as_accepted later old)
        else record { answer = ok old.job; held = old; published = false })
    else record {
      answer = raised (idempotency_conflict new.job.request_id);
      held = old;
      published = false;
    }

module _ {S P : Type 0} (jobs : JobStore S) (publisher : EventPublisher P) (topic : String)
    (n : Naming) (t : Readings) (r : ModerationRequest) (s : Pipeline S P) where
  abbrev id : String
  id = job_id_of n (or_new r.request_id t.uuid4)

  abbrev delivery : Bool × P
  delivery = sent jobs publisher topic n (new_event n t r) s

  -- The answer is given, the job is held and no other job has changed, and the broker has the event
  -- just if it was published.
  pub record Gives (o : Outcome) (out : Result ServiceError ModerationJob × Pipeline S P)
      : Type 0 where
    pub answer : out.0 ≡ o.answer
    pub held :
        (i : String)
        → jobs.get out.1.store i ≡ (if str_eq id i then some o.held else jobs.get s.store i)
    pub broker : out.1.broker ≡ (if o.published then delivery.1 else s.broker)
