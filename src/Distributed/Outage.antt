-- ===== src/Distributed/Outage.antt =====
-- A submission that the broker does not acknowledge, and how it is made good.
use sentinel_content_safety.Base.{String}
use sentinel_content_safety.Schemas.{ModerationRequest, StoredModerationJob}
use sentinel_content_safety.Distributed.Protocols.{JobStore, EventPublisher}
use sentinel_content_safety.Distributed.Service.{
  Naming, Readings, or_new, job_id_of, new_job, as_failed,
}

module _ {S P : Type 0} (jobs : JobStore S) (publisher : EventPublisher P) (topic : String)
    (n : Naming) where
  abbrev id_of : Readings → ModerationRequest → String
  id_of t r = job_id_of n (or_new r.request_id t.uuid4)

  abbrev first_failed : Readings → ModerationRequest → StoredModerationJob
  first_failed t r = as_failed t.later (new_job n t r)
