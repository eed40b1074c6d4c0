-- ===== src/Distributed/Completion.antt =====
-- A submitted job over a broker that acknowledges and an engine that answers: from the submission to
-- the result.
use sentinel_content_safety.Base.{◌≡◌, String, Option, true}
use sentinel_content_safety.Schemas.{ModerationRequest, ModerationResponse}
use sentinel_content_safety.Distributed.Protocols.{JobStore, EventPublisher, Event}
use sentinel_content_safety.Distributed.Service.{Naming, Readings, or_new, job_id_of, Pipeline}
use sentinel_content_safety.Distributed.Processor.{Settings, publish}

module _ {S P : Type 0} (settings : Settings) (jobs : JobStore S) (publisher : EventPublisher P)
    (topic : String) (n : Naming) (moderate : ModerationRequest → Option ModerationResponse)
    (works : (b : P) (e : Event) → (publisher.publish b e).0 ≡ true) where
  module _ (t : Readings) (r : ModerationRequest) (s : Pipeline S P) where
    abbrev id : String
    id = job_id_of n (or_new r.request_id t.uuid4)
