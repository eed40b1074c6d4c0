-- ===== src/Distributed/Protocols.antt =====
-- src/sentinel/distributed/protocols.py and errors.py: what the service and the processor ask of
-- a job store and of an event publisher.
use sentinel_content_safety.Base.{
  ℕ, ◌≡◌, String, Option, none, some, Bool, true, not, str_eq, is_some, if◌then◌else◌,
}
use sentinel_content_safety.Schemas.{ModerationResponse, StoredModerationJob, ModerationJobEvent}

-- `create` says whether the job was absent, and then stores it. Jobs do not expire during a run.
pub record JobStore (S : Type 0) : Type 0 where
  pub create : S → StoredModerationJob → Bool × S
  pub get : S → String → Option StoredModerationJob
  pub save : S → StoredModerationJob → S
  pub create-absent :
      (s : S) (j : StoredModerationJob) → (create s j).0 ≡ not (is_some (get s j.job.job_id))
  pub get-create :
      (s : S) (j : StoredModerationJob) (id : String)
      → get (create s j).1 id ≡ (
          if str_eq j.job.job_id id
          then (elim (get s j.job.job_id) [ none ↦ some j | some old ↦ some old ])
          else get s id)
  pub create-present :
      (s : S) (j : StoredModerationJob) → is_some (get s j.job.job_id) ≡ true → (create s j).1 ≡ s
  pub get-save :
      (s : S) (j : StoredModerationJob) (id : String)
      → is_some (get s j.job.job_id) ≡ true
      → get (save s j) id ≡ (if str_eq j.job.job_id id then some j else get s id)

-- What the source writes as JSON text in the payload of an event.
pub data Payload : Type 0 where
  job_event : ModerationJobEvent → Payload
  result : ModerationResponse → Payload
  dead_letter : String → Option String → ℕ → String → Payload

pub record Event : Type 0 where
  pub topic : String
  pub key : String
  pub payload : Payload

-- `publish` either returns or raises; `false` is the exception. A broker that does not
-- acknowledge in time may still have the event.
pub record EventPublisher (P : Type 0) : Type 0 where
  pub publish : P → Event → Bool × P

pub data ServiceError : Type 0 where
  idempotency_conflict queue_unavailable : String → ServiceError
