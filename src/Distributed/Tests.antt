-- ===== src/Distributed/Tests.antt =====
-- The theorems on the pipeline at concrete jobs, over the in-memory store and a broker that answers
-- from a list.
use mathlib.Core.Bool.{false≢true}
use sentinel_content_safety.Base.{
  ℕ, ◌≡◌, ◌≢◌, refl, String, Option, none, some, List, [], ◌∷◌, Bool, true, false, eq_iff, arith,
}
use sentinel_content_safety.Base.Action.{ok, ◌>>=◌}
use sentinel_content_safety.Base.Dict.{lookup, insert}
use sentinel_content_safety.Schemas.{
  Decision, ModerationRequest, ModerationResponse, StoredModerationJob, ModerationJobEvent,
}
use sentinel_content_safety.Distributed.Protocols.{EventPublisher}
use sentinel_content_safety.Distributed.Adapters.{Jobs, memory_store, Recorder, recorder}
use sentinel_content_safety.Distributed.Adapters
use sentinel_content_safety.Distributed.Service.{
  Naming, Readings, fingerprint, as_failed, new_job, new_event, Pipeline, submit, publish_or_fail,
}
use sentinel_content_safety.Distributed.Processor.{
  Settings, Worker, as_processing, as_succeeded, process, publication_failed,
}
use sentinel_content_safety.Distributed.Processor
use sentinel_content_safety.Distributed.Idempotency.{submit_again}
use sentinel_content_safety.Distributed.Consumer.{
  Consumer, Message, nothing, delivered, invalid, run, Ended, run-Ended,
}
use sentinel_content_safety.Distributed.Retry.{deliver, IsExhausted, failing_job_ends}

abbrev naming : Naming
naming = record {
  sha256 = λ s. s;
  dump_json = λ r. elim r.text [ [] ↦ "empty" | c ∷ cs ↦ "some" ];
  uuid5 = λ s. s;
}

-- A broker that acknowledges as a list says, and nothing after its end.
abbrev scripted : EventPublisher (List Bool)
scripted = record { publish = λ answers _. elim answers [ [] ↦ (false, []) | a ∷ as' ↦ (a, as') ] }

abbrev request : ModerationRequest
request = record { text = 104 ∷ 105 ∷ []; request_id = some "r1" }

abbrev other_request : ModerationRequest
other_request = record { text = []; request_id = some "r1" }

abbrev first : Readings
first = record { uuid4 = "u1"; now = 10; later = 11 }

abbrev second : Readings
second = record { uuid4 = "u2"; now = 20; later = 21 }

abbrev fresh : List Bool → Pipeline Jobs (List Bool)
fresh answers = record { store = []; broker = answers }

abbrev accepted_job : StoredModerationJob
unfolding new_job fingerprint
accepted_job = new_job naming first request

abbrev after_first : Pipeline Jobs (List Bool)
after_first = record { store = ("sentinel:r1", accepted_job) ∷ []; broker = [] }

abbrev event : ModerationJobEvent
event = new_event naming first request

named : ◌≢◌ {A = String} "r1" ""
named e = false≢true ((eq_iff "r1" "").1 e)

none_held : {A : Type 0} (id : String) (j : StoredModerationJob) → lookup id [] ≡ some j → A
unfolding lookup
none_held id j e = ground arith

submit_again_example :
    submit memory_store scripted "in" naming second request after_first
    ≡ (ok accepted_job.job, after_first)
unfolding submit publish_or_fail new_job fingerprint Adapters.create Adapters.get Adapters.save
    lookup ◌>>=◌ insert
submit_again_example =
    submit_again memory_store scripted "in" naming first second request (fresh (true ∷ []))
      after_first (λ id j e. none_held id j e) refl named refl

abbrev response : ModerationResponse
response = record {
  request_id = "r1";
  decision = Decision.allow;
  risk_score = 0;
  signals = [];
  policy_version = "2026-08-27";
  evaluated_at = 15;
}

abbrev settings : Settings
settings = record {
  retry_topic = "retry";
  result_topic = "result";
  dlq_topic = "dlq";
  max_attempts = 3;
}

abbrev worker : List Bool → Worker Jobs (List Bool)
worker answers = record {
  store = ("sentinel:r1", accepted_job) ∷ [];
  broker = answers;
  metrics = some [];
}

abbrev answers_all : ModerationRequest → Option ModerationResponse
answers_all r = some response

abbrev answers_none : ModerationRequest → Option ModerationResponse
answers_none r = none

abbrev succeeded_job : StoredModerationJob
succeeded_job = as_succeeded 15 event response (as_processing 15 event accepted_job)

abbrev worked : Worker Jobs (List Bool)
worked = (process settings memory_store scripted answers_all 15 event (worker (true ∷ []))).1

abbrev recorded : Worker Jobs Recorder
recorded = record {
  store = ("sentinel:r1", accepted_job) ∷ [];
  broker = record { events = []; fails = false };
  metrics = none;
}

failing_job_ends_example :
    IsExhausted settings memory_store answers_none recorded
      (deliver settings memory_store answers_none 3 15 event recorded)
      event
unfolding lookup Adapters.get accepted_job ◌>>=◌ insert
failing_job_ends_example =
    failing_job_ends settings memory_store answers_none 3 15 event recorded accepted_job refl refl
      refl refl refl (omega arith) (omega arith)

abbrev refused : Pipeline Jobs (List Bool)
refused = (submit memory_store scripted "in" naming first request (fresh (false ∷ true ∷ []))).1

abbrev failed_job : StoredModerationJob
failed_job = as_failed 11 accepted_job

abbrev consumer : List Bool → Consumer Jobs (List Bool) (List Bool)
consumer answers = record { worker = worker answers; invalid_broker = true ∷ []; committed = [] }

abbrev broadcast : List Bool → ℕ → Bool × List Bool
broadcast answers offset = elim answers [ [] ↦ (false, []) | a ∷ as' ↦ (a, as') ]

-- The second delivery is skipped as a duplicate; the invalid message after it is published.
abbrev messages : List Message
messages = delivered 4 15 event ∷ nothing ∷ delivered 5 16 event ∷ invalid 6 ∷ []

run-Ended_example :
    Ended settings memory_store scripted broadcast answers_all
      (consumer (true ∷ []))
      (run settings memory_store scripted broadcast answers_all messages (consumer (true ∷ []))).1
      messages
      (run settings memory_store scripted broadcast answers_all messages (consumer (true ∷ []))).0
run-Ended_example =
    run-Ended settings memory_store scripted broadcast answers_all messages (consumer (true ∷ []))
