-- ===== src/Distributed/StoreTests.antt =====
-- A submission, and a job from its submission to its result, at concrete jobs.
use sentinel_content_safety.Base.{String, Option, none, some, List, [], ◌∷◌, true}
use sentinel_content_safety.Schemas.{Decision, ModerationRequest, ModerationResponse}
use sentinel_content_safety.Distributed.Protocols.{EventPublisher}
use sentinel_content_safety.Distributed.Adapters.{Jobs, memory_store, Recorder, recorder}
use sentinel_content_safety.Distributed.Adapters
use sentinel_content_safety.Distributed.Service.{Naming, Readings, new_event, Pipeline, submit}
use sentinel_content_safety.Distributed.Processor.{Settings, Worker, process}

abbrev naming : Naming
naming = record { sha256 = λ s. s; dump_json = λ r. "json"; uuid5 = λ s. s }

-- A broker that acknowledges every event and keeps their keys.
abbrev keys : EventPublisher (List String)
keys = record { publish = λ sent e. (true, e.key ∷ sent) }

abbrev request : ModerationRequest
request = record { text = 104 ∷ 105 ∷ []; request_id = some "r1" }

abbrev first : Readings
first = record { uuid4 = "u1"; now = 10; later = 11 }

abbrev response : ModerationResponse
response = record {
  request_id = "r1";
  decision = Decision.allow;
  risk_score = 0;
  signals = [];
  policy_version = "2026-08-27";
  evaluated_at = 15;
}

abbrev settings : Settings
settings = record {
  retry_topic = "retry";
  result_topic = "result";
  dlq_topic = "dlq";
  max_attempts = 3;
}

abbrev answers_all : ModerationRequest → Option ModerationResponse
answers_all r = some response

abbrev fresh : Pipeline Jobs (List String)
fresh = record { store = []; broker = [] }

abbrev out : Pipeline Jobs (List String)
out = (submit memory_store keys "in" naming first request fresh).1

abbrev done : Worker Jobs (List String)
done =
    (process settings memory_store keys answers_all 15 (new_event naming first request)
      (record { store = out.store; broker = out.broker; metrics = none })).1
