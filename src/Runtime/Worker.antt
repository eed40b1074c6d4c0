-- ===== src/Runtime/Worker.antt =====
-- `build_processor`, `build_consumer` and the start of `run` in src/sentinel/worker.py, with the end
-- of `run` and the `close` of src/sentinel/distributed/processor.py and service.py.
use sentinel_content_safety.Base.{
  ℕ, ◌≡◌, refl, sym, String, Bool, true, false, Option, none, some, some-inj, Option-cases,
  Bool-cases, inl, inr, List, [], ◌∷◌, any, str_eq, eq_refl,
}
use sentinel_content_safety.Base.Action.{Action, ◌>>=◌, ◌>>◌}
use sentinel_content_safety.Distributed.Processor.{Settings}
use sentinel_content_safety.Runtime.{
  Environment, getenv_or, JobSettings, build_job_service_from_env,
}

-- What `build_processor` connects to, with the topics of the processor.
pub record ProcessorSettings : Type 0 where
  pub bootstrap_servers : String
  pub client_id : String
  pub redis_url : String
  pub ttl_seconds : ℕ
  pub settings : Settings

abbrev pub bootstrap_servers_of : Environment → String
bootstrap_servers_of env = getenv_or env "SENTINEL_KAFKA_BOOTSTRAP_SERVERS" "localhost:29092"

-- Nothing where a number in the environment is refused by `int`.
unfoldable pub build_processor : Environment → Option ProcessorSettings
build_processor env = elim (env.int (getenv_or env "SENTINEL_JOB_TTL_SECONDS" "86400")) [
  | none ↦ none
  | some ttl_seconds ↦ elim (env.int (getenv_or env "SENTINEL_MAX_ATTEMPTS" "3")) [
    | none ↦ none
    | some max_attempts ↦ some (record {
      bootstrap_servers = bootstrap_servers_of env;
      client_id = "sentinel-worker";
      redis_url = getenv_or env "SENTINEL_REDIS_URL" "redis://localhost:6379/0";
      ttl_seconds = ttl_seconds;
      settings = record {
        retry_topic = getenv_or env "SENTINEL_RETRY_TOPIC" "sentinel.moderation.retry.v1";
        result_topic = getenv_or env "SENTINEL_RESULT_TOPIC" "sentinel.moderation.result.v1";
        dlq_topic = getenv_or env "SENTINEL_DLQ_TOPIC" "sentinel.moderation.dlq.v1";
        max_attempts = max_attempts;
      };
    })
  ]
]

-- The configuration of the consumer.
pub record ConsumerSettings : Type 0 where
  pub bootstrap_servers : String
  pub group_id : String
  pub auto_offset_reset : String
  pub enable_auto_commit : Bool

unfoldable pub build_consumer : Environment → ConsumerSettings
build_consumer env = record {
  bootstrap_servers = bootstrap_servers_of env;
  group_id = getenv_or env "SENTINEL_KAFKA_CONSUMER_GROUP" "sentinel-moderation-workers-v1";
  auto_offset_reset = "earliest";
  enable_auto_commit = false;
}

-- What `run` has before its loop.
pub record Started : Type 0 where
  pub metrics_port : ℕ
  pub consumer : ConsumerSettings
  pub processor : ProcessorSettings
  pub subscribed : List String
  pub dlq_topic : String

unfoldable pub start : Environment → Option Started
unfolding build_processor build_consumer
start env = elim (env.int (getenv_or env "SENTINEL_WORKER_METRICS_PORT" "9101")) [
  | none ↦ none
  | some metrics_port ↦ elim (build_processor env) [
    | none ↦ none
    | some processor ↦ some (record {
      metrics_port = metrics_port;
      consumer = build_consumer env;
      processor = processor;
      subscribed =
          getenv_or env "SENTINEL_INPUT_TOPIC" "sentinel.moderation.input.v1"
          ∷ getenv_or env "SENTINEL_RETRY_TOPIC" "sentinel.moderation.retry.v1"
          ∷ [];
      dlq_topic = getenv_or env "SENTINEL_DLQ_TOPIC" "sentinel.moderation.dlq.v1";
    })
  ]
]

-- What is closed, each by an action that may raise.
pub record Closers (E W : Type 0) : Type 0 where
  pub consumer : Action E W (Unit {0})
  pub invalid_event_publisher : Action E W (Unit {0})
  pub publisher : Action E W (Unit {0})
  pub store : Action E W (Unit {0})
  pub engine : Action E W (Unit {0})

module _ {E W : Type 0} (closers : Closers E W) where
  -- `ModerationEventProcessor.close` and `DistributedModerationService.close`
  unfoldable pub close_processor : Action E W (Unit {0})
  unfolding ◌>>=◌
  close_processor = do closers.publisher; closers.store; closers.engine

  unfoldable pub close_service : Action E W (Unit {0})
  unfolding ◌>>=◌
  close_service = do closers.publisher; closers.store

  -- The `finally` of `run`.
  unfoldable pub close_worker : Action E W (Unit {0})
  unfolding ◌>>=◌ close_processor
  close_worker = do closers.consumer; closers.invalid_event_publisher; close_processor

first_subscribed : (x y : String) → any (str_eq x) (x ∷ y ∷ []) ≡ true
first_subscribed x y = rw (eq_refl x) refl

second_subscribed : (x y : String) → any (str_eq y) (x ∷ y ∷ []) ≡ true
second_subscribed x y = elim (Bool-cases (str_eq y x)) [
  | inl same ↦ rw same refl
  | inr apart ↦ rw (apart, eq_refl y) refl
]

-- The processes of one environment fit together: the job service publishes to a topic that the worker
-- subscribes to, on the same servers, and both keep jobs in the same store for the same time; the
-- worker also subscribes to the topic that its processor retries to, and it publishes what is no
-- event where the processor publishes failed jobs.
pub start-agrees :
    (env : Environment) {worker : Started} {api : JobSettings}
    → start env ≡ some worker
    → build_job_service_from_env env ≡ some api
    → (any (str_eq api.input_topic) worker.subscribed ≡ true)
      × (any (str_eq worker.processor.settings.retry_topic) worker.subscribed ≡ true)
      × (worker.dlq_topic ≡ worker.processor.settings.dlq_topic)
      × (api.bootstrap_servers ≡ worker.consumer.bootstrap_servers)
      × (api.redis_url ≡ worker.processor.redis_url)
      × (api.ttl_seconds ≡ worker.processor.ttl_seconds)
unfolding start build_processor build_consumer build_job_service_from_env
start-agrees env {worker} {api} h k =
    elim (Option-cases (env.int (getenv_or env "SENTINEL_JOB_TTL_SECONDS" "86400"))) [
      | inl bad ↦ let k' = rw (bad, build_job_service_from_env) at k in cc
      | inr (ttl, ttl_read) ↦
          elim (Option-cases (env.int (getenv_or env "SENTINEL_WORKER_METRICS_PORT" "9101"))) [
            | inl bad ↦ let h' = rw (bad, start) at h in cc
            | inr (port, port_read) ↦
                elim (Option-cases (env.int (getenv_or env "SENTINEL_MAX_ATTEMPTS" "3"))) [
                  | inl bad ↦
                      let h' = rw (port_read, ttl_read, bad, build_processor, start) at h in cc
                  | inr (limit, limit_read) ↦
                      let h' = rw (port_read, ttl_read, limit_read, build_processor, start) at h in
                      let k' = rw (ttl_read, build_job_service_from_env) at k in
                      rw (sym (some-inj h'), sym (some-inj k'))
                        (
                          first_subscribed
                              (getenv_or env "SENTINEL_INPUT_TOPIC" "sentinel.moderation.input.v1")
                              _,
                          second_subscribed _
                              (getenv_or env "SENTINEL_RETRY_TOPIC" "sentinel.moderation.retry.v1"),
                          refl,
                          refl,
                          refl,
                          refl,
                        )
                ]
          ]
    ]
