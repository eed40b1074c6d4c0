-- ===== src/Runtime/Tests.antt =====
-- The theorem on the lifespan of the application, in one environment.
use sentinel_content_safety.Base.{
  ℕ, suc, ◌≡◌, String, false, Option, none, some, str_eq, if◌then◌else◌,
}
use sentinel_content_safety.Base.Action.{ok, raised}
use sentinel_content_safety.Runtime.{Environment}
use sentinel_content_safety.Runtime.Lifespan.{
  Parts, App, startup, shutdown, HasStarted, lifespan-ready,
}

-- An environment that turns the distributed mode on, and whose numbers are all three.
abbrev env : Environment
env = record {
  getenv = λ name. if str_eq name "SENTINEL_DISTRIBUTED_ENABLED" then some "true" else none;
  lower = λ s. s;
  exists = λ path. false;
  int = λ s. some 3;
}

-- Parts that count the calls from outside; closing the job service fails.
abbrev parts : Parts String ℕ ℕ ℕ ℕ ℕ ℕ
parts = record {
  build_moderation_engine = λ w. (ok 1, suc w);
  build_image_safety_model = λ w. (ok none, suc w);
  build_review_system = λ w. (ok (none, none), suc w);
  build_job_service_from_env = λ w. (ok 2, suc w);
  close_job_service = λ job_service w. (raised "broken", suc w);
  close_moderation_engine = λ engine w. (ok tt, suc w);
}

abbrev app : App ℕ ℕ ℕ ℕ ℕ ℕ
app = record {
  ready = false;
  moderation_engine = none;
  image_safety_model = none;
  review_service = none;
  review_authorizer = none;
  job_service = none;
  world = 0;
}

lifespan-ready_example :
    HasStarted parts env (startup parts env app)
    × ((held : ℕ × Option ℕ) (running : App ℕ ℕ ℕ ℕ ℕ ℕ)
        → let (_, ended) = shutdown parts held running in ended.ready ≡ false)
lifespan-ready_example = lifespan-ready parts env app
