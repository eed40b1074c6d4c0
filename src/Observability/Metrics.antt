-- ===== src/Observability/Metrics.antt =====
-- `SentinelMetrics` of src/sentinel/observability/metrics.py. The registry of prometheus_client is a
-- parameter: a series is a metric with the values of its labels.
use sentinel_content_safety.Base.{
  ℕ, ◌+◌, ◌-◌, ◌<◌, ◌≡◌, refl, String, Bool, true, false, ◌&&◌, List, [], ◌∷◌, str_eq,
  if◌then◌else◌,
}

-- The upper bounds of the buckets of a histogram are in milliseconds.
pub data MetricKind : Type 0 where
  counter gauge : MetricKind
  histogram : List ℕ → MetricKind

pub record Metric : Type 0 where
  pub kind : MetricKind
  pub name : String
  pub documentation : String
  pub labels : List String

abbrev pub labels_eq : List String → List String → Bool
labels_eq [] [] = true
labels_eq (k ∷ ks) (l ∷ ls) = str_eq k l && labels_eq ks ls
labels_eq _ _ = false

-- The same series.
abbrev pub same : Metric → List String → Metric → List String → Bool
same m ks n ls = str_eq m.name n.name && labels_eq ks ls

-- What the library does with a registry. The value of a counter or of a gauge is its number, that of
-- a histogram the number of observations.
pub record Prometheus (R : Type 0) : Type 0 where
  pub value : R → Metric → List String → ℕ
  pub inc : R → Metric → List String → R
  pub dec : R → Metric → List String → R
  pub set : R → Metric → List String → ℕ → R
  pub observe : R → Metric → List String → ℕ → R
  pub value-inc :
      (r : R) (m n : Metric) (ks ls : List String)
      → value (inc r m ks) n ls ≡ (if same m ks n ls then value r n ls + 1 else value r n ls)
  pub value-dec :
      (r : R) (m n : Metric) (ks ls : List String)
      → 0 < value r m ks
      → value (dec r m ks) n ls ≡ (if same m ks n ls then value r n ls - 1 else value r n ls)
  pub value-set :
      (r : R) (m n : Metric) (ks ls : List String) (v : ℕ)
      → value (set r m ks v) n ls ≡ (if same m ks n ls then v else value r n ls)
  pub value-observe :
      (r : R) (m n : Metric) (ks ls : List String) (v : ℕ)
      → value (observe r m ks v) n ls ≡ (if same m ks n ls then value r n ls + 1 else value r n ls)

abbrev pub build_info : Metric
build_info = record {
  kind = MetricKind.gauge;
  name = "sentinel_build_info";
  documentation = "Static Sentinel service build information.";
  labels = "service" ∷ "version" ∷ [];
}

abbrev pub http_requests : Metric
http_requests = record {
  kind = MetricKind.counter;
  name = "sentinel_http_requests_total";
  documentation = "HTTP requests handled by the API.";
  labels = "method" ∷ "route" ∷ "status_code" ∷ [];
}

abbrev pub http_duration : Metric
http_duration = record {
  kind = MetricKind.histogram (10 ∷ 25 ∷ 50 ∷ 100 ∷ 250 ∷ 500 ∷ 1000 ∷ 2500 ∷ 5000 ∷ []);
  name = "sentinel_http_request_duration_seconds";
  documentation = "HTTP request duration by templated route.";
  labels = "method" ∷ "route" ∷ [];
}

abbrev pub inflight_requests : Metric
inflight_requests = record {
  kind = MetricKind.gauge;
  name = "sentinel_http_inflight_requests";
  documentation = "HTTP requests currently being processed.";
  labels = [];
}

abbrev pub decisions : Metric
decisions = record {
  kind = MetricKind.counter;
  name = "sentinel_moderation_decisions_total";
  documentation = "Moderation decisions emitted by decision path.";
  labels = "decision" ∷ "path" ∷ [];
}

abbrev pub job_submissions : Metric
job_submissions = record {
  kind = MetricKind.counter;
  name = "sentinel_job_submissions_total";
  documentation = "Distributed moderation submission outcomes.";
  labels = "outcome" ∷ [];
}

abbrev pub worker_events : Metric
worker_events = record {
  kind = MetricKind.counter;
  name = "sentinel_worker_events_total";
  documentation = "Moderation worker event outcomes.";
  labels = "outcome" ∷ [];
}

abbrev pub terminal_jobs : Metric
terminal_jobs = record {
  kind = MetricKind.counter;
  name = "sentinel_terminal_jobs_total";
  documentation = "Jobs reaching a terminal state.";
  labels = "state" ∷ "error_code" ∷ [];
}

abbrev pub moderation_duration : Metric
moderation_duration = record {
  kind = MetricKind.histogram (5 ∷ 10 ∷ 25 ∷ 50 ∷ 100 ∷ 250 ∷ 500 ∷ 1000 ∷ 2500 ∷ 5000 ∷ []);
  name = "sentinel_moderation_duration_seconds";
  documentation = "Core moderation evaluation duration.";
  labels = "path" ∷ [];
}

abbrev pub review_events : Metric
review_events = record {
  kind = MetricKind.counter;
  name = "sentinel_review_events_total";
  documentation = "Human-review workflow event outcomes.";
  labels = "action" ∷ "outcome" ∷ [];
}

abbrev pub review_backlog : Metric
review_backlog = record {
  kind = MetricKind.gauge;
  name = "sentinel_review_backlog";
  documentation = "Human-review cases by workflow state.";
  labels = "state" ∷ [];
}

abbrev pub review_resolution_duration : Metric
review_resolution_duration = record {
  kind =
      MetricKind.histogram (30000 ∷ 60000 ∷ 300000 ∷ 900000 ∷ 3600000 ∷ 14400000 ∷ 86400000 ∷ []);
  name = "sentinel_review_resolution_duration_seconds";
  documentation = "Elapsed time from review creation to a human decision.";
  labels = [];
}

module _ {R : Type 0} (prometheus : Prometheus R) where
  open prometheus use {inc, dec, set, observe}

  -- The last line of `__init__`, on an empty registry.
  unfoldable pub sentinel_metrics : String → R → R
  sentinel_metrics service r = set r build_info (service ∷ "0.1.0" ∷ []) 1

  -- The status code comes as the text that `str` gives.
  unfoldable pub record_http : String → String → String → ℕ → R → R
  record_http method route status_code duration r =
      observe (inc r http_requests (method ∷ route ∷ status_code ∷ [])) http_duration
        (method ∷ route ∷ []) duration

  unfoldable pub record_decision : String → String → R → R
  record_decision decision path r = inc r decisions (decision ∷ path ∷ [])

  unfoldable pub record_submission : String → R → R
  record_submission outcome r = inc r job_submissions (outcome ∷ [])

  unfoldable pub record_worker_event : String → R → R
  record_worker_event outcome r = inc r worker_events (outcome ∷ [])

  unfoldable pub record_terminal_job : String → String → R → R
  record_terminal_job state error_code r = inc r terminal_jobs (state ∷ error_code ∷ [])

  unfoldable pub record_review_event : String → String → R → R
  record_review_event action outcome r = inc r review_events (action ∷ outcome ∷ [])

-- A registry as the function from a series to its value.
abbrev pub Registry : Type 0
Registry = Metric → List String → ℕ

abbrev pub changed : Registry → Metric → List String → (ℕ → ℕ) → Registry
changed r m ks f n ls = if same m ks n ls then f (r n ls) else r n ls

abbrev pub prometheus_of_functions : Prometheus Registry
prometheus_of_functions = record {
  value = λ r. r;
  inc = λ r m ks. changed r m ks (λ n. n + 1);
  dec = λ r m ks. changed r m ks (λ n. n - 1);
  set = λ r m ks v. changed r m ks (λ _. v);
  observe = λ r m ks v. changed r m ks (λ n. n + 1);
  value-inc = λ r m n ks ls. refl;
  value-dec = λ r m n ks ls _. refl;
  value-set = λ r m n ks ls v. refl;
  value-observe = λ r m n ks ls v. refl;
}
