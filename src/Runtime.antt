-- ===== src/Runtime.antt =====
-- src/sentinel/runtime.py and src/sentinel/distributed/bootstrap.py: which parts the environment turns
-- on. Loading a model, opening the ledger and connecting to a server are parameters.
pub mod Lifespan
pub mod Worker
mod Tests
use sentinel_content_safety.Base.{
  ℕ, ◌≡◌, is_some, arith, inl, inr, Bool-cases, String, Bool, not, ◌||◌, Option, none, some, List,
  [], ◌∷◌, str_eq, if◌then◌else◌,
}
use sentinel_content_safety.Base.Action.{Result, ok, raised, Result-cases}
use sentinel_content_safety.Core.Engine.{ToxicityModel, max_score_ensemble}

-- `os.getenv`, `str.lower`, whether a path exists, and `int` of a text.
pub record Environment : Type 0 where
  pub getenv : String → Option String
  pub lower : String → String
  pub exists : String → Bool
  pub int : String → Option ℕ

-- `os.getenv(name, default)`
abbrev pub getenv_or : Environment → String → String → String
getenv_or env name default = elim (env.getenv name) [ none ↦ default | some value ↦ value ]

-- `.lower() in {"1", "true", "yes"}`, of a variable that is "false" where it is not set.
unfoldable pub is_enabled : Environment → String → Bool
is_enabled env name =
    let value = env.lower (getenv_or env name "false") in
    str_eq value "1" || str_eq value "true" || str_eq value "yes"

-- The loaders of the two models: from the path of an artifact that exists.
pub record Loaders : Type 0 where
  pub baseline : String → ToxicityModel
  pub transformer : String → ToxicityModel

abbrev pub when_exists :
    Environment → String → (String → ToxicityModel) → List ToxicityModel → List ToxicityModel
when_exists env path load rest = if env.exists path then load path ∷ rest else rest

-- The model of `build_moderation_engine`: the ensemble of both, the only one, or none.
unfoldable pub build_toxicity_model : Environment → Loaders → Option ToxicityModel
build_toxicity_model env loaders =
    let transformer_path =
      getenv_or env "SENTINEL_TRANSFORMER_MODEL_PATH" "artifacts/models/transformer_toxicity" in
    let baseline_path =
      getenv_or env "SENTINEL_MODEL_PATH" "artifacts/models/toxicity_baseline.joblib" in
    choose (
      when_exists env baseline_path loaders.baseline
        (when_exists env transformer_path loaders.transformer []))
  where
    choose : List ToxicityModel → Option ToxicityModel
    choose [] = none
    choose (m ∷ []) = some m
    choose (m ∷ n ∷ models) = max_score_ensemble (m ∷ n ∷ models)

-- `build_image_safety_model`
unfoldable pub build_image_safety_model : {M : Type 0} → Environment → (String → M) → Option M
build_image_safety_model env load =
    let path = getenv_or env "SENTINEL_IMAGE_MODEL_PATH" "artifacts/models/image_safety" in
    if not (env.exists path) then none else some (load path)

-- `build_review_system`: the ledger and the authorizer, or neither; each may fail to open.
unfoldable pub build_review_system :
    {E L A : Type 0}
    → Environment
    → (String → Result E L)
    → (String → Result E A)
    → Result E (Option L × Option A)
build_review_system env open_ledger from_file =
    let ledger_path =
      getenv_or env "SENTINEL_REVIEW_LEDGER_PATH" "artifacts/review/review-ledger.jsonl" in
    let auth_path = getenv_or env "SENTINEL_REVIEW_AUTH_PATH" "config/reviewer-auth.json" in
    if not (is_enabled env "SENTINEL_REVIEW_ENABLED")
    then ok (none, none)
    else elim (open_ledger ledger_path) [
      | raised e ↦ raised e
      | ok ledger ↦ elim (from_file auth_path) [
        | raised e ↦ raised e
        | ok authorizer ↦ ok (some ledger, some authorizer)
      ]
    ]

-- What `build_job_service_from_env` connects to.
pub record JobSettings : Type 0 where
  pub bootstrap_servers : String
  pub redis_url : String
  pub input_topic : String
  pub ttl_seconds : ℕ
  pub client_id : String

-- `build_job_service_from_env`; nothing where the time to live is no integer.
unfoldable pub build_job_service_from_env : Environment → Option JobSettings
build_job_service_from_env env = elim (env.int (getenv_or env "SENTINEL_JOB_TTL_SECONDS" "86400")) [
  | none ↦ none
  | some ttl_seconds ↦ some (record {
    bootstrap_servers = getenv_or env "SENTINEL_KAFKA_BOOTSTRAP_SERVERS" "localhost:29092";
    redis_url = getenv_or env "SENTINEL_REDIS_URL" "redis://localhost:6379/0";
    input_topic = getenv_or env "SENTINEL_INPUT_TOPIC" "sentinel.moderation.input.v1";
    ttl_seconds = ttl_seconds;
    client_id = "sentinel-api";
  })
]

-- The ledger and the authorizer are there just where human review is enabled.
pub build_review_system_lem :
    {E L A : Type 0} (env : Environment) (open_ledger : String → Result E L)
    (from_file : String → Result E A) {parts : Option L × Option A}
    → build_review_system env open_ledger from_file ≡ ok parts
    → (is_some parts.0 ≡ is_enabled env "SENTINEL_REVIEW_ENABLED")
      × (is_some parts.1 ≡ is_enabled env "SENTINEL_REVIEW_ENABLED")
unfolding build_review_system
build_review_system_lem env open_ledger from_file {parts} e =
    elim (Bool-cases (is_enabled env "SENTINEL_REVIEW_ENABLED")) [
      | inr off ↦ ground arith
      | inl on ↦
          elim (Result-cases (
            open_ledger (
              getenv_or env "SENTINEL_REVIEW_LEDGER_PATH"
                "artifacts/review/review-ledger.jsonl"))) [
                  | inr (x, r) ↦ ground arith
                  | inl (l, r) ↦ ground arith
                ]
    ]
