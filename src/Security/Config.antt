-- ===== src/Security/Config.antt =====
-- src/sentinel/security/config.py: the settings, read from the environment and validated.
use sentinel_content_safety.Base.{
  ℕ, ◌*◌, String, Bool, true, false, not, ◌&&◌, ◌||◌, Option, none, some, str_eq, leb,
  if◌then◌else◌,
}

-- `os.getenv`, `str.strip`, `str.lower`, `int` on a text, and whether ".example." is in the last
-- part of a path.
pub data ParsedInt : Type 0 where
  natural negative : ℕ → ParsedInt

pub record Environment : Type 0 where
  pub getenv : String → Option String
  pub strip : String → String
  pub lower : String → String
  pub int : String → Option ParsedInt
  pub is_example : String → Bool

pub data ConfigError : Type 0 where
  value_error : String → String → ConfigError

pub data Read {ℓ} (A : Type ℓ) : Type ℓ where
  ok : A → Read A
  raised : ConfigError → Read A

infixl 5 ◌>>=◌
abbrev pub ◌>>=◌ {ℓ κ} : {A : Type ℓ} {B : Type κ} → Read A → (A → Read B) → Read B
ok a >>= f = f a
raised e >>= f = raised e

infixl 5 ◌>>◌
abbrev pub ◌>>◌ {ℓ} : {B : Type ℓ} → Read (Unit {0}) → Read B → Read B
m >> k = m >>= λ _. k

abbrev pub is_true_value : String → Bool
is_true_value v = str_eq v "1" || str_eq v "true" || str_eq v "yes" || str_eq v "on"

abbrev pub is_false_value : String → Bool
is_false_value v = str_eq v "0" || str_eq v "false" || str_eq v "no" || str_eq v "off"

-- `_boolean`
unfoldable pub boolean : Environment → String → Bool → Read Bool
boolean env name default = elim (env.getenv name) [
  | none ↦ ok default
  | some raw ↦
      let normalized = env.lower (env.strip raw) in
      if is_true_value normalized
      then ok true
      else if is_false_value normalized
      then ok false
      else raised (value_error name "must be a boolean value")
]

-- `_positive_integer`
unfoldable pub positive_integer : Environment → String → ℕ → Read ℕ
positive_integer env name default = elim (env.getenv name) [
  | none ↦ ok default
  | some raw ↦ elim (env.int raw) [
    | none ↦ raised (value_error name "must be an integer")
    | some value ↦ elim value [
      | negative n ↦ raised (value_error name "must be greater than zero")
      | natural n ↦ if leb n 0 then raised (value_error name "must be greater than zero") else ok n
    ]
  ]
]

pub record SecuritySettings : Type 0 where
  pub environment : String
  pub docs_enabled : Bool
  pub hsts_enabled : Bool
  pub max_request_bytes : ℕ
  pub rate_limit_enabled : Bool
  pub rate_limit_requests : ℕ
  pub rate_limit_window_seconds : ℕ
  pub rate_limit_max_clients : ℕ

abbrev pub refuse_if : Bool → String → String → Read (Unit {0})
refuse_if true name message = raised (value_error name message)
refuse_if false name message = ok tt

abbrev pub or_default : Option String → String → String
or_default none default = default
or_default (some raw) default = raw

unfoldable pub validate : Environment → SecuritySettings → Read (Unit {0})
unfolding boolean
validate env s =
    if not (
      str_eq s.environment "development"
      || str_eq s.environment "test"
      || str_eq s.environment "production")
    then raised (value_error "SENTINEL_ENVIRONMENT" "must be development, test, or production")
    else if not (str_eq s.environment "production")
    then ok tt
    else (do
      refuse_if s.docs_enabled "" "API documentation must be disabled in production"
      refuse_if (not s.hsts_enabled) "" "HSTS must be enabled in production"
      refuse_if (not s.rate_limit_enabled) "" "rate limiting must be enabled in production"
      review_enabled ← boolean env "SENTINEL_REVIEW_ENABLED" false
      refuse_if
          (review_enabled
            && env.is_example
                (or_default (env.getenv "SENTINEL_REVIEW_AUTH_PATH") "config/reviewer-auth.json"))
          "" "development reviewer credentials cannot be used in production")

unfoldable pub from_env : Environment → Read SecuritySettings
unfolding boolean positive_integer validate
from_env env = do
  docs_enabled ← boolean env "SENTINEL_DOCS_ENABLED" true
  hsts_enabled ← boolean env "SENTINEL_HSTS_ENABLED" false
  max_request_bytes ← positive_integer env "SENTINEL_MAX_REQUEST_BYTES" (8 * 1024 * 1024)
  rate_limit_enabled ← boolean env "SENTINEL_RATE_LIMIT_ENABLED" false
  rate_limit_requests ← positive_integer env "SENTINEL_RATE_LIMIT_REQUESTS" 120
  rate_limit_window_seconds ← positive_integer env "SENTINEL_RATE_LIMIT_WINDOW_SECONDS" 60
  rate_limit_max_clients ← positive_integer env "SENTINEL_RATE_LIMIT_MAX_CLIENTS" 10_000
  let settings : SecuritySettings = record {
    environment =
        env.lower (env.strip (or_default (env.getenv "SENTINEL_ENVIRONMENT") "development"));
    docs_enabled = docs_enabled;
    hsts_enabled = hsts_enabled;
    max_request_bytes = max_request_bytes;
    rate_limit_enabled = rate_limit_enabled;
    rate_limit_requests = rate_limit_requests;
    rate_limit_window_seconds = rate_limit_window_seconds;
    rate_limit_max_clients = rate_limit_max_clients;
  }
  validate env settings
  ok settings
