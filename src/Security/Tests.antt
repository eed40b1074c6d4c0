-- ===== src/Security/Tests.antt =====
-- The theorems on the HTTP boundary at concrete settings and requests.
use sentinel_content_safety.Base.Action.{raised}
use sentinel_content_safety.Security.Middleware.{error}
use sentinel_content_safety.Security.Headers.{
  IsProtected, apply_security_headers, dispatch-IsProtected,
}
use sentinel_content_safety.Base.{
  ℕ, ◌+◌, ◌-◌, ◌*◌, ◌/◌, ◌≡◌, refl, String, true, false, Option, none, some, [], ◌∷◌, str_eq, ltb,
  leb, max_of, if◌then◌else◌,
}
use sentinel_content_safety.Security.Config.{ParsedInt, natural, SecuritySettings}
use sentinel_content_safety.Security.Middleware.{Request, reject_oversized, Floats}
use sentinel_content_safety.Security.Bounds.{screened, reject_oversized-screened}

abbrev number : String → Option ParsedInt
number text = if str_eq text "4" then some (natural 4) else none

abbrev settings : SecuritySettings
settings = record {
  environment = "production";
  docs_enabled = false;
  hsts_enabled = true;
  max_request_bytes = 4;
  rate_limit_enabled = true;
  rate_limit_requests = 120;
  rate_limit_window_seconds = 60;
  rate_limit_max_clients = 10_000;
}

abbrev long_request : Request
long_request = record {
  method = "POST";
  path = "/v1/moderate";
  host = some "10.0.0.1";
  content_length = some "4";
  stream = (1 ∷ 2 ∷ 3 ∷ []) ∷ (4 ∷ 5 ∷ []) ∷ [];
}

reject_oversized-screened_example :
    reject_oversized number settings long_request ≡ screened number settings long_request
reject_oversized-screened_example = reject_oversized-screened number settings long_request refl

-- Whole numbers in place of floats.
abbrev whole : Floats ℕ
whole = record {
  of_nat = λ n. n;
  add = λ a b. a + b;
  sub = λ a b. a - b;
  mul = λ a b. a * b;
  div = λ a b. a / b;
  min = λ a b. if leb a b then a else b;
  max = max_of;
  lt = ltb;
  floor = λ n. n;
  ceil = λ n. n;
}

-- A body that is too long is refused, and the refusal has the headers.
dispatch-IsProtected_example :
    IsProtected settings "/v1/moderate"
      (apply_security_headers
        (λ n. "4")
        settings
        "/v1/moderate"
        none
        (error 413 "request body exceeds the configured limit")).headers
unfolding sentinel_content_safety.Security.Headers.dispatch reject_oversized
dispatch-IsProtected_example =
    dispatch-IsProtected (λ n. "4") settings {W = Unit {0}} {E = Unit {0}} whole number 5
      long_request (λ body w. (raised tt, w)) [] tt refl
