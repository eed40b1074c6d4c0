-- ===== src/Observability/Middleware.antt =====
-- `RequestObservabilityMiddleware` of src/sentinel/observability/middleware.py. The rest of the
-- application is a function on the registry that answers or raises, and says which route matched.
use sentinel_content_safety.Base.{
  ℕ, String, Bool, ◌&&◌, ◌||◌, Option, none, some, [], all, length, leb, ◌==◌, if◌then◌else◌,
}
use sentinel_content_safety.Base.Action.{Result, ok, raised}
use sentinel_content_safety.Base.Dict.{Dict, insert}
use sentinel_content_safety.Core.Trie.{Text}
use sentinel_content_safety.Observability.Metrics.{Prometheus, inflight_requests, record_http}

pub record Response : Type 0 where
  pub status_code : ℕ
  pub headers : Dict Text

pub record Request : Type 0 where
  pub method : String
  pub x_request_id : Text

-- `[A-Za-z0-9._:/-]`
abbrev pub is_id_character : ℕ → Bool
is_id_character c =
    (leb b'A' c && leb c b'Z')
    || (leb b'a' c && leb c b'z')
    || (leb b'0' c && leb c b'9')
    || c == b'.'
    || c == b'_'
    || c == b':'
    || c == b'/'
    || c == b'-'

-- A full match of `REQUEST_ID_PATTERN`
unfoldable pub is_request_id : Text → Bool
is_request_id t = leb 1 (length t) && leb (length t) 128 && all is_id_character t

-- The identifier that was sent, or a new one.
unfoldable pub request_id_of : Text → Text → Text
request_id_of supplied uuid4 = if is_request_id supplied then supplied else uuid4

-- What the rest of the application ends with: a response or an exception, and the template of the
-- route that matched.
abbrev pub Exchange : Type 0 → Type 0
Exchange E = Result E Response × Option String

abbrev pub status_of : {E : Type 0} → Result E Response → ℕ
status_of (ok response) = response.status_code
status_of (raised e) = 500

abbrev pub route_of : Option String → String
route_of none = "unmatched"
route_of (some path) = path

abbrev pub tagged : {E : Type 0} → Text → Result E Response → Result E Response
tagged request_id (ok response) =
    ok (record response { headers = insert "X-Request-ID" request_id response.headers })
tagged request_id (raised e) = raised e

module _ {R : Type 0} (prometheus : Prometheus R) where
  -- What is done before the rest of the application is called.
  unfoldable pub begin : R → R
  begin r = prometheus.inc r inflight_requests []

module _ {R E : Type 0} (prometheus : Prometheus R) (str : ℕ → String) where
  -- The block `finally`.
  unfoldable pub finish : Request → Exchange E → ℕ → R → R
  finish request (outcome, route) duration r =
      prometheus.dec
        (record_http prometheus request.method (route_of route) (str (status_of outcome)) duration
          r)
        inflight_requests []

  -- `dispatch`
  unfoldable pub dispatch :
      Request → (Text → R → Exchange E × R) → Text → ℕ → R → Result E Response × R
  unfolding begin finish
  dispatch request call_next uuid4 duration r =
      let request_id = request_id_of request.x_request_id uuid4 in
      let (exchange, r') = call_next request_id (begin prometheus r) in
      (tagged request_id exchange.0, finish request exchange duration r')
