-- ===== src/Observability/Requests.antt =====
-- What the middleware counts, for one request and for requests that overlap.
use sentinel_content_safety.Base.{
  ℕ, ◌+◌, ◌-◌, ◌<◌, ◌≡◌, refl, ◌∙◌, ap, String, true, List, [], ◌∷◌, ◌++◌, length, length-append,
  arith, eq_refl, all, leb, ◌&&◌, if◌then◌else◌,
}
use sentinel_content_safety.Base.Action.{Result, ok, raised}
use sentinel_content_safety.Base.Dict.{insert}
use sentinel_content_safety.Core.Trie.{Text}
use sentinel_content_safety.Observability.Metrics.{
  Prometheus, labels_eq, inflight_requests, http_requests, http_duration, record_http,
}
use sentinel_content_safety.Observability.Middleware.{
  Request, Response, Exchange, is_id_character, is_request_id, request_id_of, status_of, route_of,
  tagged, begin, finish, dispatch,
}

labels_eq_refl : (ls : List String) → labels_eq ls ls ≡ true
labels_eq_refl [] = refl
labels_eq_refl (l ∷ ls) = simp (eq_refl, labels_eq_refl ls)

module _ {R : Type 0} (prometheus : Prometheus R) where
  open prometheus use {value, value-inc, value-observe}

  abbrev pub inflight : R → ℕ
  inflight r = value r inflight_requests []

  begin-inflight : (r : R) → inflight (begin prometheus r) ≡ inflight r + 1
  unfolding begin
  begin-inflight r = value-inc r inflight_requests inflight_requests [] []

  recorded_inflight :
      (method route status : String) (duration : ℕ) (r : R)
      → inflight (record_http prometheus method route status duration r) ≡ inflight r
  unfolding record_http
  recorded_inflight method route status duration r =
      value-observe _ http_duration inflight_requests _ [] duration
      ∙ value-inc r http_requests inflight_requests _ []

  recorded_handled :
      (method route status : String) (duration : ℕ) (r : R)
      → value
          (record_http prometheus method route status duration r)
          http_requests
          (method ∷ route ∷ status ∷ [])
        ≡ value r http_requests (method ∷ route ∷ status ∷ []) + 1
  unfolding record_http
  recorded_handled method route status duration r =
      value-observe _ http_duration http_requests _ _ duration
      ∙ value-inc r http_requests http_requests _ _
      ∙ rw (labels_eq_refl (method ∷ route ∷ status ∷ [])) refl

-- The number of requests counted under a method, a route and a status.
abbrev pub handled : {R : Type 0} → Prometheus R → (ℕ → String) → R → String → String → ℕ → ℕ
handled prometheus str r method route status =
    prometheus.value r http_requests (method ∷ route ∷ str status ∷ [])

module _ {R E : Type 0} (prometheus : Prometheus R) (str : ℕ → String) where
  open prometheus use {value, value-inc, value-dec}

  finish-inflight :
      (request : Request) (exchange : Exchange E) (duration : ℕ) (r : R)
      → 0 < inflight prometheus r
      → inflight prometheus (finish prometheus str request exchange duration r)
        ≡ inflight prometheus r - 1
  unfolding finish
  finish-inflight request (outcome, route) duration r busy =
      let same_number =
        recorded_inflight prometheus request.method (route_of route) (str (status_of outcome))
          duration r in
      value-dec _ inflight_requests inflight_requests [] [] (rw same_number busy)
      ∙ ap (λ n. n - 1) same_number

  finish-handled :
      (request : Request) (exchange : Exchange E) (duration : ℕ) (r : R)
      → 0 < inflight prometheus r
      → handled prometheus str
          (finish prometheus str request exchange duration r)
          request.method
          (route_of exchange.1)
          (status_of exchange.0)
        ≡ handled prometheus str r request.method (route_of exchange.1) (status_of exchange.0) + 1
  unfolding finish
  finish-handled request (outcome, route) duration r busy =
      let same_number =
        recorded_inflight prometheus request.method (route_of route) (str (status_of outcome))
          duration r in
      value-dec _ inflight_requests http_requests [] _ (rw same_number busy)
      ∙ recorded_handled prometheus request.method (route_of route) (str (status_of outcome))
          duration r

  -- What a request ends with, its count included: a response with its identifier under X-Request-ID,
  -- counted under its own status, or the exception, counted under 500.
  abbrev pub Ends : Request → Text → Exchange E → R → Result E Response × R → Type 0
  Ends request id (ok response, route) r (out, after) =
      (out ≡ ok (record response { headers = insert "X-Request-ID" id response.headers }))
      × (handled prometheus str after request.method (route_of route) response.status_code
          ≡ handled prometheus str r request.method (route_of route) response.status_code + 1)
  Ends request id (raised e, route) r (out, after) =
      (out ≡ raised e)
      × (handled prometheus str after request.method (route_of route) 500
          ≡ handled prometheus str r request.method (route_of route) 500 + 1)

  finish-Ends :
      (request : Request) (id : Text) (exchange : Exchange E) (duration : ℕ) (r s : R)
      → 0 < inflight prometheus s
      → ((ls : List String) → value s http_requests ls ≡ value r http_requests ls)
      → Ends request id exchange r
          (tagged id exchange.0, finish prometheus str request exchange duration s)
  finish-Ends request id (ok response, route) duration r s busy kept =
      (refl, finish-handled request (ok response, route) duration s busy ∙ ap (λ n. n + 1) (kept _))
  finish-Ends request id (raised e, route) duration r s busy kept =
      (refl, finish-handled request (raised e, route) duration s busy ∙ ap (λ n. n + 1) (kept _))

  -- If the rest of the application leaves the gauge and the counter of requests alone, one request
  -- leaves the gauge of requests in flight as it was, and is counted once under its method and its
  -- route: with the status of the response, which carries the identifier of the request, or with 500
  -- where the application raises, which goes on. The identifier is the one that was sent, if it has
  -- 1 to 128 characters, all of them allowed, or else the new one.
  pub dispatch_lem :
      (request : Request) (call_next : Text → R → Exchange E × R) (uuid4 : Text) (duration : ℕ)
      (r : R)
      → ((id : Text) (s : R) → inflight prometheus (call_next id s).1 ≡ inflight prometheus s)
      → ((id : Text) (s : R) (ls : List String)
          → value (call_next id s).1 http_requests ls ≡ value s http_requests ls)
      → let sent = request.x_request_id in
        let id =
          if leb 1 (length sent) && leb (length sent) 128 && all is_id_character sent
          then sent
          else uuid4 in
        let after = dispatch prometheus str request call_next uuid4 duration r in
        (inflight prometheus after.1 ≡ inflight prometheus r)
        × Ends request id (call_next id (begin prometheus r)).0 r after
  unfolding dispatch request_id_of is_request_id
  dispatch_lem request call_next uuid4 duration r keeps_inflight keeps_handled =
      let id = request_id_of request.x_request_id uuid4 in
      let r' = begin prometheus r in
      let s = call_next id r' in
      let number : inflight prometheus s.1 ≡ inflight prometheus r + 1 =
        keeps_inflight id r' ∙ begin-inflight prometheus r in
      (
        finish-inflight request s.0 duration s.1 (omega (arith, number)) ∙ omega (arith, number),
        finish-Ends request id s.0 duration r s.1 (omega (arith, number)) (λ ls.
            keeps_handled id r' ls
            ∙ (unfold begin in value-inc r inflight_requests http_requests [] ls)),
      )

-- The requests that have begun and not finished, and the registry.
pub record Serving (R : Type 0) : Type 0 where
  pub active : List Request
  pub registry : R

module _ {R : Type 0} (E : Type 0) (prometheus : Prometheus R) (str : ℕ → String) where
  -- Requests overlap as they like: one begins, one of those in flight finishes, or a handler writes
  -- other metrics.
  pub data Serves : Serving R → Serving R → Type 0 where
    begins :
        (x : Request) (s : Serving R)
        → Serves s (record { active = x ∷ s.active; registry = begin prometheus s.registry })
    finishes :
        (before after : List Request) (x : Request) (exchange : Exchange E) (duration : ℕ) (r : R)
        → Serves
            (record { active = before ++ (x ∷ after); registry = r })
            (record {
              active = before ++ after;
              registry = finish {E = E} prometheus str x exchange duration r;
            })
    handles :
        (s : Serving R) (r : R)
        → inflight prometheus r ≡ inflight prometheus s.registry
        → Serves s (record s { registry = r })

  pub data Run : Serving R → Serving R → Type 0 where
    over : {s : Serving R} → Run s s
    and_then : {s t u : Serving R} → Serves s t → Run t u → Run s u

  abbrev pub Counted : Serving R → Type 0
  Counted s = inflight prometheus s.registry ≡ length s.active

  Serves-Counted : {s t : Serving R} → Serves s t → Counted s → Counted t
  Serves-Counted (begins x s) h = begin-inflight prometheus s.registry ∙ omega (arith, h)
  Serves-Counted (finishes before after x exchange duration r) h =
      let long = length-append before (x ∷ after) in
      finish-inflight prometheus str x exchange duration r (omega (arith, h, long))
      ∙ omega (arith, h, long, length-append before after)
  Serves-Counted (handles s r e) h = e ∙ h

  -- However requests overlap, the gauge of requests in flight is at every moment the number of
  -- requests that have begun and not finished, if it is so at the start.
  pub inflight-Run : {s t : Serving R} → Run s t → Counted s → Counted t
  inflight-Run over h = h
  inflight-Run (and_then step rest) h = inflight-Run rest (Serves-Counted step h)
