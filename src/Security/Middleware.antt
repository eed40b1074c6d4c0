-- ===== src/Security/Middleware.antt =====
-- `ProductionSecurityMiddleware` of src/sentinel/security/middleware.py: the limit on request bodies,
-- the rate limit per client, and the headers. The arithmetic of floats is a parameter.
use sentinel_content_safety.Base.{
  ℕ, ◌+◌, ◌*◌, String, Bool, true, false, not, ◌||◌, Option, none, some, List, [], ◌∷◌, ◌++◌,
  length, str_eq, ltb, leb, if◌then◌else◌, ◌⊎◌, inl, inr,
}
use sentinel_content_safety.Base.Dict.{Dict, lookup, insert}
use sentinel_content_safety.Security.Config.{SecuritySettings, ParsedInt, natural, negative}

pub record Response : Type 0 where
  pub status_code : ℕ
  pub detail : String
  pub headers : List (String × String)

pub record Request : Type 0 where
  pub method : String
  pub path : String
  pub host : Option String
  pub content_length : Option String
  pub stream : List (List ℕ)

-- `_error`
abbrev pub error : ℕ → String → Response
error status_code detail = record { status_code = status_code; detail = detail; headers = [] }

abbrev pub has_body : String → Bool
has_body method = str_eq method "POST" || str_eq method "PUT" || str_eq method "PATCH"

-- A rejection, or the body that the request goes on with; a method without body keeps its stream.
pub data Screened : Type 0 where
  rejected : Response → Screened
  passed : Screened
  cached : List ℕ → Screened

-- The loop over the chunks of the stream.
unfoldable pub receive : ℕ → List (List ℕ) → ℕ → List ℕ → Screened
receive max_request_bytes [] received body = cached body
receive max_request_bytes (chunk ∷ chunks) received body =
    let rest = receive max_request_bytes chunks (received + length chunk) (body ++ chunk) in
    if ltb max_request_bytes (received + length chunk)
    then rejected (error 413 "request body exceeds the configured limit")
    else rest

-- What the header Content-Length says; an absent or empty one says nothing.
unfoldable pub declared_size :
    (String → Option ParsedInt) → SecuritySettings → Option String → Option Response
declared_size int settings none = none
declared_size int settings (some text) = if str_eq text "" then none else elim (int text) [
  | none ↦ some (error 400 "content-length must be an integer")
  | some value ↦ elim value [
    | negative n ↦ some (error 400 "content-length must not be negative")
    | natural n ↦
        if ltb settings.max_request_bytes n
        then some (error 413 "request body exceeds the configured limit")
        else none
  ]
]

-- `_reject_oversized_request`
unfoldable pub reject_oversized :
    (String → Option ParsedInt) → SecuritySettings → Request → Screened
unfolding receive declared_size
reject_oversized int settings request =
    if not (has_body request.method)
    then passed
    else elim (declared_size int settings request.content_length) [
      | some response ↦ rejected response
      | none ↦ receive settings.max_request_bytes request.stream 0 []
    ]

-- The operations on floats that the rate limit uses.
pub record Floats (F : Type 0) : Type 0 where
  pub of_nat : ℕ → F
  pub add : F → F → F
  pub sub : F → F → F
  pub mul : F → F → F
  pub div : F → F → F
  pub min : F → F → F
  pub max : F → F → F
  pub lt : F → F → Bool
  pub floor : F → ℕ
  pub ceil : F → ℕ

pub record TokenBucket (F : Type 0) : Type 0 where
  pub tokens : F
  pub updated_at : F

-- Whether a request may go on, the tokens left, and when to retry.
pub record Consumed : Type 0 where
  pub allowed : Bool
  pub remaining : ℕ
  pub retry_after : ℕ

abbrev pub overflow : String
overflow = "__overflow__"

module _ {F : Type 0} (floats : Floats F) (settings : SecuritySettings) where
  abbrev pub Buckets : Type 0
  Buckets = Dict (TokenBucket F)

  abbrev pub is_stale : F → String × TokenBucket F → Bool
  is_stale now (key, bucket) =
      floats.lt (floats.of_nat (settings.rate_limit_window_seconds * 2))
        (floats.sub now bucket.updated_at)

  -- `_prune_buckets`
  unfoldable pub prune : F → Buckets → Buckets
  prune now [] = []
  prune now (entry ∷ rest) =
      let kept = prune now rest in if is_stale now entry then kept else entry ∷ kept

  -- The bucket of a client, or the shared one where the map is full.
  unfoldable pub bucket_for : F → String → Buckets → String × TokenBucket F × Buckets
  bucket_for now client_key buckets =
      let fresh : TokenBucket F = record {
        tokens = floats.of_nat settings.rate_limit_requests;
        updated_at = now;
      } in
      elim (lookup client_key buckets) [
        | some bucket ↦ (client_key, bucket, buckets)
        | none ↦
            let pruned = prune now buckets in
            let key =
              if leb settings.rate_limit_max_clients (length pruned)
              then overflow
              else client_key in
            elim (lookup key pruned) [
              | some bucket ↦ (key, bucket, pruned)
              | none ↦ (key, fresh, insert key fresh pruned)
            ]
      ]

  abbrev pub refilled : F → TokenBucket F → F
  refilled now bucket =
      let capacity = floats.of_nat settings.rate_limit_requests in
      let refill_per_second =
        floats.div capacity (floats.of_nat settings.rate_limit_window_seconds) in
      let elapsed = floats.max (floats.of_nat 0) (floats.sub now bucket.updated_at) in
      floats.min capacity (floats.add bucket.tokens (floats.mul elapsed refill_per_second))

  abbrev pub max_nat : ℕ → ℕ → ℕ
  max_nat a b = if leb a b then b else a

  -- `_consume_token`, under its lock: the bucket is changed in place.
  unfoldable pub consume_token : F → String → Buckets → Consumed × Buckets
  unfolding bucket_for
  consume_token now client_key buckets =
      let (key, bucket, buckets') = bucket_for now client_key buckets in
      let tokens = refilled now bucket in
      let one = floats.of_nat 1 in
      let refill_per_second =
        floats.div (floats.of_nat settings.rate_limit_requests)
          (floats.of_nat settings.rate_limit_window_seconds) in
      if floats.lt tokens one
      then (
        record {
          allowed = false;
          remaining = 0;
          retry_after =
              max_nat 1 (floats.ceil (floats.div (floats.sub one tokens) refill_per_second));
        },
        insert key (record { tokens = tokens; updated_at = now }) buckets',
      )
      else (
        record {
          allowed = true;
          remaining = floats.floor (floats.sub tokens one);
          retry_after = 0;
        },
        insert key (record { tokens = floats.sub tokens one; updated_at = now }) buckets',
      )

  abbrev pub is_exempt : String → Bool
  is_exempt path = str_eq path "/health" || str_eq path "/health/ready" || str_eq path "/metrics"

  abbrev pub client_key_of : Request → String
  client_key_of request = elim request.host [ none ↦ "unknown" | some host ↦ host ]

  -- `_reject_rate_limited_request`: a rejection, or the tokens that remain where the limit applies.
  unfoldable pub reject_rate_limited :
      (ℕ → String) → F → Request → Buckets → (Response ⊎ Option ℕ) × Buckets
  unfolding consume_token
  reject_rate_limited str now request buckets =
      if not settings.rate_limit_enabled || is_exempt request.path
      then (inr none, buckets)
      else let (consumed, buckets') = consume_token now (client_key_of request) buckets in
        if consumed.allowed then (inr (some consumed.remaining), buckets') else (
          inl (record {
            status_code = 429;
            detail = "request rate limit exceeded";
            headers =
                ("Retry-After", str consumed.retry_after)
                ∷ ("RateLimit-Limit", str settings.rate_limit_requests)
                ∷ ("RateLimit-Remaining", "0")
                ∷ ("RateLimit-Reset", str consumed.retry_after)
                ∷ [];
          }),
          buckets',
        )
