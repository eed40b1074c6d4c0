-- ===== src/Security/Bounds.antt =====
-- What the limit on bodies and the rate limit guarantee.
use sentinel_content_safety.Base.{
  ℕ, ◌+◌, ◌≤◌, ◌≡◌, refl, String, true, Option, none, some, List, [], ◌∷◌, ◌++◌, length, append-nil,
  append_assoc, str_eq, eq_iff, ltb, if◌then◌else◌, arith, Option-cases, inl, inr, is_some,
}
use sentinel_content_safety.Base.Dict.{Dict, lookup, insert, lookup-insert_self}
use sentinel_content_safety.Security.Config.{ParsedInt, SecuritySettings}
use sentinel_content_safety.Security.Middleware.{
  Request, error, has_body, Screened, rejected, cached, receive, declared_size, reject_oversized,
  Floats, TokenBucket, overflow, prune, bucket_for, consume_token, refilled,
}

abbrev pub total : List (List ℕ) → ℕ
total [] = 0
total (chunk ∷ chunks) = length chunk + total chunks

abbrev pub join : List (List ℕ) → List ℕ
join [] = []
join (chunk ∷ chunks) = chunk ++ join chunks

receive-total :
    (limit : ℕ) (chunks : List (List ℕ)) (received : ℕ) (body : List ℕ)
    → received ≤ limit
    → receive limit chunks received body ≡ (
        if ltb limit (received + total chunks)
        then rejected (error 413 "request body exceeds the configured limit")
        else cached (body ++ join chunks))
unfolding receive
receive-total limit [] received body h = ground (arith, append-nil body)
receive-total limit (chunk ∷ chunks) received body h = ground (
  arith,
  receive-total limit chunks (received + length chunk) (body ++ chunk),
  append_assoc body chunk (join chunks),
)

-- The limit on bodies, as a description without a loop.
abbrev pub screened : (String → Option ParsedInt) → SecuritySettings → Request → Screened
screened int settings request = elim (declared_size int settings request.content_length) [
  | some response ↦ rejected response
  | none ↦
      if ltb settings.max_request_bytes (total request.stream)
      then rejected (error 413 "request body exceeds the configured limit")
      else cached (join request.stream)
]

-- A request whose method has a body is refused for what Content-Length says, or because the bytes
-- that arrive are more than the limit, whatever it says; else the body that the application sees is
-- all that arrived.
pub reject_oversized-screened :
    (int : String → Option ParsedInt) (settings : SecuritySettings) (request : Request)
    → has_body request.method ≡ true
    → reject_oversized int settings request ≡ screened int settings request
unfolding reject_oversized
reject_oversized-screened int settings request h =
    ground (arith, receive-total settings.max_request_bytes request.stream 0 [] (omega arith))

-- The clients in a map of buckets, the shared one apart.
abbrev pub clients : {F : Type 0} → Dict (TokenBucket F) → ℕ
clients [] = 0
clients ((key, bucket) ∷ rest) = if str_eq key overflow then clients rest else clients rest + 1

module _ {F : Type 0} (floats : Floats F) (settings : SecuritySettings) where
  clients-prune :
      (now : F) (buckets : Dict (TokenBucket F))
      → clients (prune floats settings now buckets) ≤ clients buckets
  unfolding prune
  clients-prune now [] = omega arith
  clients-prune now ((key, bucket) ∷ rest) = ground (arith, clients-prune now rest)

  clients-le : (buckets : Dict (TokenBucket F)) → clients buckets ≤ length buckets
  clients-le [] = omega arith
  clients-le ((key, bucket) ∷ rest) = ground (arith, clients-le rest)

  clients-insert_held :
      (key : String) (b : TokenBucket F) (buckets : Dict (TokenBucket F))
      → is_some (lookup key buckets) ≡ true
      → clients (insert key b buckets) ≡ clients buckets
  unfolding lookup insert
  clients-insert_held key b [] h = ground arith
  clients-insert_held key b ((k, v) ∷ rest) h = ground (arith, clients-insert_held key b rest)

  clients-insert_new :
      (key : String) (b : TokenBucket F) (buckets : Dict (TokenBucket F))
      → clients (insert key b buckets) ≤ clients buckets + 1
  unfolding insert
  clients-insert_new key b [] = ground arith
  clients-insert_new key b ((k, v) ∷ rest) = ground (arith, clients-insert_new key b rest)

  clients-insert_shared :
      (b : TokenBucket F) (buckets : Dict (TokenBucket F))
      → clients (insert overflow b buckets) ≡ clients buckets
  unfolding insert
  clients-insert_shared b [] = refl
  clients-insert_shared b ((k, v) ∷ rest) =
      ground (arith, eq_iff k overflow, clients-insert_shared b rest)

  -- The bucket of a request is in the map that it comes with, and the bound is kept.
  bucket_for-held :
      (now : F) (client_key : String) (buckets : Dict (TokenBucket F))
      → clients buckets ≤ settings.rate_limit_max_clients
      → let (key, _, buckets') = bucket_for floats settings now client_key buckets in
        (is_some (lookup key buckets') ≡ true)
        × (clients buckets' ≤ settings.rate_limit_max_clients)
  unfolding bucket_for
  bucket_for-held now client_key buckets h = elim (Option-cases (lookup client_key buckets)) [
    | inr (bucket, e) ↦ rw (e, bucket_for) (rw e refl, h)
    | inl missing ↦
        let pruned = prune floats settings now buckets in
        let fresh : TokenBucket F = record {
          tokens = floats.of_nat settings.rate_limit_requests;
          updated_at = now;
        } in
        ground (
          arith,
          clients-prune now buckets,
          clients-le pruned,
          lookup-insert_self client_key fresh pruned,
          lookup-insert_self overflow fresh pruned,
          clients-insert_new client_key fresh pruned,
          clients-insert_shared fresh pruned,
        )
  ]

  -- One request never takes the number of clients that have a bucket of their own above the limit:
  -- the clients that come after the map is full share one bucket.
  pub consume_token-clients :
      (now : F) (client_key : String) (buckets : Dict (TokenBucket F))
      → clients buckets ≤ settings.rate_limit_max_clients
      → clients (consume_token floats settings now client_key buckets).1
        ≤ settings.rate_limit_max_clients
  unfolding consume_token
  consume_token-clients now client_key buckets h =
      let (key, bucket, buckets') = bucket_for floats settings now client_key buckets in
      let (held, few) = bucket_for-held now client_key buckets h in
      ground (
        arith,
        clients-insert_held key
            (record { tokens = refilled floats settings now bucket; updated_at = now }) buckets'
            held,
        clients-insert_held key
            (record {
              tokens = floats.sub (refilled floats settings now bucket) (floats.of_nat 1);
              updated_at = now;
            })
            buckets' held,
      )
