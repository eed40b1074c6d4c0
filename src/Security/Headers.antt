-- ===== src/Security/Headers.antt =====
-- `dispatch` and `_apply_security_headers` of src/sentinel/security/middleware.py, over the rest of
-- the application, which answers or raises.
use sentinel_content_safety.Base.{
  ℕ, ◌≡◌, ◌∙◌, refl, String, Bool, true, false, ◌||◌, Option, none, some, str_eq, if◌then◌else◌,
  ◌⊎◌, inl, inr, List, subst,
}
use sentinel_content_safety.Base.Action.{Result, ok, raised, ok-injective}
use sentinel_content_safety.Base.Dict.{Dict, lookup, insert, lookup-insert}
use sentinel_content_safety.Security.Config.{SecuritySettings, ParsedInt}
use sentinel_content_safety.Security.Middleware.{
  Request, Response, Screened, rejected, passed, cached, reject_oversized, reject_rate_limited,
  Floats, TokenBucket,
}

abbrev pub is_docs : String → Bool
is_docs path = str_eq path "/docs" || str_eq path "/redoc" || str_eq path "/openapi.json"

abbrev pub content_policy : String
content_policy = "default-src 'none'; frame-ancestors 'none'; base-uri 'none'"

module _ (str : ℕ → String) (settings : SecuritySettings) where
  -- The five headers that every response is given.
  abbrev pub fixed_headers : Dict String → Dict String
  fixed_headers headers = insert "Cache-Control" "no-store" (
      insert "Permissions-Policy" "camera=(), microphone=(), geolocation=()" (
        insert "Referrer-Policy" "no-referrer"
          (insert "X-Frame-Options" "DENY" (insert "X-Content-Type-Options" "nosniff" headers))))

  abbrev pub policy_header : String → Dict String → Dict String
  policy_header path headers =
      if is_docs path then headers else insert "Content-Security-Policy" content_policy headers

  abbrev pub transport_header : Dict String → Dict String
  transport_header headers =
      if settings.hsts_enabled
      then insert "Strict-Transport-Security" "max-age=31536000; includeSubDomains" headers
      else headers

  -- `request.state.rate_limit_remaining`, where the limit applied.
  abbrev pub limit_headers : Option ℕ → Dict String → Dict String
  limit_headers none headers = headers
  limit_headers (some remaining) headers =
      insert "RateLimit-Reset" (str settings.rate_limit_window_seconds) (
        insert "RateLimit-Remaining" (str remaining)
          (insert "RateLimit-Limit" (str settings.rate_limit_requests) headers))

  -- `_apply_security_headers`
  unfoldable pub apply_security_headers : String → Option ℕ → Response → Response
  apply_security_headers path remaining response = record response {
    headers =
        limit_headers remaining
          (transport_header (policy_header path (fixed_headers response.headers)));
  }

  abbrev pub protected : {E : Type 0} → String → Option ℕ → Result E Response → Result E Response
  protected path remaining (ok response) = ok (apply_security_headers path remaining response)
  protected path remaining (raised e) = raised e

  module _ {F W E : Type 0} (floats : Floats F) (int : String → Option ParsedInt) where
    -- The part of `dispatch` for a request whose body is within the limit.
    unfoldable pub limited :
        F
        → Request
        → (Screened → W → Result E Response × W)
        → Screened
        → Dict (TokenBucket F)
        → W
        → (Result E Response × Dict (TokenBucket F)) × W
    limited now request call_next body buckets w =
        let (outcome, buckets') = reject_rate_limited floats settings str now request buckets in
        elim outcome [
          | inl response ↦ ((protected request.path none (ok response), buckets'), w)
          | inr remaining ↦
              let (answer, w') = call_next body w in
              ((protected request.path remaining answer, buckets'), w')
        ]

    -- `dispatch`: the application runs only for a request that no check refused.
    unfoldable pub dispatch :
        F
        → Request
        → (Screened → W → Result E Response × W)
        → Dict (TokenBucket F)
        → W
        → (Result E Response × Dict (TokenBucket F)) × W
    unfolding limited
    dispatch now request call_next buckets w = elim (reject_oversized int settings request) [
      | rejected response ↦ ((protected request.path none (ok response), buckets), w)
      | passed ↦ limited now request call_next passed buckets w
      | cached body ↦ limited now request call_next (cached body) buckets w
    ]

-- The headers of the runtime contract, on a response.
pub record IsProtected (settings : SecuritySettings) (path : String) (headers : Dict String)
    : Type 0 where
  pub cache : lookup "Cache-Control" headers ≡ some "no-store"
  pub permissions :
      lookup "Permissions-Policy" headers ≡ some "camera=(), microphone=(), geolocation=()"
  pub referrer : lookup "Referrer-Policy" headers ≡ some "no-referrer"
  pub frame : lookup "X-Frame-Options" headers ≡ some "DENY"
  pub content_type : lookup "X-Content-Type-Options" headers ≡ some "nosniff"
  pub policy :
      (is_docs path ≡ true) ⊎ (lookup "Content-Security-Policy" headers ≡ some content_policy)
  pub transport :
      (settings.hsts_enabled ≡ false)
      ⊎ (lookup "Strict-Transport-Security" headers ≡ some "max-age=31536000; includeSubDomains")

Either-cases : {A B : Type 0} (o : A ⊎ B) → ((a : A) × (o ≡ inl a)) ⊎ ((b : B) × (o ≡ inr b))
Either-cases (inl a) = inl (a, refl)
Either-cases (inr b) = inr (b, refl)

Screened-cases :
    (o : Screened)
    → ((r : Response) × (o ≡ rejected r)) ⊎ ((o ≡ passed) ⊎ ((body : List ℕ) × (o ≡ cached body)))
Screened-cases (rejected r) = inl (r, refl)
Screened-cases passed = inr (inl refl)
Screened-cases (cached body) = inr (inr (body, refl))

module _ (str : ℕ → String) (settings : SecuritySettings) where
  -- The headers with the two tests as arguments.
  abbrev headers_with : Bool → Bool → Option ℕ → Dict String → Dict String
  headers_with docs hsts remaining headers =
      let policy =
        if docs
        then fixed_headers str settings headers
        else insert "Content-Security-Policy" content_policy (fixed_headers str settings headers) in
      limit_headers str settings remaining (
        if hsts
        then insert "Strict-Transport-Security" "max-age=31536000; includeSubDomains" policy
        else policy)

  -- The later headers leave a fixed one as it is.
  fixed_header :
      (k : String) (docs hsts : Bool) (remaining : Option ℕ) (headers : Dict String)
      → str_eq "Content-Security-Policy" k ≡ false
      → str_eq "Strict-Transport-Security" k ≡ false
      → str_eq "RateLimit-Limit" k ≡ false
      → str_eq "RateLimit-Remaining" k ≡ false
      → str_eq "RateLimit-Reset" k ≡ false
      → lookup k (headers_with docs hsts remaining headers)
        ≡ lookup k (fixed_headers str settings headers)
  fixed_header k true true none headers _ b _ _ _ = simp (lookup-insert, b)
  fixed_header k true true (some n) headers _ b c e f = simp (lookup-insert, b, c, e, f)
  fixed_header k true false none headers _ _ _ _ _ = simp lookup-insert
  fixed_header k true false (some n) headers _ _ c e f = simp (lookup-insert, c, e, f)
  fixed_header k false true none headers a b _ _ _ = simp (lookup-insert, a, b)
  fixed_header k false true (some n) headers a b c e f = simp (lookup-insert, a, b, c, e, f)
  fixed_header k false false none headers a _ _ _ _ = simp (lookup-insert, a)
  fixed_header k false false (some n) headers a _ c e f = simp (lookup-insert, a, c, e, f)

  policy_set :
      (docs hsts : Bool) (remaining : Option ℕ) (headers : Dict String)
      → (docs ≡ true)
        ⊎ (lookup "Content-Security-Policy" (headers_with docs hsts remaining headers)
            ≡ some content_policy)
  policy_set true hsts remaining headers = inl refl
  policy_set false true none headers = inr (simp lookup-insert)
  policy_set false true (some n) headers = inr (simp lookup-insert)
  policy_set false false none headers = inr (simp lookup-insert)
  policy_set false false (some n) headers = inr (simp lookup-insert)

  transport_set :
      (docs hsts : Bool) (remaining : Option ℕ) (headers : Dict String)
      → (hsts ≡ false)
        ⊎ (lookup "Strict-Transport-Security" (headers_with docs hsts remaining headers)
            ≡ some "max-age=31536000; includeSubDomains")
  transport_set docs false remaining headers = inl refl
  transport_set true true none headers = inr (simp lookup-insert)
  transport_set true true (some n) headers = inr (simp lookup-insert)
  transport_set false true none headers = inr (simp lookup-insert)
  transport_set false true (some n) headers = inr (simp lookup-insert)

  apply_security_headers-IsProtected :
      (path : String) (remaining : Option ℕ) (response : Response)
      → IsProtected settings path
          (apply_security_headers str settings path remaining response).headers
  unfolding apply_security_headers
  apply_security_headers-IsProtected path remaining response =
      let docs = is_docs path in
      let hsts = settings.hsts_enabled in
      let headers = response.headers in
      record {
        cache =
            fixed_header "Cache-Control" docs hsts remaining headers refl refl refl refl refl
            ∙ simp lookup-insert;
        permissions =
            fixed_header "Permissions-Policy" docs hsts remaining headers refl refl refl refl refl
            ∙ simp lookup-insert;
        referrer =
            fixed_header "Referrer-Policy" docs hsts remaining headers refl refl refl refl refl
            ∙ simp lookup-insert;
        frame =
            fixed_header "X-Frame-Options" docs hsts remaining headers refl refl refl refl refl
            ∙ simp lookup-insert;
        content_type =
            fixed_header "X-Content-Type-Options" docs hsts remaining headers refl refl refl refl
              refl
            ∙ simp lookup-insert;
        policy = policy_set docs hsts remaining headers;
        transport = transport_set docs hsts remaining headers;
      }

  protected-IsProtected :
      {E : Type 0} (path : String) (remaining : Option ℕ) (answer : Result E Response)
      {response : Response}
      → protected str settings path remaining answer ≡ ok response
      → IsProtected settings path response.headers
  protected-IsProtected path remaining (ok r) e =
      subst (λ (x : Response). IsProtected settings path x.headers) (ok-injective e)
        (apply_security_headers-IsProtected path remaining r)
  protected-IsProtected path remaining (raised x) e = cc

  module _ {F W E : Type 0} (floats : Floats F) (int : String → Option ParsedInt) where
    module _ (now : F) (request : Request) (call_next : Screened → W → Result E Response × W)
        (buckets : Dict (TokenBucket F)) (w : W) where
      limited-IsProtected :
          (body : Screened) {response : Response}
          → (limited str settings floats int now request call_next body buckets w).0.0 ≡ ok response
          → IsProtected settings request.path response.headers
      unfolding limited
      limited-IsProtected body {response} e =
          elim (Either-cases (reject_rate_limited floats settings str now request buckets).0) [
            | inl (refusal, r) ↦
                protected-IsProtected request.path none (ok refusal) (rw (r, limited) at e)
            | inr (remaining, r) ↦
                protected-IsProtected request.path remaining (call_next body w).0
                  (rw (r, limited) at e)
          ]

      -- Every response that leaves the middleware, a refusal or the answer of the application,
      -- carries the headers of the contract: the fixed five, the content policy but on the pages of
      -- the documentation, and HSTS where it is on.
      pub dispatch-IsProtected :
          {response : Response}
          → (dispatch str settings floats int now request call_next buckets w).0.0 ≡ ok response
          → IsProtected settings request.path response.headers
      unfolding dispatch
      dispatch-IsProtected {response} e =
          elim (Screened-cases (reject_oversized int settings request)) [
            | inl (refusal, r) ↦
                protected-IsProtected request.path none (ok refusal) (rw (r, dispatch) at e)
            | inr (inl r) ↦ limited-IsProtected passed (rw (r, dispatch) at e)
            | inr (inr (body, r)) ↦ limited-IsProtected (cached body) (rw (r, dispatch) at e)
          ]
