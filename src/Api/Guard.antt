-- ===== src/Api/Guard.antt =====
-- What the handlers that change a review case do, and what they leave alone.
use sentinel_content_safety.Base.{◌≡◌, refl, ◌∙◌, String, Bool, true, false, not, arith, inl, inr}
use sentinel_content_safety.Base.Action.{
  Result, ok, raised, Action, ◌>>=◌, raise_if_rule, Result-cases, raise_if, gets, modify, pure,
  bind-ok, bind-raised,
}
use sentinel_content_safety.Core.Trie.{Text}
use sentinel_content_safety.Review.Models.{
  ReviewerRole, ReviewPrincipal, ReviewCase, ReviewError, Platform,
}
use sentinel_content_safety.Review.Repository.{ReviewRepository}
use sentinel_content_safety.Review.Service.{Readings, review_roles, read_roles}
use sentinel_content_safety.Review.Service
use sentinel_content_safety.Observability.Metrics.{Prometheus}
use sentinel_content_safety.Api.Http.{
  HttpError, Served, ReviewApp, Texts, catching, on_repository, returns, catching-ok,
  catching-raised, on_repository-result,
}
use sentinel_content_safety.Api.Reviews.{
  count_failure, ReviewDecisionRequest, ReviewAppealRequest, translate, authorized, refresh_backlog,
  call_and_refresh, claim_review_case, decide_review_case, appeal_review_case, set_backlog,
}

-- The requests that change a case.
pub data WriteRequest : Type 0 where
  claim : Readings → String → WriteRequest
  decide : Readings → String → ReviewDecisionRequest → WriteRequest
  appeal : Readings → String → ReviewAppealRequest → WriteRequest

-- What a request asks of the service.
abbrev pub service_call :
    {S : Type 0}
    → Platform
    → ReviewRepository S
    → ReviewPrincipal
    → WriteRequest
    → Action ReviewError S ReviewCase
service_call p service principal (claim t case_id) = Service.claim p service t case_id principal
service_call p service principal (decide t case_id payload) =
    Service.decide p service t case_id principal payload.decision payload.reason_code
service_call p service principal (appeal t case_id payload) =
    Service.appeal p service t case_id principal payload.reason_code

-- The handler of the request.
abbrev pub handle :
    {S R : Type 0}
    → Platform
    → Prometheus R
    → Texts
    → ReviewApp S
    → WriteRequest
    → Text
    → Action HttpError (Served S R) ReviewCase
handle p prometheus texts app (claim t case_id) = claim_review_case p prometheus texts app t case_id
handle p prometheus texts app (decide t case_id payload) =
    decide_review_case p prometheus texts app t case_id payload
handle p prometheus texts app (appeal t case_id payload) =
    appeal_review_case p prometheus texts app t case_id payload

abbrev pub translated : {A : Type 0} → Result ReviewError A → Result HttpError A
translated (ok a) = ok a
translated (raised e) = raised (translate e)

not-false : (b : Bool) → not b ≡ false → b ≡ true
not-false b h = ground arith

reads : (r : ReviewerRole) → review_roles r ≡ true → read_roles r ≡ true
reads r h = ground arith

module _ {S : Type 0} (p : Platform) (service : ReviewRepository S) (principal : ReviewPrincipal)
    (s : S) where
  -- A call of the service that succeeds was made by a reviewer.
  service_call-role :
      (request : WriteRequest) {c : ReviewCase}
      → (service_call p service principal request s).0 ≡ ok c
      → review_roles principal.role ≡ true
  unfolding Service.claim Service.decide Service.appeal
  service_call-role (claim t case_id) {c} =
      raise_if_rule (λ r. r.0 ≡ ok c → review_roles principal.role ≡ true) _ _ _ s (λ _ e. cc)
        λ h _. not-false _ h
  service_call-role (decide t case_id payload) {c} =
      raise_if_rule (λ r. r.0 ≡ ok c → review_roles principal.role ≡ true) _ _ _ s (λ _ e. cc)
        λ h _. not-false _ h
  service_call-role (appeal t case_id payload) {c} =
      raise_if_rule (λ r. r.0 ≡ ok c → review_roles principal.role ≡ true) _ _ _ s (λ _ e. cc)
        λ h _. not-false _ h

module _ {S R : Type 0} (p : Platform) (prometheus : Prometheus R) (texts : Texts)
    (app : ReviewApp S) (service : ReviewRepository S) (principal : ReviewPrincipal) where
  refreshes :
      (s : Served S R)
      → review_roles principal.role ≡ true
      → refresh_backlog p prometheus texts app service principal s ≡ (
        ok tt,
        record s {
          registry = set_backlog prometheus (Service.backlog p service s.repository) s.registry;
        },
      )
  unfolding on_repository refresh_backlog ◌>>=◌ Service.list_cases raise_if gets modify
  refreshes s role = rw (reads principal.role role) refl

  module _ (call : Action ReviewError S ReviewCase)
      (handler : ReviewError → Action HttpError (Served S R) ReviewCase) where
    abbrev tried : Action HttpError (Served S R) ReviewCase
    tried = catching (call_and_refresh p prometheus texts app service principal call) handler

    module _ (s : Served S R) where
      abbrev called : Served S R
      called = record s { repository = (call s.repository).1 }

      refreshed :
          {c : ReviewCase}
          → (call s.repository).0 ≡ ok c
          → review_roles principal.role ≡ true
          → tried s ≡ (
            ok c,
            record called {
              registry =
                  set_backlog prometheus (Service.backlog p service called.repository) s.registry;
            },
          )
      unfolding pure
      refreshed {c} e role = catching-ok _ handler (
          bind-ok (on_repository call) _ (on_repository-result call s e)
          ∙ bind-ok (refresh_backlog p prometheus texts app service principal) (λ _. pure c)
              (refreshes called role))

      failed :
          {error : ReviewError}
          → (call s.repository).0 ≡ raised error
          → tried s ≡ handler error called
      failed e =
          catching-raised _ handler
            (bind-raised (on_repository call) _ (on_repository-result call s e))

  -- A handler after it knows the sender: it ends as the call of the service does.
  ends :
      (call : Action ReviewError S ReviewCase) (action : String)
      (rest : ReviewCase → Action HttpError (Served S R) ReviewCase) (s : Served S R)
      → ((c : ReviewCase) → (call s.repository).0 ≡ ok c → review_roles principal.role ≡ true)
      → ((c : ReviewCase) (u : Served S R)
          → ((rest c u).0 ≡ ok c) × ((rest c u).1.repository ≡ u.repository))
      → let attempt = tried call (count_failure p prometheus texts app action) in
        let out = ◌>>=◌ {E = HttpError} {A = ReviewCase} attempt rest s in
        (out.0 ≡ translated (call s.repository).0) × (out.1.repository ≡ (call s.repository).1)
  ends call action rest s role keeps =
      let attempt = tried call (count_failure p prometheus texts app action) in
      elim (Result-cases (call s.repository).0) [
        | inl (c, e) ↦
            rw
              (bind-ok {E = HttpError} {A = ReviewCase} attempt rest
                (refreshed call _ s e (role c e)))
              (rw e (keeps c _))
        | inr (error, e) ↦
            rw (bind-raised {E = HttpError} {A = ReviewCase} attempt rest (failed call _ s e))
              (rw e (refl, refl))
      ]

module _ {S R : Type 0} (p : Platform) (prometheus : Prometheus R) (texts : Texts)
    (app : ReviewApp S) (header : Text) (s : Served S R) where
  -- A request that is not authorized ends at once, with nothing changed.
  pub refused :
      (request : WriteRequest) {error : HttpError}
      → authorized texts app header ≡ raised error
      → handle p prometheus texts app request header s ≡ (raised error, s)
  unfolding claim_review_case decide_review_case appeal_review_case returns
  refused (claim t case_id) e = bind-raised (returns (authorized texts app header)) _ (rw e refl)
  refused (decide t case_id payload) e =
      bind-raised (returns (authorized texts app header)) _ (rw e refl)
  refused (appeal t case_id payload) e =
      bind-raised (returns (authorized texts app header)) _ (rw e refl)

  module _ {service : ReviewRepository S} {principal : ReviewPrincipal}
      (known : authorized texts app header ≡ ok (service, principal)) where
    known_step : returns (authorized texts app header) s ≡ (ok (service, principal), s)
    unfolding returns
    known_step = rw known refl

    abbrev Follows : WriteRequest → Type 0
    Follows request =
        let out = handle p prometheus texts app request header s in
        let call = service_call p service principal request s.repository in
        (out.0 ≡ translated call.0) × (out.1.repository ≡ call.1)

    -- The handler of a request whose sender is known does what the service does for that sender: it
    -- answers with the case of the service's call, or with the translation of its error, and the
    -- repository is the one that the call leaves.
    pub handle_lem : (request : WriteRequest) → Follows request
    unfolding claim_review_case decide_review_case appeal_review_case modify pure ◌>>=◌ returns
    handle_lem (claim t case_id) = rw known (
        ends p prometheus texts app service principal (Service.claim p service t case_id principal)
          "claimed" _ s (λ c. service_call-role p service principal s.repository (claim t case_id))
          (λ c u. (refl, refl)))
    handle_lem (decide t case_id payload) = rw known (
        ends p prometheus texts app service principal
          (Service.decide p service t case_id principal payload.decision payload.reason_code)
          "decided" _ s
          (λ c. service_call-role p service principal s.repository (decide t case_id payload))
          (λ c u. (refl, refl)))
    handle_lem (appeal t case_id payload) = rw known (
        ends p prometheus texts app service principal
          (Service.appeal p service t case_id principal payload.reason_code) "appealed" _ s
          (λ c. service_call-role p service principal s.repository (appeal t case_id payload))
          (λ c u. (refl, refl)))
