-- ===== src/Api/Refusal.antt =====
-- The refusals of the handlers that change a review case.
use sentinel_content_safety.Api.Http.{unhandled}
use sentinel_content_safety.Base.Dict.{Dict}
use sentinel_content_safety.Review.Auth.{find_principal, authenticate}
use sentinel_content_safety.Api.Guard.{
  WriteRequest, claim, decide, appeal, service_call, handle, translated, handle_lem, refused,
}
use sentinel_content_safety.Base.{
  ◌||◌, subst, Option-cases, ◌≡◌, refl, sym, ap, ◌∙◌, String, Bool, true, false, [], ◌∷◌, ◌==◌,
  arith, inl, inr,
}
use sentinel_content_safety.Base.Action.{Result, ok, raised, Result-cases, raised-injective}
use sentinel_content_safety.Core.Trie.{Text}
use sentinel_content_safety.Review.Models.{
  authorization, conflict, not_found, ReviewPrincipal, ReviewCase, ReviewError, Platform,
}
use sentinel_content_safety.Review.Repository.{ReviewRepository}
use sentinel_content_safety.Review.Failed.{
  failed_claim-unchanged, failed_decide-unchanged, failed_appeal-unchanged,
}
use sentinel_content_safety.Observability.Metrics.{Prometheus}
use sentinel_content_safety.Api.Http.{HttpError, http, uncaught, Served, ReviewApp, Texts}
use sentinel_content_safety.Api.Reviews.{
  partition, unauthorized, translate, components, principal_of, authorized,
}

-- The statuses of a refusal; an exception that no handler catches is none.
abbrev pub is_refusal : HttpError → Bool
is_refusal (http status detail) =
    status == 401 || status == 403 || status == 404 || status == 409 || status == 503
is_refusal (uncaught e) = false
is_refusal unhandled = false

find_principal-refusal :
    (candidate : String) (d : Dict ReviewPrincipal) {e : HttpError}
    → unauthorized (find_principal candidate d) ≡ raised e
    → is_refusal e ≡ true
unfolding find_principal
find_principal-refusal candidate [] h = ground arith
find_principal-refusal candidate ((k, q) ∷ d) {e} h =
    ground (arith, find_principal-refusal candidate d {e = e})

principal_of-refusal :
    (t : Texts) (header : Text) (d : Dict ReviewPrincipal) {e : HttpError}
    → principal_of t header d ≡ raised e
    → is_refusal e ≡ true
unfolding principal_of authenticate
principal_of-refusal t header d {e} h = elim (Option-cases (partition header).1) [
  | inl bare ↦ let h' = rw (bare, principal_of) at h in ground arith
  | inr (token, found) ↦
      let h' = rw (found, principal_of) at h in
      ground (arith, find_principal-refusal (t.sha256 (t.string_of token)) d {e = e})
]

authorized-refusal :
    {S : Type 0} (t : Texts) (app : ReviewApp S) (header : Text) {e : HttpError}
    → authorized t app header ≡ raised e
    → is_refusal e ≡ true
unfolding authorized components
authorized-refusal t app header {e} h = elim (Option-cases app.review_service) [
  | inl off ↦ let h' = rw off at h in ground arith
  | inr (service, on) ↦ elim (Option-cases app.review_authorizer) [
    | inl off ↦ let h' = rw off at (rw on at h) in ground arith
    | inr (d, on') ↦ elim (Result-cases (principal_of t header d)) [
      | inl (q, known) ↦ let h' = rw (known, authorized) at (rw on' at (rw on at h)) in cc
      | inr (error, stop) ↦
          let h' = rw (stop, authorized) at (rw on' at (rw on at h)) in
          principal_of-refusal t header d (stop ∙ ap raised (raised-injective h'))
    ]
  ]
]

translate-refusal : (error : ReviewError) → is_refusal (translate error) ≡ true
unfolding translate
translate-refusal (not_found detail) = refl
translate-refusal (conflict detail) = refl
translate-refusal (authorization detail) = refl

module _ {S R : Type 0} (p : Platform) (prometheus : Prometheus R) (texts : Texts)
    (app : ReviewApp S) (header : Text) (s : Served S R) where
  failed_call :
      (service : ReviewRepository S) (principal : ReviewPrincipal) (request : WriteRequest)
      {error : ReviewError}
      → (service_call p service principal request s.repository).0 ≡ raised error
      → (service_call p service principal request s.repository).1 ≡ s.repository
  failed_call service principal (claim t case_id) =
      failed_claim-unchanged p service s.repository t case_id principal
  failed_call service principal (decide t case_id payload) =
      failed_decide-unchanged p service s.repository t case_id principal payload.decision
        payload.reason_code
  failed_call service principal (appeal t case_id payload) =
      failed_appeal-unchanged p service s.repository t case_id principal payload.reason_code

  -- A request to claim, decide or appeal whose body was accepted, over a repository whose writes
  -- succeed: if it fails, it has the status 401, 403, 404, 409 or 503, and leaves the repository as it
  -- was.
  pub handle-is_refusal :
      (request : WriteRequest) {error : HttpError}
      → (handle p prometheus texts app request header s).0 ≡ raised error
      → (is_refusal error ≡ true)
        × ((handle p prometheus texts app request header s).1.repository ≡ s.repository)
  handle-is_refusal request {error} h = elim (Result-cases (authorized texts app header)) [
    | inr (e, stop) ↦
        let out = refused p prometheus texts app header s request stop in
        (
          subst (λ x. is_refusal x ≡ true) (raised-injective (sym (ap (λ r. r.0) out) ∙ h))
              (authorized-refusal texts app header stop),
          ap (λ r. r.1.repository) out,
        )
    | inl ((service, principal), known) ↦
        let (answer, kept) = handle_lem p prometheus texts app header s known request in
        elim (Result-cases (service_call p service principal request s.repository).0) [
          | inl (c, e) ↦
              let answered : ◌≡◌ {A = Result HttpError ReviewCase} (ok c) (raised error) =
                sym (answer ∙ ap translated e) ∙ h in
              cc
          | inr (failure, e) ↦ (
            subst (λ x. is_refusal x ≡ true) (raised-injective (sym (answer ∙ ap translated e) ∙ h))
                (translate-refusal failure),
            kept ∙ failed_call service principal request e,
          )
        ]
  ]
