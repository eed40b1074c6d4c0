-- ===== src/Api/Queue.antt =====
-- What the routes of moderation make of the engine and of the services behind them.
use sentinel_content_safety.Base.{
  ℕ, ◌≡◌, ◌≢◌, refl, ap, ◌∙◌, String, true, false, Option, none, some, ◌⊎◌, inl, inr, Bool-cases,
  Option-cases,
}
use sentinel_content_safety.Base.Action.{ok, pure, modify, ◌>>=◌}
use sentinel_content_safety.Schemas.{ModerationRequest, ModerationResponse}
use sentinel_content_safety.Core.Normalization.{Unicode}
use sentinel_content_safety.Core.Threat.{ThreatSettings, ThreatVectorStore}
use sentinel_content_safety.Core.Engine.{ToxicityModel, Stamp, default, moderate}
use sentinel_content_safety.Core.Catch.{moderate-total}
use sentinel_content_safety.Review.Models.{ReviewCase, Platform, ReviewAction}
use sentinel_content_safety.Review.Repository.Memory
use sentinel_content_safety.Review.Repository.Memory.{Memory}
use sentinel_content_safety.Review.Service.{
  Readings, requires_review, case_id_of, enqueue, new_case, record_event,
}
use sentinel_content_safety.Review.Durable.{memory_repository}
use sentinel_content_safety.Review.Intake.{enqueue_finds}
use sentinel_content_safety.Observability.Metrics.{Prometheus}
use sentinel_content_safety.Api.Http.{Served, catching, on_repository}
use sentinel_content_safety.Api.Routes.{announce, enqueue_response, answered, moderate_text}

-- A response that needs review has a case from `enqueue`.
enqueue-some :
    (p : Platform) (t : Readings) (r : ModerationResponse) (m : Memory)
    → requires_review r ≡ true
    → (c : ReviewCase) × (m' : Memory) × (enqueue p memory_repository t r m ≡ (ok (some c), m'))
unfolding enqueue
enqueue-some p t r m needed = elim (Option-cases (Memory.find_by_request_id m r.request_id)) [
  | inl new ↦ (
    new_case p t r,
    record_event p memory_repository t (new_case p t r) ReviewAction.created "system" none none
        "automated_review_required" m,
    rw needed (rw new refl),
  )
  | inr (c, old) ↦ (c, m, rw needed (rw old refl))
]

enqueue-none :
    (p : Platform) (t : Readings) (r : ModerationResponse) (m : Memory)
    → requires_review r ≡ false
    → enqueue p memory_repository t r m ≡ (ok none, m)
unfolding enqueue
enqueue-none p t r m idle = rw idle refl

module _ {R : Type 0} (p : Platform) (prometheus : Prometheus R) where
  -- Whatever `enqueue` gives, the route answers with the response, over the repository of `enqueue`.
  answered-repository :
      (t : Readings) (path : String) (duration : ℕ) (r : ModerationResponse) (s : Served Memory R)
      (found : Option ReviewCase) {m : Memory}
      → enqueue p memory_repository t r s.repository ≡ (ok found, m)
      → let out = answered p prometheus (some memory_repository) t path duration r r s in
        (out.0 ≡ ok r) × (out.1.repository ≡ m)
  unfolding answered enqueue_response announce catching on_repository ◌>>=◌ pure modify
  answered-repository t path duration r s none e = rw e (refl, refl)
  answered-repository t path duration r s (some c) e = rw e (refl, refl)

  answered_text :
      {T : Type 0} (text_engine : ModerationRequest → T → Option (ModerationResponse × T))
      (t : Readings) (duration : ℕ) (payload : ModerationRequest) (store : T) (s : Served Memory R)
      {r : ModerationResponse} {store' : T}
      → text_engine payload store ≡ some (r, store')
      → moderate_text p prometheus text_engine (some memory_repository) t duration payload store s
        ≡ (answered p prometheus (some memory_repository) t "synchronous" duration r r s, store')
  unfolding moderate_text
  answered_text text_engine t duration payload store s e = rw (e, moderate_text) refl

  -- Of the default engine, whatever its model and its threat intelligence say, with the in-memory
  -- repository, if no UUID5 is an empty text: the engine answers, the route of texts answers with
  -- just that response, and either the response needs no review and no case is written, or a case
  -- stands under the identifier of the request.
  pub moderate_text-queued :
      {V T : Type 0} (u : Unicode) (toxicity_model : Option ToxicityModel)
      (threat : Option (ThreatSettings V × ThreatVectorStore V T)) (stamp : Stamp) (t : Readings)
      (duration : ℕ) (payload : ModerationRequest) (store : T) (s : Served Memory R)
      → ((r : ModerationResponse) → case_id_of p r ≢ "")
      → let out =
          moderate_text p prometheus
            (moderate u (default toxicity_model threat) stamp)
            (some memory_repository)
            t
            duration
            payload
            store
            s in
        (response : ModerationResponse) × (store' : T) × (moderate u
            (default toxicity_model threat)
            stamp
            payload
            store
          ≡ some (response, store'))
        × (out.0.0 ≡ ok response)
        × ((requires_review response ≡ false) × (out.0.1.repository ≡ s.repository)
            ⊎ (c : ReviewCase) × (Memory.find_by_request_id out.0.1.repository response.request_id
                ≡ some c))
  moderate_text-queued u toxicity_model threat stamp t duration payload store s named =
      let ((response, store'), given) =
        moderate-total u toxicity_model threat stamp payload store in
      let routed =
        answered_text (moderate u (default toxicity_model threat) stamp) t duration payload store s
          given in
      elim (Bool-cases (requires_review response)) [
        | inr idle ↦
            let (answer, unchanged) =
              answered-repository t "synchronous" duration response s none
                (enqueue-none p t response s.repository idle) in
            (
              response,
              store',
              given,
              ap (λ x. x.0.0) routed ∙ answer,
              inl (idle, ap (λ x. x.0.1.repository) routed ∙ unchanged),
            )
        | inl needed ↦
            let (c, m, queued) = enqueue-some p t response s.repository needed in
            let (answer, kept) =
              answered-repository t "synchronous" duration response s (some c) queued in
            (
              response,
              store',
              given,
              ap (λ x. x.0.0) routed ∙ answer,
              inr (
                c,
                ap (λ x. Memory.find_by_request_id x.0.1.repository response.request_id) routed
                    ∙ ap (λ x. Memory.find_by_request_id x response.request_id) kept
                    ∙ enqueue_finds p s.repository t response (named response) queued,
              ),
            )
      ]
