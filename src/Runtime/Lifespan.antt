-- ===== src/Runtime/Lifespan.antt =====
-- `lifespan` of src/sentinel/main.py. What it opens and closes is a parameter, with the state of the
-- world outside.
use sentinel_content_safety.Base.{
  ◌≡◌, refl, ap, sym, ◌∙◌, Bool, true, false, Bool-cases, inl, inr, Option, none, some, is_some,
  if◌then◌else◌,
}
use sentinel_content_safety.Base.Action.{
  Result, ok, raised, Action, pure, modify, ◌>>=◌, ◌>>◌, Result-cases, ok-injective,
}
use sentinel_content_safety.Runtime.{Environment, is_enabled}

-- What the application opens: each may raise, and changes the world.
pub record Parts (E W M I L A J : Type 0) : Type 0 where
  pub build_moderation_engine : Action E W M
  pub build_image_safety_model : Action E W (Option I)
  pub build_review_system : Action E W (Option L × Option A)
  pub build_job_service_from_env : Action E W J
  pub close_job_service : J → Action E W (Unit {0})
  pub close_moderation_engine : M → Action E W (Unit {0})

-- `app.state`, with the world.
pub record App (W M I L A J : Type 0) : Type 0 where
  pub ready : Bool
  pub moderation_engine : Option M
  pub image_safety_model : Option I
  pub review_service : Option L
  pub review_authorizer : Option A
  pub job_service : Option J
  pub world : W

module _ {E W M I L A J : Type 0} (parts : Parts E W M I L A J) where
  -- A call that reads and writes the world only.
  unfoldable pub outside : {X : Type 0} → Action E W X → Action E (App W M I L A J) X
  outside call app = let (r, w) = call app.world in (r, record app { world = w })

  -- The job service, where the environment asks for it.
  unfoldable pub open_jobs : Environment → Action E W (Option J)
  unfolding ◌>>=◌
  open_jobs env =
      if is_enabled env "SENTINEL_DISTRIBUTED_ENABLED"
      then (do job_service ← parts.build_job_service_from_env; pure (some job_service))
      else pure none

  -- `lifespan` up to its `yield`; what the rest needs is its result.
  unfoldable pub startup : Environment → Action E (App W M I L A J) (M × Option J)
  unfolding ◌>>=◌ outside open_jobs
  startup env = do
    modify (λ app. record app { ready = false })
    moderation_engine ← outside parts.build_moderation_engine
    modify (λ app. record app { moderation_engine = some moderation_engine })
    image_safety_model ← outside parts.build_image_safety_model
    modify (λ app. record app { image_safety_model = image_safety_model })
    (review_service, review_authorizer) ← outside parts.build_review_system
    modify (λ app. record app {
      review_service = review_service;
      review_authorizer = review_authorizer;
    })
    job_service ← outside (open_jobs env)
    modify (λ app. record app { job_service = job_service; ready = true })
    pure (moderation_engine, job_service)

  abbrev pub close_jobs : Option J → Action E W (Unit {0})
  close_jobs none = pure tt
  close_jobs (some job_service) = parts.close_job_service job_service

  -- The `finally` of `lifespan`.
  unfoldable pub shutdown : M × Option J → Action E (App W M I L A J) (Unit {0})
  unfolding ◌>>=◌ outside
  shutdown (moderation_engine, job_service) = do
    modify (λ app. record app { ready = false })
    outside (close_jobs job_service)
    outside (parts.close_moderation_engine moderation_engine)

  -- What holds of the end of a call outside and what follows it.
  module _ {X Y : Type 0} (P : Result E Y × App W M I L A J → Type 0) where
    outside_rule :
        (call : Action E W X) (k : X → Action E (App W M I L A J) Y) (app : App W M I L A J)
        → ((x : X) (w : W) → (call app.world).0 ≡ ok x → P (k x (record app { world = w })))
        → ((e : E) (w : W) → P (raised e, record app { world = w }))
        → P ((outside call >>= k) app)
    unfolding ◌>>=◌ outside
    outside_rule call k app returned failed = elim (Result-cases (call app.world).0) [
      | inl (x, e) ↦ rw e (returned x (call app.world).1 e)
      | inr (x, e) ↦ rw e (failed x (call app.world).1)
    ]

  open_jobs-is_some :
      (env : Environment) (w : W) {jobs : Option J}
      → (open_jobs env w).0 ≡ ok jobs
      → is_some jobs ≡ is_enabled env "SENTINEL_DISTRIBUTED_ENABLED"
  unfolding open_jobs ◌>>=◌
  open_jobs-is_some env w h = elim (Bool-cases (is_enabled env "SENTINEL_DISTRIBUTED_ENABLED")) [
    | inl on ↦ elim (Result-cases (parts.build_job_service_from_env w).0) [
      | inl (job_service, e) ↦
          let h' = rw (on, e, open_jobs) at h in ap is_some (sym (ok-injective h')) ∙ sym on
      | inr (x, e) ↦ let h' = rw (on, e, open_jobs) at h in cc
    ]
    | inr off ↦ let h' = rw (off, open_jobs) at h in ap is_some (sym (ok-injective h')) ∙ sym off
  ]

  -- How the application stands after its start: ready just if nothing was raised; then with the engine
  -- and the job service that will be closed, the latter just where the environment asks for one.
  abbrev pub HasStarted : Environment → Result E (M × Option J) × App W M I L A J → Type 0
  HasStarted env (ok (engine, jobs), app) =
      (app.ready ≡ true)
      × (app.moderation_engine ≡ some engine)
      × (app.job_service ≡ jobs)
      × (is_some jobs ≡ is_enabled env "SENTINEL_DISTRIBUTED_ENABLED")
  HasStarted env (raised e, app) = app.ready ≡ false

  -- The application is ready after its start just if the start raised nothing, and then it holds what
  -- will be closed; whatever the closing raises, it is not ready any more.
  pub lifespan-ready :
      (env : Environment) (app : App W M I L A J)
      → HasStarted env (startup env app)
        × ((held : M × Option J) (running : App W M I L A J)
            → let (_, ended) = shutdown held running in ended.ready ≡ false)
  unfolding startup shutdown ◌>>=◌ outside
  lifespan-ready env app = (
    outside_rule (HasStarted env) parts.build_moderation_engine _ (record app { ready = false })
        (λ engine w _.
          outside_rule (HasStarted env) parts.build_image_safety_model _ _
            (λ image v _.
              outside_rule (HasStarted env) parts.build_review_system _ _
                (λ review u _.
                  outside_rule (HasStarted env) (open_jobs env) _ _
                    (λ jobs t opened. (refl, refl, refl, open_jobs-is_some env u opened))
                    (λ e t. refl))
                (λ e u. refl))
            (λ e v. refl))
        (λ e w. refl),
    λ (engine, jobs) running.
        outside_rule (λ out. out.1.ready ≡ false) (close_jobs jobs) _
          (record running { ready = false }) (λ u w _. refl) (λ e w. refl),
  )
