-- ===== src/Distributed/Idempotency.antt =====
-- Submitting a request again: the job of the first submission, or a conflict.
use sentinel_content_safety.Base.{
  ◌≡◌, ◌≢◌, refl, sym, ◌∙◌, subst, String, none, some, Bool, true, false, str_eq, eq_iff, eq_refl,
  Option-cases, Bool-cases, inl, inr,
}
use sentinel_content_safety.Base.Action.{Result, ok, raised, Action, ◌>>=◌, modify_pure_rule, pure}
use sentinel_content_safety.Schemas.{
  ModerationRequest, ModerationJob, StoredModerationJob, ModerationJobEvent, Time,
}
use sentinel_content_safety.Distributed.Protocols.{
  JobStore, EventPublisher, job_event, ServiceError, idempotency_conflict, queue_unavailable,
}
use sentinel_content_safety.Distributed.Service.{
  Naming, Readings, fingerprint, or_new, job_id_of, normalized, new_job, new_event,
  awaits_publication, as_failed, as_accepted, Pipeline, publish_or_fail, resubmit, submit,
}

pub or_new_given :
    (r : ModerationRequest) (new : String) {rid : String}
    → r.request_id ≡ some rid
    → rid ≢ ""
    → or_new r.request_id new ≡ rid
or_new_given r new {rid} given named = rw given (elim (Bool-cases (str_eq rid "")) [
  | inl empty ↦ absurd (named ((eq_iff rid "").0 empty))
  | inr full ↦ rw full
])

module _ {S P : Type 0} (jobs : JobStore S) (publisher : EventPublisher P) (topic : String)
    (n : Naming) where
  abbrev pub sent : ModerationJobEvent → Pipeline S P → Bool × P
  sent event s =
      publisher.publish s.broker
        (record { topic = topic; key = event.job_id; payload = job_event event })

  -- The two ends of `_publish_or_fail`.
  publish_or_fail_rule :
      {B : Type 0} (Q : Result ServiceError B × Pipeline S P → Type 0) (now : Time)
      (j : StoredModerationJob) (event : ModerationJobEvent)
      (k : Unit {0} → Action ServiceError (Pipeline S P) B) (s : Pipeline S P)
      → ((sent event s).0 ≡ true → Q (k tt (record s { broker = (sent event s).1 })))
      → ((sent event s).0 ≡ false
          → Q (
            raised (queue_unavailable "broker did not acknowledge moderation job"),
            record { store = jobs.save s.store (as_failed now j); broker = (sent event s).1 },
          ))
      → Q ((publish_or_fail jobs publisher topic now j event >>= k) s)
  unfolding publish_or_fail ◌>>=◌
  publish_or_fail_rule Q now j event k s yes_case no_case = elim (Bool-cases (sent event s).0) [
    | inl e ↦ rw (e, publish_or_fail) (yes_case e)
    | inr e ↦ rw (e, publish_or_fail) (no_case e)
  ]

  module _ (t : Readings) (r : ModerationRequest) (s : Pipeline S P) where
    abbrev id : String
    id = job_id_of n (or_new r.request_id t.uuid4)

    -- `submit` on a taken identifier, and on a new one.
    pub submit_taken :
        (old : StoredModerationJob)
        → jobs.get s.store id ≡ some old
        → submit jobs publisher topic n t r s ≡ resubmit jobs publisher topic n t r old s
    unfolding submit new_job
    submit_taken old e = rw (jobs.create-absent s.store (new_job n t r)) (
        rw (jobs.create-present s.store (new_job n t r) (rw e refl))
          (rw e (rw (jobs.create-present s.store (new_job n t r) (rw e refl)) refl)))

    pub submit_new :
        jobs.get s.store id ≡ none
        → submit jobs publisher topic n t r s
          ≡ (publish_or_fail jobs publisher topic t.later (new_job n t r) (new_event n t r) >>= λ _.
                pure (new_job n t r).job)
              (record s { store = (jobs.create s.store (new_job n t r)).1 })
    unfolding submit new_job
    submit_new e = rw (jobs.create-absent s.store (new_job n t r)) (rw e refl)

  -- What the store holds after a submission under an identifier that returned a job.
  abbrev pub Kept : String → ModerationRequest → Pipeline S P → ModerationJob → Type 0
  Kept request_id r s job =
      (kept : StoredModerationJob) × (jobs.get s.store (job_id_of n request_id) ≡ some kept)
      × (kept.job ≡ job)
      × (kept.request_fingerprint ≡ fingerprint n (record r { request_id = some request_id }))
      × (awaits_publication kept.job ≡ false)
      × (kept.job.job_id ≡ job_id_of n request_id)

  abbrev pub Keeps :
      Readings → ModerationRequest → Result ServiceError ModerationJob × Pipeline S P → Type 0
  Keeps t r (ok job, s) = Kept (or_new r.request_id t.uuid4) r s job
  Keeps t r (raised e, s) = Unit {0}

  resubmit-Keeps :
      (t : Readings) (r : ModerationRequest) (s : Pipeline S P) (old : StoredModerationJob)
      → old.job.job_id ≡ job_id_of n (or_new r.request_id t.uuid4)
      → jobs.get s.store (job_id_of n (or_new r.request_id t.uuid4)) ≡ some old
      → Keeps t r (resubmit jobs publisher topic n t r old s)
  unfolding resubmit pure
  resubmit-Keeps t r s old same e =
      elim (Bool-cases (str_eq old.request_fingerprint (fingerprint n (normalized t r)))) [
        | inr differs ↦ rw differs tt
        | inl equal ↦ elim (Bool-cases (awaits_publication old.job)) [
          | inr settled ↦
              rw (equal, settled)
                (
                  old,
                  e,
                  refl,
                  (eq_iff old.request_fingerprint (fingerprint n (normalized t r))).0 equal,
                  settled,
                  same,
                )
          | inl awaits ↦
              rw (equal, awaits)
                (publish_or_fail_rule (Keeps t r) _ old _ _ s
                  (λ _. modify_pure_rule (Keeps t r) _ _ _ (
                    as_accepted t.later old,
                    jobs.get-save s.store (as_accepted t.later old) _ (rw same (rw e refl))
                        ∙ rw ((eq_iff old.job.job_id _).1 same) refl,
                    refl,
                    (eq_iff old.request_fingerprint _).0 equal,
                    refl,
                    same,
                  ))
                  (λ _. tt))
        ]
      ]

  -- Every job is held under its own identifier.
  abbrev pub IsKeyed : S → Type 0
  IsKeyed store =
      (id : String) (j : StoredModerationJob) → jobs.get store id ≡ some j → j.job.job_id ≡ id

  pub submit-Keeps :
      (t : Readings) (r : ModerationRequest) (s : Pipeline S P)
      → IsKeyed s.store
      → Keeps t r (submit jobs publisher topic n t r s)
  unfolding pure
  submit-Keeps t r s keyed =
      elim (Option-cases (jobs.get s.store (job_id_of n (or_new r.request_id t.uuid4)))) [
        | inr (old, e) ↦ rw (submit_taken t r s old e) (resubmit-Keeps t r s old (keyed _ old e) e)
        | inl absent ↦ rw (submit_new t r s absent) (
            publish_or_fail_rule (Keeps t r) _ _ _ _ _
              (λ _.
                unfold new_job in
                (
                  new_job n t r,
                  jobs.get-create s.store (new_job n t r) _
                      ∙ rw (eq_refl (job_id_of n (or_new r.request_id t.uuid4))) (rw absent refl),
                  refl,
                  refl,
                  refl,
                  refl,
                ))
              (λ _. tt))
      ]

  Kept-again :
      (t : Readings) (r : ModerationRequest) (s : Pipeline S P) (job : ModerationJob)
      → Kept (or_new r.request_id t.uuid4) r s job
      → submit jobs publisher topic n t r s ≡ (ok job, s)
  unfolding resubmit pure
  Kept-again t r s job (kept, held, same, print, settled, _) =
      submit_taken t r s kept held
      ∙ rw ((eq_iff kept.request_fingerprint _).1 print) (rw settled (rw same refl))

  -- Over a store that holds every job under its own identifier: once a request with an identifier was
  -- accepted, submitting it again gives the same job, and publishes and stores nothing, whatever the
  -- broker would answer.
  pub submit_again :
      (t t' : Readings) (r : ModerationRequest) (s s' : Pipeline S P) {rid : String}
      {job : ModerationJob}
      → IsKeyed s.store
      → r.request_id ≡ some rid
      → rid ≢ ""
      → submit jobs publisher topic n t r s ≡ (ok job, s')
      → submit jobs publisher topic n t' r s' ≡ (ok job, s')
  submit_again t t' r s s' {rid} {job} keyed given named e = Kept-again t' r s' job (
      subst (λ x. Kept x r s' job)
        (or_new_given r t.uuid4 given named ∙ sym (or_new_given r t'.uuid4 given named))
        (subst (Keeps t r) e (submit-Keeps t r s keyed)))

  -- The identifier of an accepted request with other content is refused: the call raises a conflict
  -- and leaves the jobs and the broker as they were.
  pub submit_conflict :
      (t : Readings) (r : ModerationRequest) (s : Pipeline S P) (old : StoredModerationJob)
      → jobs.get s.store (job_id_of n (or_new r.request_id t.uuid4)) ≡ some old
      → old.request_fingerprint ≢ fingerprint n (normalized t r)
      → submit jobs publisher topic n t r s
        ≡ (raised (idempotency_conflict (or_new r.request_id t.uuid4)), s)
  unfolding resubmit
  submit_conflict t r s old held differs =
      submit_taken t r s old held
      ∙ elim (Bool-cases (str_eq old.request_fingerprint (fingerprint n (normalized t r)))) [
        | inl e ↦ absurd (differs ((eq_iff old.request_fingerprint _).0 e))
        | inr e ↦ rw e refl
      ]
