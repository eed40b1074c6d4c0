-- ===== src/Review/Reach.antt =====
-- Runs of the workflow: any calls of the methods of `ReviewService`, in any order, by anybody.
use sentinel_content_safety.Base.{
  ◌≡◌, String, List, [], ◌++◌, ◌∷◌, Bool-cases, inl, inr, str_eq, append-nil, append_assoc, sym,
  ◌∙◌,
}
use sentinel_content_safety.Schemas.{Decision, ModerationResponse}
use sentinel_content_safety.Review.Models.{ReviewPrincipal, ReviewAuditEvent, Platform}
use sentinel_content_safety.Review.Repository.{ReviewRepository}
use sentinel_content_safety.Review.Service.{Readings, enqueue, claim, decide, appeal}
use sentinel_content_safety.Review.Invariant.{IsSound, Step, stay, write, Step-IsSound}
use sentinel_content_safety.Review.Steps.{
  claim-Step, decide-Step, appeal-Step, enqueue-Step, IsApart,
}

module _ {S : Type 0} (p : Platform) (repository : ReviewRepository S) where
  open repository use {get, find_by_request_id, audit, commit, audit-commit}

  pub data Reach (s : S) : S → Type 0 where
    start : Reach s s
    enqueued :
        {u : S}
        → Reach s u
        → (t : Readings) (response : ModerationResponse) → IsApart p repository u response
        → Reach s (enqueue p repository t response u).1
    claimed :
        {u : S}
        → Reach s u
        → (t : Readings) (id : String) (principal : ReviewPrincipal)
        → Reach s (claim p repository t id principal u).1
    decided :
        {u : S}
        → Reach s u
        → (t : Readings) (id : String) (principal : ReviewPrincipal) (decision : Decision)
          (reason : String)
        → Reach s (decide p repository t id principal decision reason u).1
    appealed :
        {u : S}
        → Reach s u
        → (t : Readings) (id : String) (principal : ReviewPrincipal) (reason : String)
        → Reach s (appeal p repository t id principal reason u).1

  -- What every step from a sound repository keeps holds at the end of every run, with soundness.
  pub Reach-induction :
      (P : S → Type 0)
      → ((s t : S) → IsSound p repository s → Step p repository s t → P s → P t)
      → {s u : S} → IsSound p repository s
      → P s
      → Reach s u
      → IsSound p repository u × P u
  Reach-induction P keep sound h start = (sound, h)
  Reach-induction P keep sound h (enqueued {u = u} r t response apart) =
      let (v, k) = Reach-induction P keep sound h r in
      let st = enqueue-Step p repository u v t response apart in
      (Step-IsSound p repository st v, keep u _ v st k)
  Reach-induction P keep sound h (claimed {u = u} r t id principal) =
      let (v, k) = Reach-induction P keep sound h r in
      let st = claim-Step p repository u v t id principal in
      (Step-IsSound p repository st v, keep u _ v st k)
  Reach-induction P keep sound h (decided {u = u} r t id principal decision reason) =
      let (v, k) = Reach-induction P keep sound h r in
      let st = decide-Step p repository u v t id principal decision reason in
      (Step-IsSound p repository st v, keep u _ v st k)
  Reach-induction P keep sound h (appealed {u = u} r t id principal reason) =
      let (v, k) = Reach-induction P keep sound h r in
      let st = appeal-Step p repository u v t id principal reason in
      (Step-IsSound p repository st v, keep u _ v st k)

  -- From a sound repository, every run of calls ends in a sound one: under each identifier there is
  -- nothing, or a case whose events are a hash chain of allowed moves that ends in its state, and
  -- the index knows the request of every case. The run enqueues no request whose UUID5 is empty or
  -- that of a held case of another request.
  pub Reach-IsSound : {s u : S} → IsSound p repository s → Reach s u → IsSound p repository u
  Reach-IsSound sound r = (Reach-induction (λ _. Unit {0}) (λ s t v st k. tt) sound tt r).0

  Step-audit :
      {s t : S}
      → Step p repository s t
      → (id : String) → (new : List ReviewAuditEvent) × (audit t id ≡ audit s id ++ new)
  Step-audit {s} stay id = ([], sym (append-nil (audit s id)))
  Step-audit {s} (write c e entry) id = elim (Bool-cases (str_eq c.case_id id)) [
    | inl same ↦ (e ∷ [], rw (audit-commit s c e id, same))
    | inr other ↦ ([], rw (audit-commit s c e id, other) (sym (append-nil (audit s id))))
  ]

  -- From a sound repository, no run of calls changes or removes a recorded event, if it enqueues no
  -- request whose UUID5 is empty or that of a held case of another request: each trail at the end is
  -- the trail at the start with new events behind it.
  pub audit-append_only :
      {s u : S}
      → IsSound p repository s
      → Reach s u
      → (id : String) → (new : List ReviewAuditEvent) × (audit u id ≡ audit s id ++ new)
  audit-append_only {s} sound r id =
      (Reach-induction (λ u. (new : List ReviewAuditEvent) × (audit u id ≡ audit s id ++ new))
        (λ v t _ st h.
          let (new, e) = h in
          let (more, e') = Step-audit st id in (new ++ more, e' ∙ rw (e, append_assoc)))
        sound ([], sym (append-nil (audit s id))) r).1
