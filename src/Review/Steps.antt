-- ===== src/Review/Steps.antt =====
-- Every method of `ReviewService` is a step: it writes nothing, or what the workflow allows.
use mathlib.Core.Bool.{false≢true}
use sentinel_content_safety.Base.{
  ◌≡◌, ◌≢◌, refl, ap, sym, ◌∙◌, subst, String, Option, none, some, Bool, true, false, not, ◌&&◌,
  ◌||◌, Option-cases, Bool-cases, inl, inr, arith, is_some, if◌then◌else◌,
}
use sentinel_content_safety.Schemas.{Decision, decision_eq, ModerationResponse}
use sentinel_content_safety.Review.Models.{
  ReviewState, state_eq, ReviewerRole, role_eq, ReviewAction, ReviewPrincipal, ReviewCase,
  ReviewError, not_found, Platform,
}
use sentinel_content_safety.Review.Repository.{ReviewRepository}
use sentinel_content_safety.Base.Action.{
  Result, raised, Action, ◌>>=◌, raise_if_rule, gets_rule, modify_pure_rule,
}
use sentinel_content_safety.Review.Service.{
  Readings, review_roles, was_appealed, assigned_to, make_event, record_event, get_case,
  requires_review, case_id_of, new_case, enqueue, claim, decide, appeal,
}
use sentinel_content_safety.Review.Chain.{Move, create, claim_appeal, decide_appeal}
use sentinel_content_safety.Review.Invariant.{
  HasFields, HasDecision, IsFinal, IsSound, Holds, Step, stay, write, state_of,
}

pub not-false : (b : Bool) → not b ≡ false → b ≡ true
not-false true h = refl
not-false false h = cc

-- The guards of `claim` leave the two moves into `claimed`.
claim_move :
    (seen : Bool) (state : ReviewState) (role : ReviewerRole)
    → review_roles role ≡ true
    → (state_eq state ReviewState.appealed && not (role_eq role ReviewerRole.senior_reviewer))
      ≡ false
    → not (state_eq state ReviewState.pending || state_eq state ReviewState.appealed) ≡ false
    → Move seen (some state) ReviewAction.claimed ReviewState.claimed (some role)
claim_move seen ReviewState.pending role a b c = Move.claim a
claim_move seen ReviewState.appealed ReviewerRole.senior_reviewer a b c = claim_appeal
claim_move seen ReviewState.appealed ReviewerRole.reviewer a b c = cc
claim_move seen ReviewState.appealed ReviewerRole.auditor a b c = cc
claim_move seen ReviewState.claimed role a b c = cc
claim_move seen ReviewState.resolved role a b c = cc

decide_move :
    (seen : Bool) (role : ReviewerRole)
    → review_roles role ≡ true
    → (seen && not (role_eq role ReviewerRole.senior_reviewer)) ≡ false
    → Move seen
        (some ReviewState.claimed)
        (if seen then ReviewAction.appeal_decided else ReviewAction.decided)
        ReviewState.resolved
        (some role)
decide_move false role a b = Move.decide refl a
decide_move true ReviewerRole.senior_reviewer a b = decide_appeal refl
decide_move true ReviewerRole.reviewer a b = cc
decide_move true ReviewerRole.auditor a b = cc

pub state_eq→eq : (a b : ReviewState) → not (state_eq a b) ≡ false → a ≡ b
state_eq→eq a b h = ground arith

assigned_to→is_some :
    (o : Option String) (r : String) → not (assigned_to o r) ≡ false → is_some o ≡ true
assigned_to→is_some none r h = cc
assigned_to→is_some (some a) r h = refl

decision-IsFinal : (d : Decision) → decision_eq d Decision.review ≡ false → IsFinal (some d)
decision-IsFinal Decision.allow h = tt
decision-IsFinal Decision.review h = cc
decision-IsFinal Decision.block h = tt

resolved-HasDecision :
    (c : ReviewCase) → c.state ≡ ReviewState.resolved → HasFields c.state c → HasDecision c
resolved-HasDecision c e h =
    let h' : HasFields ReviewState.resolved c = subst (λ st. HasFields st c) e h in h'.1

module _ {S : Type 0} (p : Platform) (repository : ReviewRepository S) (s : S) where
  open repository use {get, audit, find_by_request_id}

  abbrev pub Ends : {A : Type 0} → Result ReviewError A × S → Type 0
  Ends r = Step p repository s r.1

  -- No case of another request has the identifier of a request, which is no empty text: what UUID5
  -- gives where it does not collide.
  abbrev pub IsApart : ModerationResponse → Type 0
  IsApart response =
      (case_id_of p response ≢ "")
      × ((c : ReviewCase)
          → get s (case_id_of p response) ≡ some c
          → c.request_id ≡ response.request_id)

  pub get_case_rule :
      {B : Type 0} (P : Result ReviewError B × S → Type 0) (id : String)
      (k : ReviewCase → Action ReviewError S B)
      → (get s id ≡ none → P (raised (not_found "review case not found"), s))
      → ((c : ReviewCase) → get s id ≡ some c → P (k c s))
      → P ((get_case p repository id >>= k) s)
  unfolding get_case ◌>>=◌
  get_case_rule P id k missing found = elim (Option-cases (get s id)) [
    | inl e ↦ rw (e, get_case) (missing e)
    | inr (c, e) ↦ rw (e, get_case) (found c e)
  ]

  -- What `record_event` writes is an entry, if the move is one of the workflow.
  record_event-Step :
      (t : Readings) (c : ReviewCase) (action : ReviewAction) (actor : String)
      (role : Option ReviewerRole) (from : Option ReviewState) (reason : String)
      → from ≡ state_of (get s c.case_id)
      → Move (was_appealed (audit s c.case_id)) from action c.state role
      → HasFields c.state c
      → c.case_id ≢ ""
      → Step p repository s (record_event p repository t c action actor role from reason s)
  unfolding record_event make_event
  record_event-Step t c action actor role from reason eq move fields named = write c _ (record {
    same_case = refl;
    links = record { previous = refl; numbered = refl; digest = refl };
    from = eq;
    to = refl;
    move = move;
    fields = fields;
    named = named;
  })

module _ {S : Type 0} (p : Platform) (repository : ReviewRepository S) (s : S)
    (sound : IsSound p repository s) where
  open repository use {get, audit, find_by_request_id}

  -- The case that is held under an identifier has that identifier, and its fields.
  pub held_fields :
      {id : String} {c : ReviewCase} → get s id ≡ some c → (c.case_id ≡ id) × HasFields c.state c
  held_fields {id} {c} e =
      let h : Holds p id (some c) (audit s id) =
        subst (λ o. Holds p id o (audit s id)) e (sound.at id) in
      (h.0, h.3)

  held_state :
      {id : String} {c : ReviewCase} → get s id ≡ some c → some c.state ≡ state_of (get s c.case_id)
  held_state {id} {c} e = rw ((held_fields e).0, e) refl

  held_named : {id : String} {c : ReviewCase} → get s id ≡ some c → c.case_id ≢ ""
  held_named {id} {c} e = subst (λ x. x ≢ "") (sym (held_fields e).0) (sound.named id c e)

  -- The identifier of a request that the index does not know is free.
  new_is_free :
      (response : ModerationResponse)
      → IsApart p repository s response
      → find_by_request_id s response.request_id ≡ none
      → get s (case_id_of p response) ≡ none
  new_is_free response apart unknown = elim (Option-cases (get s (case_id_of p response))) [
    | inl free ↦ free
    | inr (c, held) ↦
        let known : is_some (find_by_request_id s response.request_id) ≡ true =
          subst (λ r. is_some (find_by_request_id s r) ≡ true) (apart.1 c held)
            (sound.indexed (case_id_of p response) c held) in
        absurd (false≢true (rw unknown at known))
  ]

  pub claim-Step :
      (t : Readings) (id : String) (principal : ReviewPrincipal)
      → Step p repository s (claim p repository t id principal s).1
  unfolding claim
  claim-Step t id principal =
      raise_if_rule (Ends p repository s) _ _ _ s (λ _. stay)
        λ authorized.
          get_case_rule p repository s (Ends p repository s) id _ (λ _. stay)
            λ c found.
              raise_if_rule (Ends p repository s) _ _ _ s (λ _. stay)
                λ senior.
                  raise_if_rule (Ends p repository s) _ _ _ s (λ _. stay)
                    λ open_state. modify_pure_rule (Ends p repository s) _ _ s (
                      record_event-Step p repository s t _ _ _ _ _ _ (held_state found)
                        (claim_move _ c.state principal.role (not-false _ authorized) senior
                          open_state)
                        refl (held_named found))

  pub decide-Step :
      (t : Readings) (id : String) (principal : ReviewPrincipal) (decision : Decision)
      (reason : String)
      → Step p repository s (decide p repository t id principal decision reason s).1
  unfolding decide
  decide-Step t id principal decision reason =
      raise_if_rule (Ends p repository s) _ _ _ s (λ _. stay)
        λ authorized.
          raise_if_rule (Ends p repository s) _ _ _ s (λ _. stay)
            λ final.
              get_case_rule p repository s (Ends p repository s) id _ (λ _. stay)
                λ c found.
                  raise_if_rule (Ends p repository s) _ _ _ s (λ _. stay)
                    λ claimed.
                      raise_if_rule (Ends p repository s) _ _ _ s (λ _. stay)
                        λ assigned. gets_rule (Ends p repository s) _ _ s (
                          raise_if_rule (Ends p repository s) _ _ _ s (λ _. stay)
                            λ senior. modify_pure_rule (Ends p repository s) _ _ s (
                              record_event-Step p repository s t _ _ _ _ _ _
                                (ap some (sym (state_eq→eq c.state _ claimed)) ∙ held_state found)
                                (rw ((held_fields found).0)
                                  (decide_move _ principal.role (not-false _ authorized) senior))
                                (
                                  assigned_to→is_some c.assigned_reviewer_id _ assigned,
                                  (decision-IsFinal decision final, refl, refl),
                                )
                                (held_named found)))

  pub appeal-Step :
      (t : Readings) (id : String) (principal : ReviewPrincipal) (reason : String)
      → Step p repository s (appeal p repository t id principal reason s).1
  unfolding appeal
  appeal-Step t id principal reason =
      raise_if_rule (Ends p repository s) _ _ _ s (λ _. stay)
        λ authorized.
          get_case_rule p repository s (Ends p repository s) id _ (λ _. stay)
            λ c found.
              raise_if_rule (Ends p repository s) _ _ _ s (λ _. stay)
                λ resolved. modify_pure_rule (Ends p repository s) _ _ s (
                  record_event-Step p repository s t _ _ _ _ _ _
                    (ap some (sym (state_eq→eq c.state _ resolved)) ∙ held_state found)
                    (Move.appeal (not-false _ authorized))
                    (
                      refl,
                      refl,
                      resolved-HasDecision c (state_eq→eq c.state _ resolved) (held_fields found).1,
                    )
                    (held_named found))

  -- A new case is written under its UUID5, where nothing is held yet.
  pub enqueue-Step :
      (t : Readings) (response : ModerationResponse)
      → IsApart p repository s response
      → Step p repository s (enqueue p repository t response s).1
  unfolding enqueue
  enqueue-Step t response apart = elim (Bool-cases (requires_review response)) [
    | inr unneeded ↦ rw unneeded stay
    | inl needed ↦ elim (Option-cases (find_by_request_id s response.request_id)) [
      | inr (old, e) ↦ rw (needed, e) stay
      | inl unknown ↦
          rw (needed, unknown)
            (record_event-Step p repository s t (new_case p t response) _ _ _ _ _
              (rw (new_is_free response apart unknown) refl) create (refl, refl) apart.0)
    ]
  ]
