-- ===== src/Review/Access.antt =====
-- Who may do what: the conditions and the effects of a call that succeeds, and what a claim excludes.
use sentinel_content_safety.Review.Failed.{failed_claim-unchanged, failed_decide-unchanged}
use sentinel_content_safety.Base.{
  ◌≡◌, ◌≢◌, refl, sym, ap, ◌∙◌, subst, String, Option, none, some, true, false, not, Bool, inl, inr,
  some-inj, arith, eq_iff, ◌&&◌, ◌||◌,
}
use sentinel_content_safety.Schemas.{Decision, decision_eq}
use sentinel_content_safety.Review.Models.{
  ReviewState, state_eq, ReviewerRole, role_eq, ReviewAction, ReviewPrincipal, ReviewCase,
  ReviewError, Platform,
}
use sentinel_content_safety.Review.Repository.{ReviewRepository}
use sentinel_content_safety.Base.Action.{
  Result, ok, raised, Result-cases, ok-injective, raise_if_rule, gets_rule, modify_pure_rule,
}
use sentinel_content_safety.Review.Service.{
  Readings, review_roles, was_appealed, assigned_to, record_event, claim, decide,
}
use sentinel_content_safety.Review.Invariant.{IsSound, Step-IsSound}
use sentinel_content_safety.Review.Steps.{
  get_case_rule, state_eq→eq, held_fields, not-false, claim-Step,
}

-- Only an appeal asks for a senior reviewer.
senior_of :
    (b : Bool) (r : ReviewerRole)
    → (b && not (role_eq r ReviewerRole.senior_reviewer)) ≡ false
    → b ≡ true
    → r ≡ ReviewerRole.senior_reviewer
senior_of b ReviewerRole.senior_reviewer h e = refl
senior_of b ReviewerRole.reviewer h e = ground arith
senior_of b ReviewerRole.auditor h e = ground arith

assigned_to→eq : (o : Option String) (r : String) → not (assigned_to o r) ≡ false → o ≡ some r
assigned_to→eq none r h = cc
assigned_to→eq (some a) r h = ap some ((eq_iff a r).0 (not-false _ h))

abbrev pub IsClaimable : ReviewState → Type 0
IsClaimable ReviewState.pending = Unit
IsClaimable ReviewState.claimed = ⊥
IsClaimable ReviewState.resolved = ⊥
IsClaimable ReviewState.appealed = Unit

claimable :
    (st : ReviewState)
    → not (state_eq st ReviewState.pending || state_eq st ReviewState.appealed) ≡ false
    → IsClaimable st
claimable ReviewState.pending h = tt
claimable ReviewState.claimed h = cc
claimable ReviewState.resolved h = cc
claimable ReviewState.appealed h = tt

not_review : (d : Decision) → decision_eq d Decision.review ≡ false → d ≢ Decision.review
not_review d h e = ground arith

claimed_twice : (c d : ReviewCase) → c ≡ d → c.state ≡ ReviewState.claimed → IsClaimable d.state → ⊥
claimed_twice c d e claimed h =
    subst IsClaimable (ap (λ (x : ReviewCase). x.state) (sym e) ∙ claimed) h

-- What a successful `claim` and a successful `decide` say of the case before and after.
pub record Claimed (principal : ReviewPrincipal) (before after : ReviewCase) : Type 0 where
  pub role : review_roles principal.role ≡ true
  pub was : IsClaimable before.state
  pub senior : before.state ≡ ReviewState.appealed → principal.role ≡ ReviewerRole.senior_reviewer
  pub state : after.state ≡ ReviewState.claimed
  pub assigned : after.assigned_reviewer_id ≡ some principal.reviewer_id

pub record Decided (principal : ReviewPrincipal) (decision : Decision) (appealed : Bool)
    (before after : ReviewCase) : Type 0 where
  pub role : review_roles principal.role ≡ true
  pub was : before.state ≡ ReviewState.claimed
  pub assigned : before.assigned_reviewer_id ≡ some principal.reviewer_id
  pub senior : appealed ≡ true → principal.role ≡ ReviewerRole.senior_reviewer
  pub final : decision ≢ Decision.review
  pub state : after.state ≡ ReviewState.resolved
  pub decision_kept : after.final_decision ≡ some decision

-- Every case is held under its own identifier.
abbrev pub IsKeyed : {S : Type 0} → ReviewRepository S → S → Type 0
IsKeyed repository s =
    (id : String) (c : ReviewCase) → repository.get s id ≡ some c → c.case_id ≡ id

module _ {S : Type 0} (p : Platform) (repository : ReviewRepository S) (s : S) where
  open repository use {get, audit, commit, get-commit, find_by_request_id}

  module _ (keyed : IsKeyed repository s) where
    record_event-get :
        (t : Readings) (c : ReviewCase) (action : ReviewAction) (actor : String)
        (role : Option ReviewerRole) (from : Option ReviewState) (reason : String) {id : String}
        → c.case_id ≡ id
        → get (record_event p repository t c action actor role from reason s) id ≡ some c
    unfolding record_event
    record_event-get t c action actor role from reason {id} same =
        get-commit s c _ id ∙ rw ((eq_iff c.case_id id).1 same) refl

    -- A claim that succeeds was made by a reviewer, of a pending case, or by a senior reviewer of an
    -- appealed one; the case is then held as claimed and assigned to the caller.
    pub claim_ok :
        (t : Readings) (id : String) (principal : ReviewPrincipal) {after : ReviewCase}
        → (claim p repository t id principal s).0 ≡ ok after
        → (before : ReviewCase) × (get s id ≡ some before)
          × Claimed principal before after
          × (get (claim p repository t id principal s).1 id ≡ some after)
    unfolding claim
    claim_ok t id principal {after} =
        raise_if_rule P _ _ _ s (λ _ e. cc)
          λ authorized.
            get_case_rule p repository s P id _ (λ _ e. cc)
              λ c found.
                raise_if_rule P _ _ _ s (λ _ e. cc)
                  λ senior.
                    raise_if_rule P _ _ _ s (λ _ e. cc)
                      λ open_state. modify_pure_rule P _ _ s λ e. subst (Q _) (ok-injective e) (
                        c,
                        found,
                        record {
                          role = not-false _ authorized;
                          was = claimable c.state open_state;
                          senior = λ a. senior_of _ principal.role senior (rw a refl);
                          state = refl;
                          assigned = refl;
                        },
                        record_event-get t _ _ _ _ _ _ (keyed id c found),
                      )
      where
        Q : S → ReviewCase → Type 0
        Q u d =
            (before : ReviewCase) × (get s id ≡ some before)
            × Claimed principal before d
            × (get u id ≡ some d)

        P : Result ReviewError ReviewCase × S → Type 0
        P r = r.0 ≡ ok after → Q r.1 after

    -- Where every case is held under its own identifier: a decision that succeeds was made by the
    -- reviewer to whom the claimed case was assigned, a senior one if the case had ever been appealed,
    -- and is not `review`; the case is then held as resolved with that decision.
    pub decide_ok :
        (t : Readings) (id : String) (principal : ReviewPrincipal) (decision : Decision)
        (reason : String) {after : ReviewCase}
        → (decide p repository t id principal decision reason s).0 ≡ ok after
        → (before : ReviewCase) × (get s id ≡ some before)
          × Decided principal decision (was_appealed (audit s id)) before after
          × (get (decide p repository t id principal decision reason s).1 id ≡ some after)
    unfolding decide
    decide_ok t id principal decision reason {after} =
        raise_if_rule P _ _ _ s (λ _ e. cc)
          λ authorized.
            raise_if_rule P _ _ _ s (λ _ e. cc)
              λ final.
                get_case_rule p repository s P id _ (λ _ e. cc)
                  λ c found.
                    raise_if_rule P _ _ _ s (λ _ e. cc)
                      λ claimed.
                        raise_if_rule P _ _ _ s (λ _ e. cc)
                          λ assigned. gets_rule P _ _ s (
                            raise_if_rule P _ _ _ s (λ _ e. cc)
                              λ senior. modify_pure_rule P _ _ s λ e. subst (Q _) (ok-injective e) (
                                c,
                                found,
                                record {
                                  role = not-false _ authorized;
                                  was = state_eq→eq c.state _ claimed;
                                  assigned = assigned_to→eq c.assigned_reviewer_id _ assigned;
                                  senior = senior_of _ principal.role senior;
                                  final = not_review decision final;
                                  state = refl;
                                  decision_kept = refl;
                                },
                                record_event-get t _ _ _ _ _ _ (keyed id c found),
                              ))
      where
        Q : S → ReviewCase → Type 0
        Q u d =
            (before : ReviewCase) × (get s id ≡ some before)
            × Decided principal decision (was_appealed (audit s id)) before d
            × (get u id ≡ some d)

        P : Result ReviewError ReviewCase × S → Type 0
        P r = r.0 ≡ ok after → Q r.1 after

-- The call raised, and left the repository as it was.
abbrev pub Refused : {S : Type 0} → Result ReviewError ReviewCase × S → S → Type 0
Refused r s = (error : ReviewError) × ((r.0 ≡ raised error) × (r.1 ≡ s))

module _ {S : Type 0} (p : Platform) (repository : ReviewRepository S) (s : S)
    (sound : IsSound p repository s) where
  open repository use {get}

  sound-IsKeyed : {t : S} → IsSound p repository t → IsKeyed repository t
  sound-IsKeyed {t} h id c e = (held_fields p repository t h e).0

  -- Of a sound repository: after a successful claim, another claim of the case by anyone and a decision
  -- by anyone but the claimant raise, and leave the repository as the claim left it.
  pub claim_excludes :
      (t t' : Readings) (id : String) (holder other another : ReviewPrincipal) (decision : Decision)
      (reason : String) {c : ReviewCase} {u : S}
      → claim p repository t id holder s ≡ (ok c, u)
      → another.reviewer_id ≢ holder.reviewer_id
      → Refused (claim p repository t' id other u) u
        × Refused (decide p repository t' id another decision reason u) u
  claim_excludes t t' id holder other another decision reason {c} {u} done distinct =
      let (before, _, claimed, kept) =
        claim_ok p repository s (sound-IsKeyed sound) t id holder (ap (λ r. r.0) done) in
      let held : get u id ≡ some c = rw (← ap (λ r. r.1) done) kept in
      let u_sound : IsSound p repository u =
        subst (IsSound p repository) (ap (λ r. r.1) done)
          (Step-IsSound p repository (claim-Step p repository s sound t id holder) sound) in
      (
        elim (Result-cases (claim p repository t' id other u).0) [
          | inr (error, e) ↦ (error, (e, failed_claim-unchanged p repository u t' id other e))
          | inl (after, e) ↦
              let (now, found, again, _) =
                claim_ok p repository u (sound-IsKeyed u_sound) t' id other e in
              absurd (claimed_twice c now (some-inj (sym held ∙ found)) claimed.state again.was)
        ],
        elim (Result-cases (decide p repository t' id another decision reason u).0) [
          | inr (error, e) ↦
              (error, (e, failed_decide-unchanged p repository u t' id another decision reason e))
          | inl (after, e) ↦
              let (now, found, made, _) =
                decide_ok p repository u (sound-IsKeyed u_sound) t' id another decision reason e in
              absurd (
                distinct (
                  some-inj (
                    sym made.assigned
                    ∙ ap (λ (d : ReviewCase). d.assigned_reviewer_id) (some-inj (sym found ∙ held))
                    ∙ claimed.assigned)))
        ],
      )
