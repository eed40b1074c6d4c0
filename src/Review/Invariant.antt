-- ===== src/Review/Invariant.antt =====
-- The invariant of a repository, and the writes that keep it.
use sentinel_content_safety.Base.{
  ◌≡◌, ◌≢◌, ◌⊎◌, some-inj, refl, sym, ap, ◌∙◌, subst, String, Option, none, some, List, [], ◌∷◌,
  ◌++◌, true, false, str_eq, eq_iff, is_some, Bool-cases, inl, inr, arith,
}
use sentinel_content_safety.Schemas.{Decision}
use sentinel_content_safety.Review.Models.{
  ReviewState, ReviewCase, ReviewAuditEvent, Platform, genesis_hash,
}
use sentinel_content_safety.Review.Repository.{ReviewRepository, Links}
use sentinel_content_safety.Review.Service.{was_appealed}
use sentinel_content_safety.Review.Chain.{
  IsChain, end_state, Move, expected_previous-end_hash, end_state-append_one, IsChain-append_one,
}

-- A decision that a human may take.
abbrev pub IsFinal : Option Decision → Type 0
IsFinal none = ⊥
IsFinal (some Decision.allow) = Unit
IsFinal (some Decision.review) = ⊥
IsFinal (some Decision.block) = Unit

abbrev pub HasDecision : ReviewCase → Type 0
HasDecision c =
    IsFinal c.final_decision
    × (is_some c.decision_reason_code ≡ true)
    × (is_some c.resolved_at ≡ true)

-- The fields that a case has in each state.
abbrev pub HasFields : ReviewState → ReviewCase → Type 0
HasFields ReviewState.pending c = (c.assigned_reviewer_id ≡ none) × (c.final_decision ≡ none)
HasFields ReviewState.claimed c = is_some c.assigned_reviewer_id ≡ true
HasFields ReviewState.resolved c = (is_some c.assigned_reviewer_id ≡ true) × HasDecision c
HasFields ReviewState.appealed c =
    (c.assigned_reviewer_id ≡ none) × (is_some c.appeal_reason_code ≡ true) × HasDecision c

abbrev pub state_of : Option ReviewCase → Option ReviewState
state_of none = none
state_of (some c) = some c.state

-- What a repository holds under an identifier: nothing and no event, or a case and the chain of
-- its events, which ends in the state of the case.
abbrev pub Holds : Platform → String → Option ReviewCase → List ReviewAuditEvent → Type 0
Holds p id none es = es ≡ []
Holds p id (some c) es =
    (c.case_id ≡ id)
    × IsChain p id 0 genesis_hash none false es
    × (end_state none es ≡ some c.state)
    × HasFields c.state c

-- A write that the workflow allows over what is held.
pub record Entry (p : Platform) (held : Option ReviewCase) (es : List ReviewAuditEvent)
    (c : ReviewCase) (e : ReviewAuditEvent) : Type 0 where
  pub same_case : e.case_id ≡ c.case_id
  pub links : Links p es e
  pub from : e.from_state ≡ state_of held
  pub to : e.to_state ≡ c.state
  pub move : Move (was_appealed es) e.from_state e.action e.to_state e.actor_role
  pub fields : HasFields c.state c
  pub named : c.case_id ≢ ""

module _ (p : Platform) (c : ReviewCase) (e : ReviewAuditEvent) where
  Holds-end_state :
      (id : String) (held : Option ReviewCase) (es : List ReviewAuditEvent)
      → Holds p id held es
      → end_state none es ≡ state_of held
  Holds-end_state id none es h = ap (end_state none) h
  Holds-end_state id (some d) es h = h.2

  Holds-IsChain :
      (id : String) (held : Option ReviewCase) (es : List ReviewAuditEvent)
      → Holds p id held es
      → IsChain p id 0 genesis_hash none false es
  Holds-IsChain id none es h = rw h tt
  Holds-IsChain id (some d) es h = h.1

  pub Entry-Holds :
      (id : String) (held : Option ReviewCase) (es : List ReviewAuditEvent)
      → c.case_id ≡ id
      → Holds p id held es
      → Entry p held es c e
      → Holds p id (some c) (es ++ e ∷ [])
  Entry-Holds id held es same h entry = (
    same,
    IsChain-append_one p id 0 genesis_hash none false es e (Holds-IsChain id held es h)
        (entry.same_case ∙ same) (omega (arith, entry.links.numbered))
        (entry.links.previous ∙ expected_previous-end_hash es) entry.links.digest
        (entry.from ∙ sym (Holds-end_state id held es h)) entry.move,
    end_state-append_one none es e ∙ ap some entry.to,
    entry.fields,
  )

module _ {S : Type 0} (p : Platform) (repository : ReviewRepository S) where
  open repository use {
    get, audit, commit, get-commit, audit-commit, find_by_request_id, find-commit_own,
    find-commit_kept,
  }

  -- Under every identifier the repository holds what the workflow allows, no case is held under an
  -- empty identifier, and the index of requests knows the request of every case.
  pub record IsSound (s : S) : Type 0 where
    pub at : (id : String) → Holds p id (get s id) (audit s id)
    pub named : (id : String) (c : ReviewCase) → get s id ≡ some c → id ≢ ""
    pub indexed :
        (id : String) (c : ReviewCase)
        → get s id ≡ some c
        → is_some (find_by_request_id s c.request_id) ≡ true

  -- A call of a method writes nothing, or one case with one event.
  pub data Step (s : S) : S → Type 0 where
    stay : Step s s
    write :
        (c : ReviewCase) (e : ReviewAuditEvent)
        → Entry p (get s c.case_id) (audit s c.case_id) c e
        → Step s (commit s c e)

  commit-Holds :
      (s : S) (c : ReviewCase) (e : ReviewAuditEvent) (id : String)
      → ((id : String) → Holds p id (get s id) (audit s id))
      → Entry p (get s c.case_id) (audit s c.case_id) c e
      → Holds p id (get (commit s c e) id) (audit (commit s c e) id)
  commit-Holds s c e id h entry =
      rw (get-commit s c e id, audit-commit s c e id)
        (elim (Bool-cases (str_eq c.case_id id)) [
          | inl same ↦
              let e' : c.case_id ≡ id = (eq_iff c.case_id id).0 same in
              rw same (
                subst (λ j. Holds p j (some c) (audit s j ++ e ∷ [])) e'
                  (Entry-Holds p c e c.case_id _ _ refl (h c.case_id) entry))
          | inr other ↦ rw other (h id)
        ])

  -- A case that is held after a write is the written one, or was held before.
  held_after :
      (s : S) (c : ReviewCase) (e : ReviewAuditEvent) (id : String) (d : ReviewCase)
      → get (commit s c e) id ≡ some d
      → (c.case_id ≡ id) × (c ≡ d) ⊎ get s id ≡ some d
  held_after s c e id d h = elim (Bool-cases (str_eq c.case_id id)) [
    | inl same ↦
        inl ((eq_iff c.case_id id).0 same, some-inj (sym (rw same at (get-commit s c e id)) ∙ h))
    | inr other ↦ inr (sym (rw other at (get-commit s c e id)) ∙ h)
  ]

  pub Step-IsSound : {s t : S} → Step s t → IsSound s → IsSound t
  Step-IsSound stay h = h
  Step-IsSound {s} (write c e entry) h = record {
    at = λ id. commit-Holds s c e id h.at entry;
    named = λ id d held. elim (held_after s c e id d held) [
      | inl (same, _) ↦ subst (λ x. x ≢ "") same entry.named
      | inr old ↦ h.named id d old
    ];
    indexed = λ id d held. elim (held_after s c e id d held) [
      | inl (_, written) ↦
          subst
            (λ (x : ReviewCase). is_some (find_by_request_id (commit s c e) x.request_id) ≡ true)
            written (find-commit_own s c e entry.named)
      | inr old ↦ find-commit_kept s c e d.request_id entry.named (h.indexed id d old)
    ];
  }
