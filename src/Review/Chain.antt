-- ===== src/Review/Chain.antt =====
-- The audit trail of a case as a hash chain whose events are moves of the workflow.
use sentinel_content_safety.Base.{
  ℕ, ◌+◌, ◌≡◌, refl, String, Option, none, some, List, [], ◌∷◌, ◌++◌, Bool, true, false, ◌||◌,
  length, arith,
}
use sentinel_content_safety.Review.Models.{
  ReviewState, ReviewerRole, ReviewAction, is_appealed, ReviewAuditEvent, Platform,
  audit_event_digest, genesis_hash,
}
use sentinel_content_safety.Review.Repository.{expected_previous, payload_of}
use sentinel_content_safety.Review.Service.{review_roles, was_appealed}

-- The moves of a case, `seen` being whether it has been appealed before: from which state, by
-- which action, to which state, and with which role of the actor.
pub data Move (seen : Bool)
    : Option ReviewState → ReviewAction → ReviewState → Option ReviewerRole → Type 0 where
  create : Move seen none ReviewAction.created ReviewState.pending none
  claim :
      {r : ReviewerRole}
      → review_roles r ≡ true
      → Move seen (some ReviewState.pending) ReviewAction.claimed ReviewState.claimed (some r)
  claim_appeal :
      Move seen
        (some ReviewState.appealed)
        ReviewAction.claimed
        ReviewState.claimed
        (some ReviewerRole.senior_reviewer)
  decide :
      {r : ReviewerRole}
      → seen ≡ false
      → review_roles r ≡ true
      → Move seen (some ReviewState.claimed) ReviewAction.decided ReviewState.resolved (some r)
  decide_appeal :
      seen ≡ true
      → Move seen
          (some ReviewState.claimed)
          ReviewAction.appeal_decided
          ReviewState.resolved
          (some ReviewerRole.senior_reviewer)
  appeal :
      {r : ReviewerRole}
      → review_roles r ≡ true
      → Move seen (some ReviewState.resolved) ReviewAction.appealed ReviewState.appealed (some r)

module _ (p : Platform) (id : String) where
  -- `n` events stand before these, the last with this hash and this state, `seen` an appeal among
  -- them.
  abbrev pub IsChain : ℕ → String → Option ReviewState → Bool → List ReviewAuditEvent → Type 0
  IsChain n hash state seen [] = Unit
  IsChain n hash state seen (e ∷ es) =
      (e.case_id ≡ id)
      × (e.sequence ≡ n + 1)
      × (e.previous_hash ≡ hash)
      × (e.event_hash ≡ audit_event_digest p (payload_of e))
      × (e.from_state ≡ state)
      × Move seen e.from_state e.action e.to_state e.actor_role
      × IsChain (n + 1) e.event_hash (some e.to_state) (seen || is_appealed e.action) es

abbrev pub end_hash : String → List ReviewAuditEvent → String
end_hash hash [] = hash
end_hash hash (e ∷ es) = end_hash e.event_hash es

abbrev pub end_state : Option ReviewState → List ReviewAuditEvent → Option ReviewState
end_state state [] = state
end_state state (e ∷ es) = end_state (some e.to_state) es

end_hash-last :
    (hash : String) (e : ReviewAuditEvent) (es : List ReviewAuditEvent)
    → expected_previous (e ∷ es) ≡ end_hash hash (e ∷ es)
end_hash-last hash e [] = refl
end_hash-last hash e (d ∷ es) = end_hash-last e.event_hash d es

pub expected_previous-end_hash :
    (es : List ReviewAuditEvent) → expected_previous es ≡ end_hash genesis_hash es
expected_previous-end_hash [] = refl
expected_previous-end_hash (e ∷ es) = end_hash-last genesis_hash e es

pub end_state-append_one :
    (state : Option ReviewState) (es : List ReviewAuditEvent) (e : ReviewAuditEvent)
    → end_state state (es ++ e ∷ []) ≡ some e.to_state
end_state-append_one state [] e = refl
end_state-append_one state (d ∷ es) e = end_state-append_one (some d.to_state) es e

module _ (p : Platform) (id : String) where
  -- A chain goes on with an event that fits its end.
  pub IsChain-append_one :
      (n : ℕ) (hash : String) (state : Option ReviewState) (seen : Bool)
      (es : List ReviewAuditEvent) (e : ReviewAuditEvent)
      → IsChain p id n hash state seen es
      → e.case_id ≡ id
      → e.sequence ≡ n + length es + 1
      → e.previous_hash ≡ end_hash hash es
      → e.event_hash ≡ audit_event_digest p (payload_of e)
      → e.from_state ≡ end_state state es
      → Move (seen || was_appealed es) e.from_state e.action e.to_state e.actor_role
      → IsChain p id n hash state seen (es ++ e ∷ [])
  IsChain-append_one n hash state seen [] e h c q r d f m =
      (c, omega arith, r, d, f, rw (← or_false seen) m, tt)
    where
      or_false : (b : Bool) → (b || false) ≡ b
      or_false true = refl
      or_false false = refl
  IsChain-append_one n hash state seen (x ∷ es) e h c q r d f m = (
    h.0,
    h.1,
    h.2,
    h.3,
    h.4,
    h.5,
    IsChain-append_one (n + 1) x.event_hash (some x.to_state) (seen || is_appealed x.action) es e
        h.6 c (omega arith) r d f (rw (or_assoc seen (is_appealed x.action) (was_appealed es)) m),
  )
    where
      or_assoc : (a b c : Bool) → ((a || b) || c) ≡ (a || (b || c))
      or_assoc true b c = refl
      or_assoc false b c = refl
