-- ===== src/Review/Repository.antt =====
-- src/sentinel/review/repository.py: the protocol `ReviewRepository`. A repository is read through
-- its methods; `commit` is the only one that changes it. Methods return deep copies in the source,
-- so that a caller that changes a case in place does not change the repository.
pub mod Memory
pub mod Ledger
use sentinel_content_safety.Base.{
  ℕ, ◌+◌, ◌≡◌, ◌≢◌, true, is_some, String, Option, none, some, List, [], ◌∷◌, ◌++◌, str_eq, length,
  last, if◌then◌else◌,
}
use sentinel_content_safety.Review.Models.{
  ReviewState, ReviewCase, ReviewAuditEvent, AuditPayload, Platform, audit_event_digest,
  genesis_hash,
}

pub record ReviewRepository (S : Type 0) : Type 0 where
  pub get : S → String → Option ReviewCase
  pub find_by_request_id : S → String → Option ReviewCase
  pub list_cases : S → Option ReviewState → List ReviewCase
  pub audit : S → String → List ReviewAuditEvent
  pub commit : S → ReviewCase → ReviewAuditEvent → S
  pub get-commit :
      (s : S) (c : ReviewCase) (e : ReviewAuditEvent) (id : String)
      → get (commit s c e) id ≡ (if str_eq c.case_id id then some c else get s id)
  pub audit-commit :
      (s : S) (c : ReviewCase) (e : ReviewAuditEvent) (id : String)
      → audit (commit s c e) id ≡ (if str_eq c.case_id id then audit s id ++ e ∷ [] else audit s id)
  pub find-commit_own :
      (s : S) (c : ReviewCase) (e : ReviewAuditEvent)
      → c.case_id ≢ ""
      → is_some (find_by_request_id (commit s c e) c.request_id) ≡ true
  pub find-commit_kept :
      (s : S) (c : ReviewCase) (e : ReviewAuditEvent) (request_id : String)
      → c.case_id ≢ ""
      → is_some (find_by_request_id s request_id) ≡ true
      → is_some (find_by_request_id (commit s c e) request_id) ≡ true

-- The hash that the next event of a case has to name.
abbrev pub expected_previous : List ReviewAuditEvent → String
expected_previous es = elim (last es) [ none ↦ genesis_hash | some e ↦ e.event_hash ]

abbrev pub payload_of : ReviewAuditEvent → AuditPayload
payload_of e = record {
  event_id = e.event_id;
  case_id = e.case_id;
  sequence = e.sequence;
  action = e.action;
  actor_id = e.actor_id;
  actor_role = e.actor_role;
  from_state = e.from_state;
  to_state = e.to_state;
  reason_code = e.reason_code;
  occurred_at = e.occurred_at;
  previous_hash = e.previous_hash;
}

-- An event extends a list of events: it names the last hash, has the next number, and its hash is
-- the digest of its own fields.
pub record Links (p : Platform) (es : List ReviewAuditEvent) (e : ReviewAuditEvent) : Type 0 where
  pub previous : e.previous_hash ≡ expected_previous es
  pub numbered : e.sequence ≡ length es + 1
  pub digest : e.event_hash ≡ audit_event_digest p (payload_of e)
