-- ===== src/Review/Repository/Ledger.antt =====
-- `JsonlReviewRepository` of src/sentinel/review/repository.py: a file of one JSON text for each
-- commit, beside the dictionaries of the parent class. The file is the list of its lines, whose
-- type is a parameter: they are looked at only by the `json` module and Pydantic.
use sentinel_content_safety.Base.{
  ℕ, ◌+◌, ◌≡◌, ◌≢◌, is_some, true, refl, String, Option, none, some, List, [], ◌∷◌, ◌++◌, Bool, not,
  ◌||◌, str_eq, length, if◌then◌else◌, ◌==◌,
}
use sentinel_content_safety.Review.Models.{
  ReviewCase, ReviewAuditEvent, Platform, audit_event_digest,
}
use sentinel_content_safety.Review.Repository.{expected_previous, payload_of}
use sentinel_content_safety.Review.Repository.Memory
use sentinel_content_safety.Review.Repository.Memory.{Memory}

-- Pydantic and the `json` module: the text of a record, its validation (nothing for a text that is
-- no record), and `not line.strip()`.
pub record Codec (Line : Type 0) : Type 0 where
  pub serialize : ReviewCase → ReviewAuditEvent → Line
  pub parse : Line → Option (ReviewCase × ReviewAuditEvent)
  pub is_blank : Line → Bool

pub data LedgerError : Type 0 where
  invalid_record integrity_failure sequence_failure : ℕ → LedgerError

pub data Replay : Type 0 where
  ok : Memory → Replay
  failed : LedgerError → Replay

pub record Ledger (Line : Type 0) : Type 0 where
  pub memory : Memory
  pub file : List Line

-- The checks of `_replay` on one record, and its commit into the dictionaries.
unfoldable pub replay_record : Platform → ℕ → Memory → ReviewCase → ReviewAuditEvent → Replay
replay_record p n m c e =
    let previous_events = Memory.audit m c.case_id in
    let hash_is_valid = str_eq e.event_hash (audit_event_digest p (payload_of e)) in
    if not (str_eq e.previous_hash (expected_previous previous_events)) || not hash_is_valid
    then failed (integrity_failure n)
    else if not (e.sequence == length previous_events + 1)
    then failed (sequence_failure n)
    else ok (Memory.commit m c e)

module _ {Line : Type 0} (p : Platform) (codec : Codec Line) where
  unfoldable pub replay_line : ℕ → Memory → Line → Replay
  unfolding replay_record
  replay_line n m line = if codec.is_blank line then ok m else elim (codec.parse line) [
    | none ↦ failed (invalid_record n)
    | some (c, e) ↦ replay_record p n m c e
  ]

  unfoldable pub replay_from : ℕ → Memory → List Line → Replay
  unfolding replay_line
  replay_from n m [] = ok m
  replay_from n m (line ∷ lines) = elim (replay_line n m line) [
    | ok m' ↦ replay_from (n + 1) m' lines
    | failed error ↦ failed error
  ]

  unfoldable pub replay : List Line → Replay
  unfolding replay_from
  replay lines = replay_from 1 Memory.empty lines

  -- The file is written before the dictionaries.
  unfoldable pub commit : Ledger Line → ReviewCase → ReviewAuditEvent → Ledger Line
  commit l c e = record {
    file = l.file ++ codec.serialize c e ∷ [];
    memory = Memory.commit l.memory c e;
  }

module _ {Line : Type 0} (p : Platform) (codec : Codec Line) (l : Ledger Line) (c : ReviewCase)
    (e : ReviewAuditEvent) where
  pub memory-commit : (commit p codec l c e).memory ≡ Memory.commit l.memory c e
  unfolding commit
  memory-commit = refl

  pub get-commit :
      (id : String)
      → Memory.get (commit p codec l c e).memory id
        ≡ (if str_eq c.case_id id then some c else Memory.get l.memory id)
  unfolding commit
  get-commit id = Memory.get-commit l.memory c e id

  pub audit-commit :
      (id : String)
      → Memory.audit (commit p codec l c e).memory id ≡ (
          if str_eq c.case_id id
          then Memory.audit l.memory id ++ e ∷ []
          else Memory.audit l.memory id)
  unfolding commit
  audit-commit id = Memory.audit-commit l.memory c e id

  pub find-commit_own :
      c.case_id ≢ ""
      → is_some (Memory.find_by_request_id (commit p codec l c e).memory c.request_id) ≡ true
  unfolding commit
  find-commit_own named = Memory.find-commit_own l.memory c e named

  pub find-commit_kept :
      (request_id : String)
      → c.case_id ≢ ""
      → is_some (Memory.find_by_request_id l.memory request_id) ≡ true
      → is_some (Memory.find_by_request_id (commit p codec l c e).memory request_id) ≡ true
  unfolding commit
  find-commit_kept request_id named h = Memory.find-commit_kept l.memory c e named request_id h
