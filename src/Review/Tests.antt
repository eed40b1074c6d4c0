-- ===== src/Review/Tests.antt =====
-- Concrete runs of the review workflow, and the theorems at them.
use mathlib.Core.Bool.{false≢true}
use sentinel_content_safety.Base.{
  ℕ, ◌≡◌, ◌≢◌, refl, String, none, some, List, [], ◌++◌, false, length, eq_iff,
}
use sentinel_content_safety.Base.Dict.{lookup, insert, values}
use sentinel_content_safety.Schemas.{Decision, ModerationResponse}
use sentinel_content_safety.Review.Models.{
  ReviewState, ReviewAction, ReviewerRole, ReviewPrincipal, ReviewCase, ReviewAuditEvent, Platform,
  audit_event_digest, genesis_hash,
}
use sentinel_content_safety.Review.Repository.{ReviewRepository}
use sentinel_content_safety.Review.Steps.{IsApart, held_fields}
use sentinel_content_safety.Review.Repository.Memory
use sentinel_content_safety.Review.Repository.Memory.{Memory, has_state}
use sentinel_content_safety.Review.Repository.Ledger
use sentinel_content_safety.Review.Repository.Ledger.{Codec, Ledger, replay, replay_record}
use sentinel_content_safety.Base.Action.{◌>>=◌}
use sentinel_content_safety.Review.Service.{
  Readings, enqueue, claim, decide, appeal, record_event, make_event, get_case, requires_review,
  case_id_of, backlog,
}
use sentinel_content_safety.Review.Invariant.{IsSound}
use sentinel_content_safety.Review.Reach.{
  Reach, start, enqueued, claimed, decided, appealed, Reach-IsSound, audit-append_only,
}
use sentinel_content_safety.Review.Access.{Decided, Refused, decide_ok, claim_excludes}
use sentinel_content_safety.Review.Tamper.{IsLinked, replay-IsLinked, replay_record-any_case}
use sentinel_content_safety.Review.Durable.{
  memory_repository, jsonl_repository, IsFaithful, replay_after_run,
}

abbrev platform : Platform
platform = record { sha256 = λ s. s; dumps = λ payload. payload.event_id; uuid5 = λ name. name }

abbrev reading : ℕ → String → Readings
reading n id = record { now = n; updated_at = n; occurred_at = n; event_id = id }

abbrev response : ModerationResponse
response = record {
  request_id = "r";
  decision = Decision.review;
  risk_score = 4603579539098121011;
  signals = [];
  policy_version = "2026-08-27";
  evaluated_at = 1;
}

abbrev alice : ReviewPrincipal
alice = record { reviewer_id = "alice"; role = ReviewerRole.reviewer }

abbrev carol : ReviewPrincipal
carol = record { reviewer_id = "carol"; role = ReviewerRole.senior_reviewer }

abbrev the_id : String
the_id = "sentinel-review:r:2026-08-27"

nothing_held : {A : Type 0} (id : String) (c : ReviewCase) → Memory.get Memory.empty id ≡ some c → A
unfolding Memory.get lookup
nothing_held id c e = cc

empty-IsSound : IsSound platform memory_repository Memory.empty
unfolding Memory.get Memory.audit lookup
empty-IsSound = record {
  at = λ id. refl;
  named = λ id c e. nothing_held id c e;
  indexed = λ id c e. nothing_held id c e;
}

named_case : case_id_of platform response ≢ ""
unfolding case_id_of
named_case e = false≢true ((eq_iff (case_id_of platform response) "").1 e)

empty-IsApart : IsApart platform memory_repository Memory.empty response
empty-IsApart = (named_case, λ c e. nothing_held (case_id_of platform response) c e)

module _ {S : Type 0} (repository : ReviewRepository S) (s : S) where
  abbrev waiting : S
  waiting = (enqueue platform repository (reading 1 "e1") response s).1

  abbrev taken : S
  taken = (claim platform repository (reading 2 "e2") the_id alice waiting).1

  abbrev closed : S
  closed = (decide platform repository (reading 3 "e3") the_id alice Decision.block "abuse" taken).1

  abbrev contested : S
  contested = (appeal platform repository (reading 4 "e4") the_id alice "unfair" closed).1

  a_run : IsApart platform repository s response → Reach platform repository s contested
  a_run apart =
      appealed
        (decided
          (claimed (enqueued start (reading 1 "e1") response apart) (reading 2 "e2") the_id alice)
          (reading 3 "e3") the_id alice Decision.block "abuse")
        (reading 4 "e4") the_id alice "unfair"

-- Opening this opens what a run computes through.
final_memory : Memory
unfolding enqueue claim decide appeal ◌>>=◌ get_case record_event make_event requires_review
    case_id_of backlog audit_event_digest Memory.get Memory.audit Memory.commit
    Memory.find_by_request_id Memory.list_cases Ledger.commit replay lookup insert values
final_memory = contested memory_repository Memory.empty

contested_audit : length (Memory.audit (contested memory_repository Memory.empty) the_id) ≡ 4
unfolding final_memory
contested_audit = refl

Reach-IsSound_example :
    IsSound platform memory_repository (contested memory_repository Memory.empty)
unfolding Memory.get lookup
Reach-IsSound_example =
    Reach-IsSound platform memory_repository empty-IsSound
      (a_run memory_repository Memory.empty empty-IsApart)

audit-append_only_example :
    (new : List ReviewAuditEvent) × (Memory.audit (contested memory_repository Memory.empty) the_id
      ≡ Memory.audit Memory.empty the_id ++ new)
unfolding Memory.get lookup
audit-append_only_example =
    audit-append_only platform memory_repository empty-IsSound
      (a_run memory_repository Memory.empty empty-IsApart) the_id

waiting-IsSound : IsSound platform memory_repository (waiting memory_repository Memory.empty)
unfolding Memory.get lookup
waiting-IsSound =
    Reach-IsSound platform memory_repository empty-IsSound
      (enqueued start (reading 1 "e1") response empty-IsApart)

taken-IsSound : IsSound platform memory_repository (taken memory_repository Memory.empty)
unfolding Memory.get lookup
taken-IsSound =
    Reach-IsSound platform memory_repository empty-IsSound (
      claimed (enqueued start (reading 1 "e1") response empty-IsApart) (reading 2 "e2") the_id
        alice)

abbrev taken_case : ReviewCase
taken_case = record {
  case_id = the_id;
  request_id = "r";
  automated_decision = Decision.review;
  automated_risk_score = 4603579539098121011;
  signal_categories = [];
  policy_version = "2026-08-27";
  state = ReviewState.claimed;
  assigned_reviewer_id = some "alice";
  final_decision = none;
  decision_reason_code = none;
  appeal_reason_code = none;
  created_at = 1;
  updated_at = 2;
  resolved_at = none;
}

abbrev waiting_case : ReviewCase
waiting_case = record taken_case {
  state = ReviewState.pending;
  assigned_reviewer_id = none;
  updated_at = 1;
}

abbrev closed_case : ReviewCase
closed_case = record taken_case {
  state = ReviewState.resolved;
  final_decision = some Decision.block;
  decision_reason_code = some "abuse";
  updated_at = 3;
  resolved_at = some 3;
}

decide_ok_example :
    (before : ReviewCase) × (Memory.get (taken memory_repository Memory.empty) the_id ≡ some before)
    × Decided alice Decision.block false before closed_case
    × (Memory.get (closed memory_repository Memory.empty) the_id ≡ some closed_case)
unfolding final_memory
decide_ok_example =
    decide_ok platform memory_repository (taken memory_repository Memory.empty)
      (λ id c e. (held_fields platform memory_repository _ taken-IsSound e).0) (reading 3 "e3")
      the_id alice Decision.block "abuse" refl

claim_excludes_example :
    Refused
      (claim platform memory_repository
        (reading 5 "e5")
        the_id
        carol
        (taken memory_repository Memory.empty))
      (taken memory_repository Memory.empty)
    × Refused
        (decide platform memory_repository
          (reading 5 "e5")
          the_id
          carol
          Decision.allow
          "fine"
          (taken memory_repository Memory.empty))
        (taken memory_repository Memory.empty)
unfolding final_memory
claim_excludes_example =
    claim_excludes platform memory_repository (waiting memory_repository Memory.empty)
      waiting-IsSound (reading 2 "e2") (reading 5 "e5") the_id alice carol carol Decision.allow
      "fine" {c = taken_case} refl
      (λ same. false≢true ((eq_iff carol.reviewer_id alice.reviewer_id).1 same))

-- A file whose lines are the records themselves.
abbrev codec : Codec (ReviewCase × ReviewAuditEvent)
codec = record { serialize = λ c e. (c, e); parse = λ line. some line; is_blank = λ _. false }

codec-IsFaithful : IsFaithful codec
codec-IsFaithful = record { round_trip = λ c e. refl; not_blank = λ c e. refl }

abbrev new_ledger : Ledger (ReviewCase × ReviewAuditEvent)
new_ledger = record { memory = Memory.empty; file = [] }

abbrev jsonl : ReviewRepository (Ledger (ReviewCase × ReviewAuditEvent))
jsonl = jsonl_repository platform codec

new_ledger-IsSound : IsSound platform jsonl new_ledger
unfolding Memory.get Memory.audit lookup
new_ledger-IsSound = record {
  at = λ id. refl;
  named = λ id c e. nothing_held id c e;
  indexed = λ id c e. nothing_held id c e;
}

replay_after_run_example :
    replay platform codec (contested jsonl new_ledger).file
    ≡ Ledger.ok (contested jsonl new_ledger).memory
unfolding final_memory
replay_after_run_example =
    replay_after_run platform codec codec-IsFaithful new_ledger-IsSound refl
      (a_run jsonl new_ledger empty-IsApart)

replay-IsLinked_example :
    IsLinked platform 0 genesis_hash (Memory.audit (contested jsonl new_ledger).memory the_id)
unfolding final_memory
replay-IsLinked_example =
    replay-IsLinked platform codec (contested jsonl new_ledger).file
      (contested jsonl new_ledger).memory refl the_id

abbrev first_event : ReviewAuditEvent
first_event = record {
  event_id = "e1";
  case_id = the_id;
  sequence = 1;
  action = ReviewAction.created;
  actor_id = "system";
  actor_role = none;
  from_state = none;
  to_state = ReviewState.pending;
  reason_code = "automated_review_required";
  occurred_at = 1;
  previous_hash = genesis_hash;
  event_hash = "e1";
}

replay_record-any_case_example :
    (replay_record platform 1 Memory.empty closed_case first_event
      ≡ Ledger.ok (Memory.commit Memory.empty closed_case first_event))
    × (Memory.get (Memory.commit Memory.empty closed_case first_event) the_id ≡ some closed_case)
unfolding final_memory
replay_record-any_case_example =
    replay_record-any_case platform 1 Memory.empty
      (Memory.commit Memory.empty waiting_case first_event) waiting_case closed_case first_event
      refl refl
