-- ===== src/Review/Durable.antt =====
-- The file of `JsonlReviewRepository` and the dictionaries beside it.
use sentinel_content_safety.Base.{
  ℕ, ◌+◌, ◌≡◌, refl, ◌∙◌, some, List, [], ◌∷◌, ◌++◌, true, false, eq_iff, length, arith, ◌==◌,
}
use sentinel_content_safety.Review.Models.{
  ReviewCase, ReviewAuditEvent, Platform, audit_event_digest,
}
use sentinel_content_safety.Review.Repository.{
  ReviewRepository, Links, expected_previous, payload_of,
}
use sentinel_content_safety.Review.Repository.Memory
use sentinel_content_safety.Review.Repository.Memory.{Memory}
use sentinel_content_safety.Review.Repository.Ledger
use sentinel_content_safety.Review.Repository.Ledger.{
  Codec, Replay, Ledger, ok, failed, integrity_failure, sequence_failure, replay_record,
  replay_line, replay_from, replay,
}
use sentinel_content_safety.Review.Invariant.{IsSound, Step, stay, write}
use sentinel_content_safety.Review.Reach.{Reach, Reach-induction}

instance abbrev pub memory_repository : ReviewRepository Memory
memory_repository = record {
  get = Memory.get;
  find_by_request_id = Memory.find_by_request_id;
  list_cases = Memory.list_cases;
  audit = Memory.audit;
  commit = Memory.commit;
  get-commit = Memory.get-commit;
  audit-commit = Memory.audit-commit;
  find-commit_own = Memory.find-commit_own;
  find-commit_kept = λ m c e request_id named. Memory.find-commit_kept m c e named request_id;
}

-- The subclass inherits the reading methods.
abbrev pub jsonl_repository :
    {Line : Type 0} → Platform → Codec Line → ReviewRepository (Ledger Line)
jsonl_repository p codec = record {
  get = λ l. Memory.get l.memory;
  find_by_request_id = λ l. Memory.find_by_request_id l.memory;
  list_cases = λ l. Memory.list_cases l.memory;
  audit = λ l. Memory.audit l.memory;
  commit = Ledger.commit p codec;
  get-commit = Ledger.get-commit p codec;
  audit-commit = Ledger.audit-commit p codec;
  find-commit_own = Ledger.find-commit_own p codec;
  find-commit_kept = Ledger.find-commit_kept p codec;
}

-- Pydantic reads back the record that it wrote, and a JSON object is no blank line.
pub record IsFaithful {Line : Type 0} (codec : Codec Line) : Type 0 where
  pub round_trip :
      (c : ReviewCase) (e : ReviewAuditEvent) → codec.parse (codec.serialize c e) ≡ some (c, e)
  pub not_blank :
      (c : ReviewCase) (e : ReviewAuditEvent) → codec.is_blank (codec.serialize c e) ≡ false

number_test : (a b : ℕ) → a ≡ b → (a == b) ≡ true
number_test a b e = ground arith

module _ (p : Platform) where
  pub replay_record-Links :
      (n : ℕ) (m : Memory) (c : ReviewCase) (e : ReviewAuditEvent)
      → Links p (Memory.audit m c.case_id) e
      → replay_record p n m c e ≡ ok (Memory.commit m c e)
  unfolding replay_record
  replay_record-Links n m c e l =
      let es = Memory.audit m c.case_id in
      let digest = audit_event_digest p (payload_of e) in
      rw ((eq_iff e.previous_hash (expected_previous es)).1 l.previous) (
        rw ((eq_iff e.event_hash digest).1 l.digest)
          (rw (number_test e.sequence (length es + 1) l.numbered)))

module _ {Line : Type 0} (p : Platform) (codec : Codec Line) where
  abbrev then_replay : Replay → ℕ → List Line → Replay
  then_replay (ok m) n lines = replay_from p codec n m lines
  then_replay (failed error) n lines = failed error

  after_line :
      (r : Replay) (n k : ℕ) (xs ys : List Line)
      → ((m : Memory)
          → replay_from p codec n m (xs ++ ys) ≡ then_replay (replay_from p codec n m xs) k ys)
      → (elim r [ ok m ↦ replay_from p codec n m (xs ++ ys) | failed error ↦ failed error ])
        ≡ then_replay
            (elim r [ ok m ↦ replay_from p codec n m xs | failed error ↦ failed error ])
            k
            ys
  after_line (ok m) n k xs ys ih = ih m
  after_line (failed error) n k xs ys ih = refl

  replay_from-append :
      (n : ℕ) (m : Memory) (xs ys : List Line) (k : ℕ)
      → k ≡ n + length xs
      → replay_from p codec n m (xs ++ ys) ≡ then_replay (replay_from p codec n m xs) k ys
  unfolding replay_from
  replay_from-append n m [] ys k e = let e' : k ≡ n = omega arith in rw e' refl
  replay_from-append n m (x ∷ xs) ys k e =
      after_line (replay_line p codec n m x) (n + 1) k xs ys
        λ m'. replay_from-append (n + 1) m' xs ys k (omega arith)

  after_one :
      (r : Replay) (n : ℕ)
      → (elim r [ ok m ↦ replay_from p codec n m [] | failed error ↦ failed error ]) ≡ r
  unfolding replay_from
  after_one (ok m) n = refl
  after_one (failed error) n = refl

  replay_from-one :
      (n : ℕ) (m : Memory) (line : Line)
      → replay_from p codec n m (line ∷ []) ≡ replay_line p codec n m line
  unfolding replay_from
  replay_from-one n m line = after_one (replay_line p codec n m line) (n + 1)

  -- The file replays to the dictionaries.
  abbrev pub IsDurable : Ledger Line → Type 0
  IsDurable l = replay p codec l.file ≡ ok l.memory

  module _ (faithful : IsFaithful codec) where
    replay_line-serialize :
        (n : ℕ) (m : Memory) (c : ReviewCase) (e : ReviewAuditEvent)
        → Links p (Memory.audit m c.case_id) e
        → replay_line p codec n m (codec.serialize c e) ≡ ok (Memory.commit m c e)
    unfolding replay_line
    replay_line-serialize n m c e l =
        rw (faithful.not_blank c e) (rw (faithful.round_trip c e) (replay_record-Links p n m c e l))

    commit-IsDurable :
        (l : Ledger Line) (c : ReviewCase) (e : ReviewAuditEvent)
        → Links p (Memory.audit l.memory c.case_id) e
        → IsDurable l
        → IsDurable (Ledger.commit p codec l c e)
    unfolding Ledger.commit replay
    commit-IsDurable l c e links h =
        replay_from-append 1 Memory.empty l.file (codec.serialize c e ∷ []) (1 + length l.file) refl
        ∙ rw h (
            replay_from-one (1 + length l.file) l.memory (codec.serialize c e)
            ∙ replay_line-serialize (1 + length l.file) l.memory c e links)

    Step-IsDurable :
        {l l' : Ledger Line} → Step p (jsonl_repository p codec) l l' → IsDurable l → IsDurable l'
    Step-IsDurable stay h = h
    Step-IsDurable (write c e entry) h = commit-IsDurable _ c e entry.links h

    -- If Pydantic reads back what it writes, then after any run of the workflow over a sound ledger
    -- whose file replays to its dictionaries, the file still does, if every write of the file succeeds
    -- and the run enqueues no request whose UUID5 is empty or that of a held case of another request:
    -- a restart loses and invents nothing.
    pub replay_after_run :
        {l l' : Ledger Line}
        → IsSound p (jsonl_repository p codec) l
        → IsDurable l
        → Reach p (jsonl_repository p codec) l l'
        → replay p codec l'.file ≡ ok l'.memory
    replay_after_run sound h r =
        (Reach-induction p (jsonl_repository p codec) IsDurable (λ s t _ st d. Step-IsDurable st d)
          sound h r).1
