-- ===== src/Distributed/Consumer.antt =====
-- The loop of `run` in src/sentinel/worker.py, over the messages that a poll gives. The consumer of
-- Kafka commits an offset where the source calls `commit`.
use sentinel_content_safety.Base.{
  ℕ, ◌≡◌, refl, sym, ap, ◌∙◌, Option, List, [], ◌∷◌, ◌++◌, Bool, if◌then◌else◌, arith, append_assoc,
  append-nil,
}
use sentinel_content_safety.Base.Action.{Result, ok, raised}
use sentinel_content_safety.Schemas.{
  ModerationRequest, ModerationResponse, ModerationJobEvent, Time,
}
use sentinel_content_safety.Distributed.Protocols.{JobStore, EventPublisher}
use sentinel_content_safety.Distributed.Processor.{
  WorkerError, Settings, Worker, worker_event, terminal_job, count, process,
}

-- What one poll gives: nothing, an error, a value that is no event, or an event, with its offset.
pub data Message : Type 0 where
  nothing broken : Message
  invalid : ℕ → Message
  delivered : ℕ → Time → ModerationJobEvent → Message

pub data LoopError : Type 0 where
  message_error invalid_not_published : LoopError
  not_processed : WorkerError → LoopError

pub record Consumer (S P Q : Type 0) : Type 0 where
  pub worker : Worker S P
  pub invalid_broker : Q
  pub committed : List ℕ

module _ {S P Q : Type 0} (settings : Settings) (jobs : JobStore S) (publisher : EventPublisher P)
    (publish_invalid : Q → ℕ → Bool × Q)
    (moderate : ModerationRequest → Option ModerationResponse) where
  abbrev pub commit : ℕ → Consumer S P Q → Consumer S P Q
  commit offset c = record c { committed = c.committed ++ offset ∷ [] }

  -- One round of the loop.
  unfoldable pub round : Message → Consumer S P Q → Result LoopError (Unit {0}) × Consumer S P Q
  round nothing c = (ok tt, c)
  round broken c = (raised message_error, c)
  round (invalid offset) c =
      let w =
        count (terminal_job "failed" "invalid_event_schema")
          (count (worker_event "invalid_event_schema") c.worker) in
      let (acknowledged, broker') = publish_invalid c.invalid_broker offset in
      let c' : Consumer S P Q = record c { worker = w; invalid_broker = broker' } in
      if acknowledged then (ok tt, commit offset c') else (raised invalid_not_published, c')
  round (delivered offset now event) c =
      let (r, w) = process settings jobs publisher moderate now event c.worker in
      let c' : Consumer S P Q = record c { worker = w } in
      elim r [ raised e ↦ (raised (not_processed e), c') | ok done ↦ (ok tt, commit offset c') ]

  -- The loop: an exception ends it.
  unfoldable pub run : List Message → Consumer S P Q → Result LoopError (Unit {0}) × Consumer S P Q
  unfolding round
  run [] c = (ok tt, c)
  run (m ∷ ms) c =
      let (r, c') = round m c in elim r [ raised e ↦ (raised e, c') | ok done ↦ run ms c' ]

  abbrev pub offset_of : Message → List ℕ
  offset_of nothing = []
  offset_of broken = []
  offset_of (invalid offset) = offset ∷ []
  offset_of (delivered offset now event) = offset ∷ []

  abbrev pub offsets : List Message → List ℕ
  offsets [] = []
  offsets (m ∷ ms) = offset_of m ++ offsets ms

  -- How a run ends: every message was handled and committed, or there is a first one whose handling
  -- raised, and just those before it were committed.
  pub data Ended (c c' : Consumer S P Q) : List Message → Result LoopError (Unit {0}) → Type 0 where
    all_done :
        (ms : List Message) → c'.committed ≡ c.committed ++ offsets ms → Ended c c' ms (ok tt)
    stopped :
        (before : List Message) (m : Message) (after : List Message) (e : LoopError)
        (d : Consumer S P Q)
        → run before c ≡ (ok tt, d)
        → c'.committed ≡ c.committed ++ offsets before
        → (round m d).0 ≡ raised e
        → Ended c c' (before ++ m ∷ after) (raised e)

  round-ok :
      (m : Message) (c : Consumer S P Q)
      → (round m c).0 ≡ ok tt
      → (round m c).1.committed ≡ c.committed ++ offset_of m
  unfolding round
  round-ok nothing c h = sym (append-nil c.committed)
  round-ok broken c h = ground arith
  round-ok (invalid offset) c h = ground arith
  round-ok (delivered offset now event) c h = ground arith

  round-raised :
      (m : Message) (c : Consumer S P Q) {e : LoopError}
      → (round m c).0 ≡ raised e
      → (round m c).1.committed ≡ c.committed
  unfolding round
  round-raised nothing c h = refl
  round-raised broken c h = refl
  round-raised (invalid offset) c h = ground arith
  round-raised (delivered offset now event) c h = ground arith

  Ended-after :
      (m : Message) (ms : List Message) (c c' c'' : Consumer S P Q)
      (r : Result LoopError (Unit {0}))
      → ((xs : List Message) → run (m ∷ xs) c ≡ run xs c')
      → c'.committed ≡ c.committed ++ offset_of m
      → Ended c' c'' ms r
      → Ended c c'' (m ∷ ms) r
  Ended-after m _ c c' c'' _ go h (all_done ms e) =
      all_done (m ∷ ms)
        (e ∙ ap (λ x. x ++ offsets ms) h ∙ append_assoc c.committed (offset_of m) (offsets ms))
  Ended-after m _ c c' c'' _ go h (stopped before x after e d ran k raises) =
      stopped (m ∷ before) x after e d (go before ∙ ran)
        (k
          ∙ ap (λ y. y ++ offsets before) h
          ∙ append_assoc c.committed (offset_of m) (offsets before))
        raises

  -- However the loop ends, either all messages were handled and their offsets committed, or it ended
  -- with the error of the first message whose handling raised, and just the offsets of the messages
  -- before that one were committed.
  pub run-Ended : (ms : List Message) (c : Consumer S P Q) → Ended c (run ms c).1 ms (run ms c).0
  unfolding run
  run-Ended [] c = all_done [] (sym (append-nil c.committed))
  run-Ended (m ∷ ms) c = after_round (run-Ended ms (round m c).1) (round m c).0 refl
    where
      after_round :
          Ended (round m c).1 (run ms (round m c).1).1 ms (run ms (round m c).1).0
          → (r : Result LoopError (Unit {0})) → (round m c).0 ≡ r
          → let answer : Result LoopError (Unit {0}) × Consumer S P Q = elim r [
            | raised e ↦ (raised e, (round m c).1)
            | ok done ↦ run ms (round m c).1
          ] in
            Ended c answer.1 (m ∷ ms) answer.0
      after_round rest (raised e) h =
          stopped [] m ms e c refl (round-raised m c h ∙ sym (append-nil c.committed)) h
      after_round rest (ok done) h =
          Ended-after m ms c (round m c).1 _ _ (λ xs. rw (h, run) refl) (round-ok m c h) rest
