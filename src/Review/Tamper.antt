-- ===== src/Review/Tamper.antt =====
-- What the checks of `_replay` establish of a file that they accept, and what they do not look at.
use sentinel_content_safety.Base.{
  some-inj, ℕ, ◌+◌, ◌≡◌, refl, ◌∙◌, sym, subst, String, Option, some, none, List, [], ◌∷◌, ◌++◌,
  Bool, true, false, not, ◌||◌, str_eq, eq_iff, length, arith, ◌==◌, if◌then◌else◌, Bool-cases, inl,
  inr,
}
use sentinel_content_safety.Review.Models.{
  ReviewCase, ReviewAuditEvent, Platform, audit_event_digest, genesis_hash,
}
use sentinel_content_safety.Review.Repository.{Links, expected_previous, payload_of}
use sentinel_content_safety.Review.Repository.Memory
use sentinel_content_safety.Review.Repository.Memory.{Memory}
use sentinel_content_safety.Review.Repository.Ledger.{
  Codec, Replay, ok, failed, invalid_record, integrity_failure, sequence_failure, replay_record,
  replay_line, replay_from, replay,
}
use sentinel_content_safety.Base.Dict.{lookup}
use sentinel_content_safety.Review.Durable.{memory_repository, replay_record-Links}
use sentinel_content_safety.Review.Access.{IsKeyed}
use sentinel_content_safety.Review.Chain.{end_hash, expected_previous-end_hash}

module _ (p : Platform) where
  -- Numbers from `n + 1` on, each hash the digest of its event, each link the hash before.
  abbrev pub IsLinked : ℕ → String → List ReviewAuditEvent → Type 0
  IsLinked n hash [] = Unit
  IsLinked n hash (e ∷ es) =
      (e.sequence ≡ n + 1)
      × (e.previous_hash ≡ hash)
      × (e.event_hash ≡ audit_event_digest p (payload_of e))
      × IsLinked (n + 1) e.event_hash es

  IsLinked-append_one :
      (n : ℕ) (hash : String) (es : List ReviewAuditEvent) (e : ReviewAuditEvent)
      → IsLinked n hash es
      → e.sequence ≡ n + length es + 1
      → e.previous_hash ≡ end_hash hash es
      → e.event_hash ≡ audit_event_digest p (payload_of e)
      → IsLinked n hash (es ++ e ∷ [])
  IsLinked-append_one n hash [] e h q r d = (omega arith, r, d, tt)
  IsLinked-append_one n hash (x ∷ es) e h q r d =
      (h.0, h.1, h.2, IsLinked-append_one (n + 1) x.event_hash es e h.3 (omega arith) r d)

  IsLinked-Links :
      (es : List ReviewAuditEvent) (e : ReviewAuditEvent)
      → IsLinked 0 genesis_hash es
      → Links p es e
      → IsLinked 0 genesis_hash (es ++ e ∷ [])
  IsLinked-Links es e h l =
      IsLinked-append_one 0 genesis_hash es e h (omega (arith, l.numbered))
        (l.previous ∙ expected_previous-end_hash es) l.digest

  abbrev AllLinked : Memory → Type 0
  AllLinked m = (id : String) → IsLinked 0 genesis_hash (Memory.audit m id)

  commit-AllLinked :
      (m : Memory) (c : ReviewCase) (e : ReviewAuditEvent)
      → AllLinked m
      → Links p (Memory.audit m c.case_id) e
      → AllLinked (Memory.commit m c e)
  commit-AllLinked m c e h l id =
      rw (Memory.audit-commit m c e id) (elim (Bool-cases (str_eq c.case_id id)) [
        | inr other ↦ rw other (h id)
        | inl same ↦ rw same (
            subst (λ j. IsLinked 0 genesis_hash (Memory.audit m j ++ e ∷ []))
              ((eq_iff c.case_id id).0 same)
              (IsLinked-Links (Memory.audit m c.case_id) e (h c.case_id) l))
      ])

commit-IsKeyed :
    (m : Memory) (c : ReviewCase) (e : ReviewAuditEvent)
    → IsKeyed memory_repository m
    → IsKeyed memory_repository (Memory.commit m c e)
commit-IsKeyed m c e h id d held = elim (Bool-cases (str_eq c.case_id id)) [
  | inl own ↦
      subst (λ (x : ReviewCase). x.case_id ≡ id)
        (some-inj (sym (rw own at (Memory.get-commit m c e id)) ∙ held))
        ((eq_iff c.case_id id).0 own)
  | inr other ↦ h id d (sym (rw other at (Memory.get-commit m c e id)) ∙ held)
]

number_eq : (a b : ℕ) → (a == b) ≡ true → a ≡ b
number_eq a b h = ground arith

ok-inj : {m m' : Memory} → ok m ≡ ok m' → m ≡ m'
ok-inj e = cc

module _ (p : Platform) where
  -- The checks pass only on an event that links, and then the record is committed.
  replay_record-ok :
      (n : ℕ) (m m' : Memory) (c : ReviewCase) (e : ReviewAuditEvent)
      → replay_record p n m c e ≡ ok m'
      → Links p (Memory.audit m c.case_id) e × (m' ≡ Memory.commit m c e)
  unfolding replay_record
  replay_record-ok n m m' c e h =
      let es = Memory.audit m c.case_id in
      let digest = audit_event_digest p (payload_of e) in
      checks (str_eq e.previous_hash (expected_previous es)) (str_eq e.event_hash digest)
        (e.sequence == length es + 1) (λ q. (eq_iff e.previous_hash (expected_previous es)).0 q)
        (λ q. (eq_iff e.event_hash digest).0 q) (number_eq e.sequence (length es + 1)) h
    where
      checks :
          (a b d : Bool)
          → (a ≡ true → e.previous_hash ≡ expected_previous (Memory.audit m c.case_id))
          → (b ≡ true → e.event_hash ≡ audit_event_digest p (payload_of e))
          → (d ≡ true → e.sequence ≡ length (Memory.audit m c.case_id) + 1)
          → (if not a || not b
              then failed (integrity_failure n)
              else if not d
              then failed (sequence_failure n)
              else ok (Memory.commit m c e))
            ≡ ok m'
          → Links p (Memory.audit m c.case_id) e × (m' ≡ Memory.commit m c e)
      checks true true true x y z h =
          (record { previous = x refl; numbered = z refl; digest = y refl }, sym (ok-inj h))
      checks true true false x y z h = cc
      checks true false d x y z h = cc
      checks false b d x y z h = cc

module _ {Line : Type 0} (p : Platform) (codec : Codec Line) where
  -- What every commit of an event that links keeps, holds after a replay if it does before.
  module _ (Q : Memory → Type 0)
      (keep : (m : Memory) (c : ReviewCase) (e : ReviewAuditEvent)
        → Q m
        → Links p (Memory.audit m c.case_id) e
        → Q (Memory.commit m c e)) where
    replay_line-keep :
        (n : ℕ) (m m' : Memory) (line : Line) → Q m → replay_line p codec n m line ≡ ok m' → Q m'
    unfolding replay_line
    replay_line-keep n m m' line h e = elim (Bool-cases (codec.is_blank line)) [
      | inl blank ↦ subst Q (ok-inj (rw blank at e)) h
      | inr full ↦ parsed (codec.parse line) (rw full at e)
    ]
      where
        parsed :
            (o : Option (ReviewCase × ReviewAuditEvent))
            → (elim o [ none ↦ failed (invalid_record n) | some (c, v) ↦ replay_record p n m c v ])
              ≡ ok m'
            → Q m'
        parsed none q = cc
        parsed (some (c, v)) q =
            let (links, made) = replay_record-ok p n m m' c v q in
            subst Q (sym made) (keep m c v h links)

    replay_from-keep :
        (n : ℕ) (m m' : Memory) (lines : List Line)
        → Q m
        → replay_from p codec n m lines ≡ ok m'
        → Q m'
    unfolding replay_from
    replay_from-keep n m m' [] h e = subst Q (ok-inj e) h
    replay_from-keep n m m' (line ∷ lines) h e =
        after (λ u hu k. replay_from-keep (n + 1) u m' lines hu k) (replay_line p codec n m line)
          refl e
      where
        after :
            ((u : Memory) → Q u → replay_from p codec (n + 1) u lines ≡ ok m' → Q m')
            → (r : Replay) → replay_line p codec n m line ≡ r
            → (elim r [ ok u ↦ replay_from p codec (n + 1) u lines | failed error ↦ failed error ])
              ≡ ok m'
            → Q m'
        after rec (ok u) q k = rec u (replay_line-keep n m u line h q) k
        after rec (failed error) q k = cc

  -- A file that `_replay` accepts gives every case a trail that is numbered from 1 without gaps,
  -- starts from the genesis hash, links each event to the hash before it, and has for every event
  -- the digest of its fields.
  pub replay-IsLinked :
      (lines : List Line) (m : Memory)
      → replay p codec lines ≡ ok m
      → (id : String) → IsLinked p 0 genesis_hash (Memory.audit m id)
  unfolding replay Memory.audit lookup
  replay-IsLinked lines m e =
      replay_from-keep (AllLinked p) (commit-AllLinked p) 1 Memory.empty m lines (λ id. tt) e

  -- A file that `_replay` accepts, tampered with or not, leaves every case under its own identifier.
  replay-IsKeyed :
      (lines : List Line) (m : Memory) → replay p codec lines ≡ ok m → IsKeyed memory_repository m
  unfolding replay Memory.get lookup
  replay-IsKeyed lines m e =
      replay_from-keep (IsKeyed memory_repository) (λ m c v h _. commit-IsKeyed m c v h) 1
        Memory.empty m lines (λ id c none_held. cc) e

module _ (p : Platform) where
  -- The digest does not cover the case beside the event: if a record is accepted, so is the record
  -- with any other case of the same identifier, and that case is then what the repository holds.
  pub replay_record-any_case :
      (n : ℕ) (m m' : Memory) (c d : ReviewCase) (e : ReviewAuditEvent)
      → replay_record p n m c e ≡ ok m'
      → d.case_id ≡ c.case_id
      → (replay_record p n m d e ≡ ok (Memory.commit m d e))
        × (Memory.get (Memory.commit m d e) c.case_id ≡ some d)
  replay_record-any_case n m m' c d e h same =
      let links = (replay_record-ok p n m m' c e h).0 in
      (
        replay_record-Links p n m d e (subst (λ j. Links p (Memory.audit m j) e) (sym same) links),
        Memory.get-commit m d e c.case_id ∙ rw ((eq_iff d.case_id c.case_id).1 same) refl,
      )
