-- ===== src/Review/Intake.antt =====
-- `enqueue`, `list_cases` and `backlog` of the service over the in-memory repository.
use sentinel_content_safety.Base.{
  ℕ, ◌+◌, ◌≤◌, ◌≡◌, ◌≢◌, refl, sym, ap, ◌∙◌, Option, none, some, List, [], ◌∷◌, Bool, true, false,
  ◌||◌, ◌&&◌, str_eq, eq_iff, arith, keep, length, any, Bool-cases, Option-cases, inl, inr,
}
use sentinel_content_safety.Base.Dict.{values, lookup-insert_self}
use sentinel_content_safety.Schemas.{
  SafetyCategory, category_eq, Decision, decision_eq, ModerationResponse, ModerationSignal,
}
use sentinel_content_safety.Review.Models.{
  ReviewState, ReviewCase, ReviewAuditEvent, ReviewError, Platform,
}
use sentinel_content_safety.Review.Repository.Memory
use sentinel_content_safety.Review.Repository.Memory.{
  Memory, has_state, insert_by_creation, sort_by_creation,
}
use sentinel_content_safety.Base.Action.{Result, ok, ok-injective}
use sentinel_content_safety.Review.Service.{
  Readings, requires_review, all_categories, case_id_of, new_case, record_event, enqueue, backlog,
}
use sentinel_content_safety.Review.Durable.{memory_repository}

any-keep {ℓ} :
    {A : Type ℓ} (p q : A → Bool) (xs : List A) → any q (keep p xs) ≡ any (λ x. p x && q x) xs
any-keep p q [] = refl
any-keep p q (x ∷ xs) = ground (arith, any-keep p q xs)

and_false : (b : Bool) → (b && false) ≡ false
and_false b = ground arith

and_true : (b : Bool) → (b && true) ≡ b
and_true b = ground arith

or_false : (b : Bool) → (b || false) ≡ b
or_false b = ground arith

-- The test of `enqueue` on the sorted set of categories is a test on the signals.
pub requires_review_lem :
    (r : ModerationResponse)
    → requires_review r ≡ (
        decision_eq r.decision Decision.review
        || any
            (λ (s : ModerationSignal).
              category_eq s.category SafetyCategory.cross_modal_disagreement)
            r.signals)
unfolding requires_review
requires_review_lem r =
    rw
      (any-keep (λ c. any (λ (s : ModerationSignal). category_eq s.category c) r.signals)
        (category_eq SafetyCategory.cross_modal_disagreement) all_categories)
      (simp (and_false, and_true, or_false))

module _ (p : Platform) where
  pair_eq :
      {A B : Type 0} {a a' : A} {b b' : B} → ◌≡◌ {A = A × B} (a, b) (a', b') → (a ≡ a') × (b ≡ b')
  pair_eq e = (ap (λ x. x.0) e, ap (λ x. x.1) e)

  find-commit_self :
      (m : Memory) (c : ReviewCase) (e : ReviewAuditEvent)
      → c.case_id ≢ ""
      → Memory.find_by_request_id (Memory.commit m c e) c.request_id ≡ some c
  unfolding Memory.find_by_request_id Memory.commit
  find-commit_self m c e named =
      rw (lookup-insert_self c.request_id c.case_id m.request_index, Memory.find_by_request_id)
        (elim (Bool-cases (str_eq c.case_id "")) [
          | inl empty ↦ absurd (named ((eq_iff c.case_id "").0 empty))
          | inr full ↦ rw full (lookup-insert_self c.case_id c m.cases)
        ])

  -- A case that `enqueue` gives is found under the identifier of the request.
  pub enqueue_finds :
      (m : Memory) (t : Readings) (r : ModerationResponse) {c : ReviewCase} {u : Memory}
      → case_id_of p r ≢ ""
      → enqueue p memory_repository t r m ≡ (ok (some c), u)
      → Memory.find_by_request_id u r.request_id ≡ some c
  unfolding enqueue record_event
  enqueue_finds m t r {c} {u} named e = elim (Bool-cases (requires_review r)) [
    | inr unneeded ↦
        let e' : ◌≡◌ {A = Result ReviewError (Option ReviewCase) × Memory} (ok none, m)
            (ok (some c), u) =
          rw unneeded at e in
        cc
    | inl needed ↦ elim (Option-cases (Memory.find_by_request_id m r.request_id)) [
      | inr (old, found) ↦
          let e' : ◌≡◌ {A = Result ReviewError (Option ReviewCase) × Memory} (ok (some old), m)
              (ok (some c), u) =
            rw found at (rw needed at e) in
          rw (← (pair_eq e').1) (found ∙ ok-injective (pair_eq e').0)
      | inl unknown ↦
          let e' = rw unknown at (rw needed at e) in
          rw (← (pair_eq e').1)
            (find-commit_self m (new_case p t r) _ named ∙ ok-injective (pair_eq e').0)
    ]
  ]

  -- Once a request is enqueued, enqueueing it again, with any response that needs review, gives the
  -- same case and changes nothing, if its UUID5 is no empty text.
  pub enqueue_again :
      (m : Memory) (t t' : Readings) (r r' : ModerationResponse) {c : ReviewCase} {u : Memory}
      → case_id_of p r ≢ ""
      → r'.request_id ≡ r.request_id
      → requires_review r' ≡ true
      → enqueue p memory_repository t r m ≡ (ok (some c), u)
      → enqueue p memory_repository t' r' u ≡ (ok (some c), u)
  unfolding enqueue
  enqueue_again m t t' r r' named same needed e =
      rw (needed, same) (rw (enqueue_finds m t r named e) refl)

-- Every case has exactly one of the four states, so that the counts of the backlog add up to the
-- number of cases.
abbrev pub total : List (ReviewState × ℕ) → ℕ
total [] = 0
total ((_, n) ∷ rest) = n + total rest

length-insert_by_creation :
    (c : ReviewCase) (cs : List ReviewCase) → length (insert_by_creation c cs) ≡ length cs + 1
unfolding insert_by_creation
length-insert_by_creation c [] = omega arith
length-insert_by_creation c (d ∷ ds) = ground (arith, length-insert_by_creation c ds)

length-sort_by_creation : (cs : List ReviewCase) → length (sort_by_creation cs) ≡ length cs
unfolding sort_by_creation
length-sort_by_creation [] = refl
length-sort_by_creation (c ∷ cs) =
    length-insert_by_creation c (sort_by_creation cs) ∙ omega (arith, length-sort_by_creation cs)

abbrev count : ReviewState → List ReviewCase → ℕ
count state cs = length (keep (has_state (some state)) cs)

one_state :
    (cs : List ReviewCase)
    → count ReviewState.pending cs
        + (count ReviewState.claimed cs
            + (count ReviewState.resolved cs + (count ReviewState.appealed cs + 0)))
      ≡ length cs
one_state [] = omega arith
one_state (c ∷ cs) = ground (arith, one_state cs)

keep_all : (cs : List ReviewCase) → keep (has_state none) cs ≡ cs
keep_all [] = refl
keep_all (c ∷ cs) = ap (λ ds. c ∷ ds) (keep_all cs)

length-list_cases :
    (m : Memory) (state : Option ReviewState)
    → length (Memory.list_cases m state) ≡ length (keep (has_state state) (values m.cases))
unfolding Memory.list_cases
length-list_cases m state = length-sort_by_creation (keep (has_state state) (values m.cases))

-- The counts that `backlog` reports for the four states add up to the number of cases that
-- `list_cases` gives with no state asked.
pub backlog-total :
    (p : Platform) (m : Memory)
    → total (backlog p memory_repository m) ≡ length (Memory.list_cases m none)
unfolding backlog
backlog-total p m = rw (length-list_cases m (some ReviewState.pending)) (
    rw (length-list_cases m (some ReviewState.claimed)) (
      rw (length-list_cases m (some ReviewState.resolved)) (
        rw (length-list_cases m (some ReviewState.appealed)) (
          one_state (values m.cases)
          ∙ sym (length-list_cases m none ∙ ap length (keep_all (values m.cases)))))))

-- Each case at most as new as all that follow.
abbrev pub IsOrdered : List ReviewCase → Type 0
IsOrdered [] = Unit
IsOrdered (c ∷ []) = Unit
IsOrdered (c ∷ d ∷ ds) = (c.created_at ≤ d.created_at) × IsOrdered (d ∷ ds)

insert_by_creation-IsOrdered :
    (c : ReviewCase) (cs : List ReviewCase) → IsOrdered cs → IsOrdered (insert_by_creation c cs)
unfolding insert_by_creation
insert_by_creation-IsOrdered c [] h = tt
insert_by_creation-IsOrdered c (d ∷ []) h = ground arith
insert_by_creation-IsOrdered c (d ∷ e ∷ es) h =
    ground (arith, insert_by_creation-IsOrdered c (e ∷ es))

sort_by_creation-IsOrdered : (cs : List ReviewCase) → IsOrdered (sort_by_creation cs)
unfolding sort_by_creation
sort_by_creation-IsOrdered [] = tt
sort_by_creation-IsOrdered (c ∷ cs) =
    insert_by_creation-IsOrdered c (sort_by_creation cs) (sort_by_creation-IsOrdered cs)

module _ (q : ReviewCase → Bool) where
  abbrev number : List ReviewCase → ℕ
  number cs = length (keep q cs)

  number-insert_by_creation :
      (c : ReviewCase) (cs : List ReviewCase) → number (insert_by_creation c cs) ≡ number (c ∷ cs)
  unfolding insert_by_creation
  number-insert_by_creation c [] = refl
  number-insert_by_creation c (d ∷ ds) = ground (arith, number-insert_by_creation c ds)

  number-sort_by_creation : (cs : List ReviewCase) → number (sort_by_creation cs) ≡ number cs
  unfolding sort_by_creation
  number-sort_by_creation [] = refl
  number-sort_by_creation (c ∷ cs) =
      number-insert_by_creation c (sort_by_creation cs) ∙ ground (arith, number-sort_by_creation cs)

-- `list_cases` gives the cases oldest first, and they are exactly the held cases of the asked
-- state: for every test, as many of the listed cases pass it as of the held ones.
pub list_cases_lem :
    (m : Memory) (state : Option ReviewState) (q : ReviewCase → Bool)
    → IsOrdered (Memory.list_cases m state)
      × (length (keep q (Memory.list_cases m state))
          ≡ length (keep q (keep (has_state state) (values m.cases))))
unfolding Memory.list_cases
list_cases_lem m state q = (
  sort_by_creation-IsOrdered (keep (has_state state) (values m.cases)),
  number-sort_by_creation q (keep (has_state state) (values m.cases)),
)
