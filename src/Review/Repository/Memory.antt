-- ===== src/Review/Repository/Memory.antt =====
-- `InMemoryReviewRepository` of src/sentinel/review/repository.py. The lock makes each method one
-- step, so that a method is a function of the three dictionaries.
use sentinel_content_safety.Base.{
  ◌≡◌, ◌≢◌, ◌∙◌, subst, is_some, Bool-cases, Option-cases, inl, inr, String, Option, none, some,
  List, [], ◌∷◌, ◌++◌, Bool, true, str_eq, eq_iff, arith, leb, keep, if◌then◌else◌,
}
use sentinel_content_safety.Base.Dict.{
  Dict, lookup, insert, values, lookup-insert, lookup-insert_self,
}
use sentinel_content_safety.Review.Models.{ReviewState, state_eq, ReviewCase, ReviewAuditEvent}

pub record Memory : Type 0 where
  pub cases : Dict ReviewCase
  pub request_index : Dict String
  pub events : Dict (List ReviewAuditEvent)

abbrev pub empty : Memory
empty = record { cases = []; request_index = []; events = [] }

unfoldable pub get : Memory → String → Option ReviewCase
get m case_id = lookup case_id m.cases

-- An empty identifier counts as no identifier.
unfoldable pub find_by_request_id : Memory → String → Option ReviewCase
unfolding get
find_by_request_id m request_id = elim (lookup request_id m.request_index) [
  | none ↦ none
  | some case_id ↦ if str_eq case_id "" then none else get m case_id
]

-- `sorted` by the time of creation; equal times keep their order.
unfoldable pub insert_by_creation : ReviewCase → List ReviewCase → List ReviewCase
insert_by_creation c [] = c ∷ []
insert_by_creation c (d ∷ ds) =
    if leb c.created_at d.created_at then c ∷ d ∷ ds else d ∷ insert_by_creation c ds

unfoldable pub sort_by_creation : List ReviewCase → List ReviewCase
unfolding insert_by_creation
sort_by_creation [] = []
sort_by_creation (c ∷ cs) = insert_by_creation c (sort_by_creation cs)

abbrev pub has_state : Option ReviewState → ReviewCase → Bool
has_state none c = true
has_state (some state) c = state_eq c.state state

unfoldable pub list_cases : Memory → Option ReviewState → List ReviewCase
unfolding sort_by_creation values
list_cases m state = sort_by_creation (keep (has_state state) (values m.cases))

abbrev pub or_empty : Option (List ReviewAuditEvent) → List ReviewAuditEvent
or_empty none = []
or_empty (some es) = es

unfoldable pub audit : Memory → String → List ReviewAuditEvent
audit m case_id = or_empty (lookup case_id m.events)

unfoldable pub commit : Memory → ReviewCase → ReviewAuditEvent → Memory
unfolding audit
commit m c e = record {
  cases = insert c.case_id c m.cases;
  request_index = insert c.request_id c.case_id m.request_index;
  events = insert c.case_id (audit m c.case_id ++ e ∷ []) m.events;
}

module _ (m : Memory) (c : ReviewCase) (e : ReviewAuditEvent) (id : String) where
  pub get-commit : get (commit m c e) id ≡ (if str_eq c.case_id id then some c else get m id)
  unfolding get commit
  get-commit = lookup-insert c.case_id id c m.cases

  pub audit-commit :
      audit (commit m c e) id ≡ (if str_eq c.case_id id then audit m id ++ e ∷ [] else audit m id)
  unfolding audit commit
  audit-commit = ground (
    arith,
    lookup-insert c.case_id id (audit m c.case_id ++ e ∷ []) m.events,
    eq_iff c.case_id id,
  )

module _ (m : Memory) (c : ReviewCase) (e : ReviewAuditEvent) (named : c.case_id ≢ "") where
  pub find-commit_own : is_some (find_by_request_id (commit m c e) c.request_id) ≡ true
  unfolding find_by_request_id commit
  find-commit_own = ground (
    arith,
    lookup-insert_self c.request_id c.case_id m.request_index,
    lookup-insert_self c.case_id c m.cases,
    eq_iff c.case_id "",
  )

  pub find-commit_kept :
      (request_id : String)
      → is_some (find_by_request_id m request_id) ≡ true
      → is_some (find_by_request_id (commit m c e) request_id) ≡ true
  unfolding find_by_request_id get commit
  find-commit_kept request_id h = elim (Bool-cases (str_eq c.request_id request_id)) [
    | inl own ↦
        subst (λ r. is_some (find_by_request_id (commit m c e) r) ≡ true)
          ((eq_iff c.request_id request_id).0 own) find-commit_own
    | inr other ↦ elim (Option-cases (lookup request_id m.request_index)) [
      | inl missing ↦ let h' = rw (missing, find_by_request_id) at h in cc
      | inr (id, found) ↦
          let indexed : lookup request_id (insert c.request_id c.case_id m.request_index)
              ≡ some id =
            lookup-insert c.request_id request_id c.case_id m.request_index ∙ rw other found in
          let h' = rw (found, find_by_request_id) at h in
          rw (indexed, find_by_request_id) (ground (arith, lookup-insert c.case_id id c m.cases))
    ]
  ]
