-- ===== src/Scripts/LoadTest.antt =====
-- scripts/load_test_async.py. The API is a parameter: what it answers to a submission, and to a look
-- at a job in each round of polling. An answer that is no success is none.
use sentinel_content_safety.Base.{
  ℕ, zero, suc, ◌-◌, String, Bool, true, false, ◌||◌, Option, none, some, List, [], ◌∷◌, length,
  any, str_eq, leb, ◌==◌, if◌then◌else◌,
}
use sentinel_content_safety.Schemas.{Score}
use sentinel_content_safety.Multimodal.Bytes.{get_elem?}

pub record Counts : Type 0 where
  pub succeeded : ℕ
  pub failed : ℕ

-- `state in TERMINAL_STATES`
abbrev pub is_terminal : String → Bool
is_terminal state = str_eq state "succeeded" || str_eq state "failed"

-- `counts[state] += 1`
unfoldable pub count_state : String → Counts → Counts
count_state state counts =
    if str_eq state "succeeded"
    then record counts { succeeded = suc counts.succeeded }
    else record counts { failed = suc counts.failed }

-- `set(job_ids)`
unfoldable pub set_of : List String → List String
set_of [] = []
set_of (id ∷ ids) = let rest = set_of ids in if any (str_eq id) rest then rest else id ∷ rest

-- One round of polling over a batch: the counts, and the jobs that stay pending.
unfoldable pub poll :
    (String → Option String) → List String → Counts → Option (Counts × List String)
unfolding count_state
poll state_of [] counts = some (counts, [])
poll state_of (job_id ∷ batch) counts = elim (state_of job_id) [
  | none ↦ none
  | some state ↦ elim (is_terminal state) [
    | true ↦ poll state_of batch (count_state state counts)
    | false ↦ elim (poll state_of batch counts) [
      | none ↦ none
      | some (counts', pending) ↦ some (counts', job_id ∷ pending)
    ]
  ]
]

-- The loop of `wait_for_terminal_jobs`: the rounds are those that begin before the deadline.
unfoldable pub wait_rounds :
    List (String → Option String) → List String → Counts → Option (Counts × ℕ)
unfolding poll
wait_rounds rounds [] counts = some (counts, 0)
wait_rounds [] (job_id ∷ pending) counts = some (counts, length (job_id ∷ pending))
wait_rounds (state_of ∷ rounds) (job_id ∷ pending) counts =
    elim (poll state_of (job_id ∷ pending) counts) [
      | none ↦ none
      | some (counts', pending') ↦ wait_rounds rounds pending' counts'
    ]

-- `wait_for_terminal_jobs`: the counts and the number of incomplete jobs.
unfoldable pub wait_for_terminal_jobs :
    List (String → Option String) → List String → Option (Counts × ℕ)
unfolding wait_rounds set_of
wait_for_terminal_jobs rounds job_ids =
    wait_rounds rounds (set_of job_ids) (record { succeeded = 0; failed = 0 })

abbrev pub put_first : String → Option (List String) → Option (List String)
put_first id none = none
put_first id (some ids) = some (id ∷ ids)

-- The submissions of `benchmark`, of a number of requests from an index on: their job identifiers.
unfoldable pub submit_jobs : (ℕ → Option String) → ℕ → ℕ → Option (List String)
submit_jobs submit_job index zero = some []
submit_jobs submit_job index (suc requests) = elim (submit_job index) [
  | none ↦ none
  | some job_id ↦ put_first job_id (submit_jobs submit_job (suc index) requests)
]

-- What `benchmark` finds; the latencies and the printing are left out.
pub record Benchmark : Type 0 where
  pub accepted : ℕ
  pub counts : Counts
  pub incomplete : ℕ
  pub exit_code : ℕ

unfoldable pub benchmark :
    (ℕ → Option String) → List (String → Option String) → ℕ → Option Benchmark
unfolding submit_jobs wait_for_terminal_jobs
benchmark submit_job rounds requests = elim (submit_jobs submit_job 0 requests) [
  | none ↦ none
  | some job_ids ↦ elim (wait_for_terminal_jobs rounds job_ids) [
    | none ↦ none
    | some (counts, incomplete) ↦ some (record {
      accepted = length job_ids;
      counts = counts;
      incomplete = incomplete;
      exit_code = if incomplete == 0 then 0 else 1;
    })
  ]
]

abbrev pub insert_value : Score → List Score → List Score
insert_value v [] = v ∷ []
insert_value v (w ∷ ws) = if leb v w then v ∷ w ∷ ws else w ∷ insert_value v ws

abbrev pub sorted : List Score → List Score
sorted [] = []
sorted (v ∷ vs) = insert_value v (sorted vs)

-- `percentile`; `rank n` is `round(n * percentile_value)`.
unfoldable pub percentile : (ℕ → ℕ) → List Score → Option Score
percentile rank values = get_elem? (sorted values) (rank (length values - 1))
