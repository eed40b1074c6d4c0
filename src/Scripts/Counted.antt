-- ===== src/Scripts/Counted.antt =====
-- What the load test counts: scripts/load_test_async.py.
use sentinel_content_safety.Base.{
  ℕ, zero, suc, ◌+◌, ◌≤◌, ◌≡◌, refl, ap, sym, ◌∙◌, String, Bool-cases, Option, Option-cases, some,
  some-inj, List, [], ◌∷◌, length, ◌==◌, if◌then◌else◌, inl, inr, arith,
}
use sentinel_content_safety.Scripts.LoadTest.{
  Counts, is_terminal, count_state, set_of, poll, wait_rounds, wait_for_terminal_jobs, submit_jobs,
  Benchmark, benchmark,
}

abbrev pub terminal : Counts → ℕ
terminal counts = counts.succeeded + counts.failed

count_state-terminal :
    (state : String) (counts : Counts) → terminal (count_state state counts) ≡ suc (terminal counts)
unfolding count_state
count_state-terminal state counts = ground arith

-- A round of polling loses no job: it is counted or stays pending.
poll-terminal :
    (state_of : String → Option String) (batch : List String) (counts : Counts)
    {out : Counts × List String}
    → poll state_of batch counts ≡ some out
    → terminal out.0 + length out.1 ≡ terminal counts + length batch
unfolding poll
poll-terminal state_of [] counts h = rw (sym (some-inj h)) refl
poll-terminal state_of (j ∷ batch) counts {out} h = elim (Option-cases (state_of j)) [
  | inl absent ↦ let h' = rw (absent, poll) at h in cc
  | inr (state, seen) ↦ elim (Bool-cases (is_terminal state)) [
    | inl t ↦
        let e =
          poll-terminal state_of batch (count_state state counts) {out = out}
            (rw (seen, t, poll) at h) in
        omega (arith, e, count_state-terminal state counts)
    | inr f ↦ elim (Option-cases (poll state_of batch counts)) [
      | inl absent ↦ let h' = rw (seen, f, absent, poll) at h in cc
      | inr (rest, polled) ↦
          let h' = rw (seen, f, polled, poll) at h in
          let e = poll-terminal state_of batch counts {out = rest} polled in
          rw (sym (some-inj h')) (omega (arith, e))
    ]
  ]
]

wait_rounds-total :
    (rounds : List (String → Option String)) (pending : List String) (counts : Counts)
    {out : Counts × ℕ}
    → wait_rounds rounds pending counts ≡ some out
    → terminal out.0 + out.1 ≡ terminal counts + length pending
unfolding wait_rounds
wait_rounds-total rounds [] counts h = rw (sym (some-inj h)) refl
wait_rounds-total [] (j ∷ pending) counts h = rw (sym (some-inj h)) refl
wait_rounds-total (state_of ∷ rounds) (j ∷ pending) counts {out} h =
    elim (Option-cases (poll state_of (j ∷ pending) counts)) [
      | inl absent ↦ let h' = rw (absent, wait_rounds) at h in cc
      | inr (rest, polled) ↦
          let h' = rw (polled, wait_rounds) at h in
          wait_rounds-total rounds rest.1 rest.0 {out = out} h'
          ∙ poll-terminal state_of (j ∷ pending) counts {out = rest} polled
    ]

length-set_of : (ids : List String) → length (set_of ids) ≤ length ids
unfolding set_of
length-set_of [] = omega arith
length-set_of (id ∷ ids) = ground (arith, length-set_of ids)

length-submit_jobs :
    (submit_job : ℕ → Option String) (index requests : ℕ) {ids : List String}
    → submit_jobs submit_job index requests ≡ some ids
    → length ids ≡ requests
unfolding submit_jobs
length-submit_jobs submit_job index zero h = rw (sym (some-inj h)) refl
length-submit_jobs submit_job index (suc n) {ids} h = elim (Option-cases (submit_job index)) [
  | inl refused ↦ let h' = rw (refused, submit_jobs) at h in cc
  | inr (id, accepted) ↦ elim (Option-cases (submit_jobs submit_job (suc index) n)) [
    | inl refused ↦ let h' = rw (accepted, refused, submit_jobs) at h in cc
    | inr (rest, submitted) ↦
        let h' = rw (accepted, submitted, submit_jobs) at h in
        rw (sym (some-inj h')) (ap suc (length-submit_jobs submit_job (suc index) n submitted))
  ]
]

exit_zero : (n : ℕ) → ((if n == 0 then 0 else 1) == 0) ≡ (n == 0)
exit_zero n = ground arith

-- A benchmark that ends accepted one job for each request. The jobs it counts, as succeeded, failed or
-- incomplete, are the distinct ones it was given, each once, so that they are no more than the
-- requests; and its exit code is zero just if none of them is incomplete.
pub benchmark-total :
    (submit_job : ℕ → Option String) (rounds : List (String → Option String)) (requests : ℕ)
    {b : Benchmark}
    → benchmark submit_job rounds requests ≡ some b
    → (ids : List String) × (submit_jobs submit_job 0 requests ≡ some ids)
      × (b.accepted ≡ requests)
      × (b.counts.succeeded + b.counts.failed + b.incomplete ≡ length (set_of ids))
      × (length (set_of ids) ≤ requests)
      × ((b.exit_code == 0) ≡ (b.incomplete == 0))
unfolding benchmark wait_for_terminal_jobs
benchmark-total submit_job rounds requests {b} h =
    elim (Option-cases (submit_jobs submit_job 0 requests)) [
      | inl absent ↦ let h' = rw (absent, benchmark) at h in cc
      | inr (ids, submitted) ↦ elim (Option-cases (wait_for_terminal_jobs rounds ids)) [
        | inl absent ↦ let h' = rw (submitted, absent, benchmark) at h in cc
        | inr (out, waited) ↦
            let h' = rw (submitted, waited, benchmark) at h in
            let all_counted =
              wait_rounds-total rounds (set_of ids) (record { succeeded = 0; failed = 0 })
                {out = out} waited in
            let accepted = length-submit_jobs submit_job 0 requests submitted in
            rw (sym (some-inj h')) (
              ids,
              submitted,
              accepted,
              omega (arith, all_counted),
              omega (arith, accepted, length-set_of ids),
              exit_zero out.1,
            )
      ]
    ]
