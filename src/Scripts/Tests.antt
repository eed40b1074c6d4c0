-- ===== src/Scripts/Tests.antt =====
-- The theorem on the load test at two jobs, one of which stays incomplete.
use sentinel_content_safety.Base.{
  ℕ, ◌+◌, ◌≤◌, ◌≡◌, refl, String, Option, some, List, [], ◌∷◌, length, str_eq, ◌==◌, if◌then◌else◌,
}
use sentinel_content_safety.Scripts.LoadTest.{Benchmark, set_of, submit_jobs, benchmark}
use sentinel_content_safety.Scripts.Counted.{benchmark-total}

abbrev submit_job : ℕ → Option String
submit_job index = some (if index == 0 then "j0" else "j1")

abbrev rounds : List (String → Option String)
rounds = (λ job_id. some (if str_eq job_id "j0" then "succeeded" else "processing")) ∷ []

abbrev found : Benchmark
found = record {
  accepted = 2;
  counts = record { succeeded = 1; failed = 0 };
  incomplete = 1;
  exit_code = 1;
}

benchmark-total_example :
    (ids : List String) × (submit_jobs submit_job 0 2 ≡ some ids)
    × (found.accepted ≡ 2)
    × (found.counts.succeeded + found.counts.failed + found.incomplete ≡ length (set_of ids))
    × (length (set_of ids) ≤ 2)
    × ((found.exit_code == 0) ≡ (found.incomplete == 0))
unfolding benchmark
benchmark-total_example = benchmark-total submit_job rounds 2 {b = found} refl
