-- ===== src/Getters/Tests.antt =====
-- Runs of the reads of src/classes/queue-getters.ts.
use elephantmq.Base.{List, false, ◌≡◌, [], refl, ℕ, ◌∷◌, String, true}
use elephantmq.Base.Int.{pos}
use elephantmq.Getters.{
  scripts_get_ranges, get_ranges, classify_job_types, has_waiting, get_jobs, get_job_counts,
  sanitize_job_types, scripts_get_range, ordering_of, JobType, limit_of, emq_get_ranges_v1,
  index_of, get_job_count_by_types, sum_counts, waiting, distinct, wait, delayed, collect, failed,
  joined,
}

-- Two jobs wait, and two are delayed.
abbrev two_each : JobType → List String
two_each wait = "1" ∷ "2" ∷ []
two_each delayed = "3" ∷ "4" ∷ []
two_each _ = []

-- A page of one waiting job has the first of them, or the last in ascending order.
first_page_test :
    (get_jobs two_each (waiting ∷ []) 0 (pos 0) false ≡ "1" ∷ [])
    × (get_jobs two_each (waiting ∷ []) 0 (pos 0) true ≡ "2" ∷ [])
unfolding get_jobs get_ranges sanitize_job_types distinct has_waiting index_of classify_job_types
    ordering_of collect joined scripts_get_ranges scripts_get_range emq_get_ranges_v1 limit_of
first_page_test = (refl, refl)

abbrev one_each : JobType → ℕ
one_each t = 1

-- A count of the waiting jobs has the paused ones in it, and a type that is asked for twice once.
counts_test : get_job_count_by_types one_each (waiting ∷ failed ∷ waiting ∷ []) ≡ 3
unfolding get_job_count_by_types get_job_counts sum_counts sanitize_job_types distinct has_waiting
    index_of
counts_test = refl
