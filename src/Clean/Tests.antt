-- ===== src/Clean/Tests.antt =====
-- A queue of three jobs that is cleaned by src/classes/queue.ts.
use elephantmq.Base.{String, false, some, ◌∷◌, ◌≡◌, ◌+◌, [], length, arith, List, ◌<◌, refl, ◌⊎◌, ℕ}
use elephantmq.Clean.Ends.{clean-picked, clean-bounded}
use elephantmq.Clean.Picked.{Parts}
use elephantmq.Clean.{JobRow, count_per_call, clean, normalized}

abbrev old_job : JobRow
old_job = record { job_id = "1"; state = "completed"; scheduled = false; since = 5 }

abbrev new_job : JobRow
new_job = record { job_id = "2"; state = "completed"; scheduled = false; since = 50 }

abbrev failed_job : JobRow
failed_job = record { job_id = "3"; state = "failed"; scheduled = false; since = 6 }

abbrev rows : List JobRow
rows = old_job ∷ new_job ∷ failed_job ∷ []

abbrev two : ℕ
two = 2

clean-bounded_example :
    (r : List String × List JobRow) × (clean (λ i s. s) 4 10 two "completed" rows ≡ some r)
    × ((two ≡ 0) ⊎ (length r.0 < two + count_per_call two))
clean-bounded_example = clean-bounded (λ i s. s) 10 two "completed" rows (λ i r. omega arith)

clean-picked_example :
    (ids : List String) × (rest : List JobRow) × (clean (λ i s. s) 4 10 0 "completed" rows
      ≡ some (ids, rest))
    × Parts (normalized "completed") 10 rows ids rest
clean-picked_example = clean-picked (λ i s. s) 10 "completed" rows (λ i r. refl)
