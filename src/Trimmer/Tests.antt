-- ===== src/Trimmer/Tests.antt =====
-- Runs of src/classes/events-trimmer.ts.
use elephantmq.Base.{◌≡◌, ◌+◌, ◌∷◌, false, arith, ◌≤◌, ◌==◌, [], List, refl, length, ℕ}
use elephantmq.Trimmer.{trim_events_for_queue, max_id, EmqEvent}
use elephantmq.Trimmer.Bound.{of_queue, Ascending, trim_events_for_queue-few}

abbrev row : ℕ → ℕ → EmqEvent
row q n = record { queue_id = q; id = n }

abbrev five_rows : List EmqEvent
five_rows = row 1 3 ∷ row 1 4 ∷ row 2 5 ∷ row 1 6 ∷ row 1 7 ∷ []

five_rows-Ascending : Ascending 0 five_rows
five_rows-Ascending = (omega arith, (omega arith, (omega arith, (omega arith, (omega arith, tt)))))

-- With a limit of one, two are left.
one_test : of_queue 1 (trim_events_for_queue 1 1 five_rows).0 ≡ row 1 6 ∷ row 1 7 ∷ []
unfolding trim_events_for_queue max_id
one_test = refl

trim_events_for_queue-few_example :
    (length (of_queue 1 (trim_events_for_queue 1 2 five_rows).0) ≤ 3)
    × ((r : ℕ)
        → (1 == r) ≡ false
        → of_queue r (trim_events_for_queue 1 2 five_rows).0 ≡ of_queue r five_rows)
    × ((trim_events_for_queue 1 2 five_rows).1 + length (trim_events_for_queue 1 2 five_rows).0
        ≡ length five_rows)
trim_events_for_queue-few_example =
    trim_events_for_queue-few 1 2 five_rows five_rows-Ascending (omega arith)
