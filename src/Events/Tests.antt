-- ===== src/Events/Tests.antt =====
-- Runs of a consumer of src/classes/queue-events.ts.
use elephantmq.Base.Maps.{get, set, delete}
use elephantmq.Base.{ℕ, ◌++◌, ◌≡◌, List, arith, none, [], some, refl, ◌∷◌, true}
use elephantmq.Events.{
  EventRow, consume_round, event_of, take_answer, parsed_at, args_of,
  on_events_channel_notification, job_event, emit_row, emit_rows, wake_event_waiters, drained_event,
  text, batch, QueueEvents, consume,
}
use elephantmq.Events.Delivery.{
  Reach, consumer_at, Reach-delivers, polled-all, polled, commits, polls, begins, deletes,
}
use elephantmq.Events.Pending.{pending, survivors}

abbrev waiting_row : ℕ → EventRow
waiting_row n = record { id = n; event = "waiting"; args = some (("jobId", text "7") ∷ []) }

abbrev drained_row : ℕ → EventRow
drained_row n = record { id = n; event = "drained"; args = none }

emit_row_test :
    (emit_row text (drained_row 4) ≡ drained_event 4 ∷ [])
    × (emit_row text (waiting_row 3)
        ≡ event_of (some (text "waiting")) (("jobId", text "7") ∷ []) 3
          ∷ job_event (some (text "waiting")) (text "7") (("jobId", text "7") ∷ []) 3
          ∷ [])
unfolding emit_row args_of parsed_at get set delete
emit_row_test = (refl, refl)

abbrev two_rows : List EventRow
two_rows = waiting_row 3 ∷ drained_row 4 ∷ []

-- A row that is there from the beginning, and one that comes behind it.
abbrev read_once : QueueEvents
read_once = consume_round text true (some two_rows) (consumer_at 2)

abbrev first_row : List EventRow
first_row = waiting_row 3 ∷ []

polled_once-Reach :
    Reach text 2 4
      (first_row ++ pending 2 (drained_row 4 ∷ []))
      (first_row ++ drained_row 4 ∷ [])
      read_once
polled_once-Reach = polls true (
    commits (drained_row 4 ∷ []) ((omega arith), tt)
      (begins 3 first_row ((omega arith), tt) ((omega arith), tt)))

-- The first of the rows is deleted behind the reading.
trimmed-Reach :
    Reach text 2 4
      (survivors read_once.last_id 3 (first_row ++ pending 2 (drained_row 4 ∷ [])))
      (pending 3 (first_row ++ drained_row 4 ∷ []))
      read_once
trimmed-Reach = deletes 3 polled_once-Reach

Reach-delivers_example :
    read_once.emitted
      ++ emit_rows text (pending read_once.last_id (pending 3 (first_row ++ drained_row 4 ∷ [])))
    ≡ emit_rows text (survivors read_once.last_id 3 (first_row ++ pending 2 (drained_row 4 ∷ [])))
Reach-delivers_example = Reach-delivers text trimmed-Reach

polled-all_example :
    (polled text 1 true (pending 3 (first_row ++ drained_row 4 ∷ [])) read_once).emitted
    ≡ emit_rows text (survivors read_once.last_id 3 (first_row ++ pending 2 (drained_row 4 ∷ [])))
unfolding consume_round batch take_answer consume
polled-all_example = polled-all text 1 true trimmed-Reach refl (omega arith)

-- A notification that comes while no call waits leaves no trace: the next round parks all the same.
unlatched_test :
    (consume_round text true
      (some [])
      (on_events_channel_notification (λ _. true) none (consumer_at 3))).event_wait_resolvers
    ≡ 0 ∷ []
unfolding consume_round on_events_channel_notification wake_event_waiters batch take_answer
unlatched_test = refl
