-- ===== src/Events.antt =====
-- The class QueueEvents of src/classes/queue-events.ts. The table of events is a list of rows in the
-- order of their ids, as the query gives them; a payload maps names to values, and `parse` is
-- parseOptionalJsonString.
pub mod Pending
pub mod Delivery
pub mod Tests
use elephantmq.Base.Maps.{get, set, delete}
use elephantmq.Base.{
  some, ℕ, Option, ◌++◌, String, if◌then◌else◌, [], max, ◌∷◌, true, elem, str_eq, Bool, not, ◌||◌,
  take, ltb, false, remove, suc, List, none, filter_by,
}

pub data Value : Type 0 where
  text : String → Value
  other : ℕ → Value

abbrev pub Args : Type 0
Args = List (String × Value)

-- `args` is none where the column is not an object.
pub record EventRow : Type 0 where
  pub id : ℕ
  pub event : String
  pub args : Option Args

-- What listeners get: the drained event with its id, an event with its arguments, and the event of
-- one job.
pub data Emitted : Type 0 where
  drained_event : ℕ → Emitted
  event_of : Option Value → Args → ℕ → Emitted
  job_event : Option Value → Value → Args → ℕ → Emitted

-- A call that waits for a notification is its number; `woken` are those that were resolved.
pub record QueueEvents : Type 0 where
  pub last_id : ℕ
  pub emitted : List Emitted
  pub event_wait_resolvers : List ℕ
  pub next_waiter : ℕ
  pub woken : List ℕ
  pub closing : Bool

-- `where queue_id = $1 and id > $2 order by id asc limit 200`
unfoldable pub batch : ℕ → List EventRow → List EventRow
batch last rows = take 200 (filter_by (λ r. ltb last r.id) rows)

abbrev pub last_of : ℕ → List EventRow → ℕ
last_of last [] = last
last_of last (row ∷ rows) = last_of row.id rows

-- The arguments that are spread over the event's own name.
abbrev spread : Args → Args → Args
spread [] args = args
spread ((k, v) ∷ payload) args = spread payload (set k v args)

abbrev payload_of : EventRow → Args
payload_of row = elim row.args [ none ↦ [] | some args ↦ args ]

module _ (parse : String → Value) where
  -- The value under a key is read as JSON if it is a text.
  unfoldable pub parsed_at : String → Args → Args
  unfolding get set
  parsed_at key args = elim (get key args) [ some (text t) ↦ set key (parse t) args | _ ↦ args ]

  unfoldable pub args_of : EventRow → Args
  unfolding parsed_at set
  args_of row =
      let args = spread (payload_of row) (("event", text row.event) ∷ []) in
      if str_eq row.event "progress"
      then parsed_at "data" args
      else if str_eq row.event "completed"
      then parsed_at "returnvalue" args
      else args

  abbrev is_drained : Option Value → Bool
  is_drained (some (text t)) = str_eq t "drained"
  is_drained _ = false

  -- An empty text and a zero are falsy.
  abbrev is_truthy : Value → Bool
  is_truthy (text t) = not (str_eq t "")
  is_truthy (other n) = ltb 0 n

  abbrev of_job : Option Value → Option Value → Args → ℕ → List Emitted
  of_job event none args id = []
  of_job event (some job) args id = if is_truthy job then job_event event job args id ∷ [] else []

  -- What one row makes the listeners hear.
  unfoldable pub emit_row : EventRow → List Emitted
  unfolding args_of get delete
  emit_row row =
      let args = args_of row in
      let event = get "event" args in
      let rest_args = delete "event" args in
      if is_drained event
      then drained_event row.id ∷ []
      else event_of event rest_args row.id ∷ of_job event (get "jobId" rest_args) rest_args row.id

  unfoldable pub emit_rows : List EventRow → List Emitted
  unfolding emit_row
  emit_rows [] = []
  emit_rows (row ∷ rows) = emit_row row ++ emit_rows rows

  -- The loop over the rows of an answer.
  unfoldable pub consume : List EventRow → QueueEvents → QueueEvents
  unfolding emit_rows
  consume rows q = record q {
    last_id = last_of q.last_id rows;
    emitted = q.emitted ++ emit_rows rows;
  }

  -- On an empty answer the round waits, where there is a notification manager under a resolver.
  unfoldable pub take_answer : Bool → List EventRow → QueueEvents → QueueEvents
  unfolding consume
  take_answer true [] q = record q {
    event_wait_resolvers = q.event_wait_resolvers ++ q.next_waiter ∷ [];
    next_waiter = suc q.next_waiter;
  }
  take_answer false [] q = q
  take_answer manager (row ∷ rows) q = consume (row ∷ rows) q

  -- One round of the loop of `consumeEvents`, `while (!this.closing)`: a query that fails gives nothing.
  unfoldable pub consume_round : Bool → Option (List EventRow) → QueueEvents → QueueEvents
  unfolding batch take_answer
  consume_round manager none q = q
  consume_round manager (some table) q =
      if q.closing then q else take_answer manager (batch q.last_id table) q

abbrev largest : List EventRow → ℕ
largest [] = 0
largest (row ∷ rows) = max row.id (largest rows)

-- Where the consumer begins: at an id that is given, or behind the events there are.
unfoldable pub first_id : Option ℕ → List EventRow → ℕ
first_id none table = largest table
first_id (some id) table = id

unfoldable pub wake_event_waiters : QueueEvents → QueueEvents
wake_event_waiters q = record q {
  event_wait_resolvers = [];
  woken = q.woken ++ q.event_wait_resolvers;
}

-- The payload is none, or a text, of which `ours` tells whether it begins with the queue's name.
unfoldable pub on_events_channel_notification :
    (String → Bool) → Option String → QueueEvents → QueueEvents
unfolding wake_event_waiters
on_events_channel_notification ours none q = wake_event_waiters q
on_events_channel_notification ours (some payload) q =
    if str_eq payload "" || ours payload then wake_event_waiters q else q

-- The timer of a call that waits.
unfoldable pub on_wait_timeout : ℕ → QueueEvents → QueueEvents
on_wait_timeout waiter q =
    if elem waiter q.event_wait_resolvers
    then record q {
      event_wait_resolvers = remove waiter q.event_wait_resolvers;
      woken = q.woken ++ waiter ∷ [];
    }
    else q

unfoldable pub close : QueueEvents → QueueEvents
unfolding wake_event_waiters
close q = if q.closing then q else record (wake_event_waiters q) { closing = true }
