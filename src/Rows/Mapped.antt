-- ===== src/Rows/Mapped.antt =====
-- The mappers of src/classes/emq-mappers.ts, and a row as flat fields.
use Prim.Native.String.{◌++◌ as ◌<>◌}
use elephantmq.Base.Maps.{get}
use elephantmq.Base.{List, Option, String, [], none, some, ℕ, ◌∷◌}
use elephantmq.Rows.{
  EmqJobRow, map_option, or_text, Runtime, or_else_value, or_value, JobJsonRaw, bind_option, truthy,
}

module _ {J : Type 0} (rt : Runtime J) where
  open rt use {stringify, parse, number, parse_int}

  unfoldable pub traces_text : Option (List String) → String
  traces_text none = "[]"
  traces_text (some []) = "[]"
  traces_text (some (t ∷ ts)) = rt.traces (t ∷ ts)

  unfoldable pub number_or_zero : Option ℕ → Option String
  number_or_zero n = some (number (or_value n 0))

  -- The parent under its queue's key, or its bare id where the row has no such key.
  unfoldable pub parent_key_of : Option String → Option String → Option String
  unfolding truthy
  parent_key_of id queue_key = elim (truthy id) [
    | none ↦ id
    | some p ↦ elim (truthy queue_key) [ none ↦ some p | some q ↦ some (q <> (":" <> p)) ]
  ]

  -- The column, and where it is null the options, under either of their two names.
  unfoldable pub deduplication_id_from_opts : Option J → Option String
  unfolding truthy get
  deduplication_id_from_opts none = none
  deduplication_id_from_opts (some opts) =
      bind_option
        (or_else_value (bind_option (get "de" (rt.entries opts)) rt.id_of)
          (bind_option (get "deduplication" (rt.entries opts)) rt.id_of))
        λ id. truthy (rt.text_of id)

  unfoldable pub row_to_job_json_raw : EmqJobRow J → JobJsonRaw
  unfolding parent_key_of truthy
  row_to_job_json_raw row = record {
    id = some row.job_id;
    name = some row.name;
    «data» = some (stringify (or_value row.«data» rt.empty_object));
    delay = number_or_zero row.delay_ms;
    opts = some (stringify (or_value row.opts rt.empty_object));
    progress = some (stringify (or_value row.progress rt.zero_value));
    priority = number_or_zero row.priority;
    timestamp = some (number row.timestamp);
    attempts_made = number_or_zero row.attempts_made;
    attempts_started = number_or_zero row.attempts_started;
    stalled_counter = number_or_zero row.stalled_counter;
    failed_reason = some (or_value row.failed_reason "");
    stacktrace = some (traces_text row.stacktrace);
    returnvalue = some (elim row.return_value [ none ↦ "null" | some v ↦ stringify v ]);
    processed_on = map_option number row.processed_on;
    finished_on = map_option number row.finished_on;
    parent =
        map_option (λ p. stringify (rt.parent_object p row.parent_queue_key))
          (truthy row.parent_job_id);
    parent_key = parent_key_of row.parent_job_id row.parent_queue_key;
    rjk = row.repeat_job_key;
    deid = or_else_value row.deduplication_id (deduplication_id_from_opts row.opts);
    pb = row.processed_by;
    defa = row.deferred_failure;
    atm = none;
    ats = none;
    stc = none;
    nrjid = none;
  }

  -- The row that a statement of the database returns as an object. It has no parent_queue_key.
  unfoldable pub json_job_row_from_db : EmqJobRow J → EmqJobRow J
  unfolding deduplication_id_from_opts
  json_job_row_from_db o =
      let opts = or_value o.opts rt.empty_object in
      record o {
        opts = some opts;
        priority = some (or_value o.priority 0);
        delay_ms = some (or_value o.delay_ms 0);
        attempts_made = some (or_value o.attempts_made 0);
        attempts_started = some (or_value o.attempts_started 0);
        stalled_counter = some (or_value o.stalled_counter 0);
        parent_queue_key = none;
        deduplication_id =
            or_else_value o.deduplication_id (deduplication_id_from_opts (some opts));
      }

  -- An optional field is pushed where it is not empty, before the others.
  unfoldable pub push_filled :
      String → Option String → List (String × String) → List (String × String)
  unfolding truthy
  push_filled k v m = elim (truthy v) [ none ↦ m | some t ↦ (k, t) ∷ m ]

  unfoldable pub optional_fields : JobJsonRaw → List (String × String)
  optional_fields raw = push_filled "processedOn" raw.processed_on (
      push_filled "finishedOn" raw.finished_on (
        push_filled "parentKey" raw.parent_key (
          push_filled "rjk" raw.rjk (
            push_filled "deid" raw.deid
              (push_filled "pb" raw.pb (push_filled "defa" raw.defa []))))))

  unfoldable pub row_to_flat_job_fields : EmqJobRow J → List (String × String)
  unfolding row_to_job_json_raw push_filled truthy
  row_to_flat_job_fields row =
      let raw = row_to_job_json_raw row in
      ("id", or_value raw.id "")
      ∷ ("name", or_value raw.name "")
      ∷ ("data", or_value raw.«data» "")
      ∷ ("opts", or_value raw.opts "")
      ∷ ("delay", or_value raw.delay "")
      ∷ ("progress", or_value raw.progress "")
      ∷ ("priority", or_value raw.priority "")
      ∷ ("timestamp", or_value raw.timestamp "")
      ∷ ("attemptsMade", or_text raw.attempts_made "0")
      ∷ ("atm", or_text raw.attempts_made "0")
      ∷ ("ats", or_text raw.attempts_started "0")
      ∷ ("stc", or_text raw.stalled_counter "0")
      ∷ ("failedReason", or_text raw.failed_reason "")
      ∷ ("stacktrace", or_text raw.stacktrace "[]")
      ∷ ("returnvalue", or_text raw.returnvalue "")
      ∷ optional_fields raw
