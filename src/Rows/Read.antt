-- ===== src/Rows/Read.antt =====
-- A job read of its texts: `fromJSON` of src/classes/job.ts, job/job-json-parse.ts, and array2obj of
-- src/utils/index.ts.
use elephantmq.Base.Maps.{get}
use elephantmq.Base.{List, Option, String, [], none, some, ℕ}
use elephantmq.Options.{Objects, opts_from_json}
use elephantmq.Rows.{
  JobFields, map_option, or_text, Runtime, or_else_value, or_value, JobJsonRaw, bind_option, truthy,
}

module _ {J : Type 0} (rt : Runtime J) where
  open rt use {stringify, parse, number, parse_int}

  -- The flat fields as an object; their keys are distinct.
  unfoldable pub of_flat : List (String × String) → JobJsonRaw
  unfolding get
  of_flat m = record {
    id = get "id" m;
    name = get "name" m;
    «data» = get "data" m;
    delay = get "delay" m;
    opts = get "opts" m;
    progress = get "progress" m;
    priority = get "priority" m;
    timestamp = get "timestamp" m;
    attempts_made = get "attemptsMade" m;
    attempts_started = get "attemptsStarted" m;
    stalled_counter = get "stalledCounter" m;
    failed_reason = get "failedReason" m;
    stacktrace = get "stacktrace" m;
    returnvalue = get "returnvalue" m;
    processed_on = get "processedOn" m;
    finished_on = get "finishedOn" m;
    parent = get "parent" m;
    parent_key = get "parentKey" m;
    rjk = get "rjk" m;
    deid = get "deid" m;
    pb = get "pb" m;
    defa = get "defa" m;
    atm = get "atm" m;
    ats = get "ats" m;
    stc = get "stc" m;
    nrjid = get "nrjid" m;
  }

  -- A number that is read where its text is not empty, and otherwise is that of the job at hand.
  unfoldable pub read_or : Option String → Option ℕ → Option ℕ
  unfolding truthy
  read_or text own = elim (truthy text) [ none ↦ own | some t ↦ parse_int t ]

  unfoldable pub count_of : Option String → Option String → Option ℕ
  unfolding truthy
  count_of one other = parse_int (or_value (truthy one) (or_value (truthy other) "0"))

  unfoldable pub read_parent : Option String → Option J → Option (Option J)
  unfolding truthy map_option
  read_parent text own = elim (truthy text) [ none ↦ some own | some t ↦ map_option some (parse t) ]

  unfoldable pub get_traces_from_json : Option String → List String
  unfolding truthy
  get_traces_from_json text =
      or_value (bind_option (bind_option (truthy text) parse) rt.texts_of) []

  -- The fields that are set on a job as its constructor makes it of its name, data, options and id.
  unfoldable pub from_json :
      Objects J
      → (Option String → J → J → Option String → JobFields J)
      → JobJsonRaw
      → Option String
      → Option (JobFields J)
  unfolding truthy map_option
  from_json tel construct json job_id = bind_option (parse (or_text json.«data» "{}")) λ payload.
      bind_option (opts_from_json tel (λ t. map_option rt.entries (parse t)) json.opts) λ opts.
        bind_option (parse (or_text json.progress "0")) λ progress.
          let job =
            construct json.name payload (rt.object opts) (or_else_value (truthy json.id) job_id) in
          bind_option (read_parent json.parent job.parent) λ parent. some (record job {
            progress = progress;
            delay = bind_option json.delay parse_int;
            priority = bind_option json.priority parse_int;
            timestamp = bind_option json.timestamp parse_int;
            finished_on = read_or json.finished_on job.finished_on;
            processed_on = read_or json.processed_on job.processed_on;
            repeat_job_key = or_else_value (truthy json.rjk) job.repeat_job_key;
            debounce_id = or_else_value (truthy json.deid) job.debounce_id;
            deduplication_id = or_else_value (truthy json.deid) job.deduplication_id;
            failed_reason = or_else_value (truthy json.failed_reason) job.failed_reason;
            attempts_started = count_of json.attempts_started json.ats;
            attempts_made = count_of json.attempts_made json.atm;
            stalled_counter = count_of json.stalled_counter json.stc;
            deferred_failure = or_else_value (truthy json.defa) job.deferred_failure;
            stacktrace = get_traces_from_json json.stacktrace;
            returnvalue = elim json.returnvalue [ none ↦ job.returnvalue | some t ↦ parse t ];
            parent_key = or_else_value (truthy json.parent_key) job.parent_key;
            parent = parent;
            processed_by = or_else_value (truthy json.pb) job.processed_by;
            next_repeatable_job_id = or_else_value (truthy json.nrjid) job.next_repeatable_job_id;
          })
