-- ===== src/Worker/Fetch.antt =====
-- How a worker fetches a job (src/classes/worker.ts): `_getNextJob` around its wait, `moveToActive`
-- and `nextJobFromJobData`. The database, the reading of a row as a job, and the scheduler's tries
-- are parameters.
use elephantmq.Base.{
  ok, if◌then◌else◌, ℕ, String, not, Bool, ◌∷◌, List, Option, leb, false, true, Result, ◌||◌, some,
  ◌==◌, [], none, ◌&&◌, ◌>>=◌,
}
use elephantmq.Job.{Job}
use elephantmq.Locks.{track_job, LockManager}
use elephantmq.Worker.Retry.{Ended, retry_if_failed, Flags, Try, Effect, emits, thrown, delays}
use elephantmq.Worker.Wakeups.{wait_for_job, Notifications, Wait}
use elephantmq.Worker.Delays.{or_default, is_rate_limited, update_delays}
use elephantmq.Worker.{Moment, scheduling_error, Worker, emit, at, error, drained, active, infinity}
use elephantmq.Scripts.Lifecycle.{Call, NextJob, Reply, move_to_active}
use elephantmq.Scripts.Keep.{or_else, QueueContext}
use elephantmq.Scripts.Errors.{ScriptError}

-- A job as the worker holds it, and what it reads of it beside the job's own fields.
pub record WorkJob : Type 0 where
  pub job : Job
  pub name : String
  pub token : Option String
  pub processed_by : Option String
  pub deferred_failure : Option String
  pub repeats : Bool

-- The worker with its lock manager.
pub record Host : Type 0 where
  pub worker : Worker
  pub locks : LockManager

-- `schedule` gives the tries of the call that schedules a repeated job's next iteration, and `fuel`
-- bounds their number.
pub record Surroundings (Row : Type 0) : Type 0 where
  pub queue : QueueContext
  pub db : Call → Option (Reply Row)
  pub create : Row → Option String → WorkJob
  pub schedule : WorkJob → ℕ → Try (Unit {0})
  pub flags : ℕ → Flags
  pub fuel : ℕ
  pub accepts_signal : Bool

abbrev pub apply_effects : List Effect → Worker → Worker
apply_effects [] w = w
apply_effects (emits message ∷ rest) w = apply_effects rest (emit (error message) w)
apply_effects (delays n ∷ rest) w = apply_effects rest w

-- The worker emits that it is drained when it was not.
unfoldable pub drain : Worker → Worker
drain w =
    if w.drained then w else emit drained (record w { drained = true; fetched_since_drain = false })

-- What `moveToActive` does before: it latches the marker once if jobs were fetched since.
unfoldable pub drain_active : Worker → Worker
drain_active w =
    if w.drained
    then w
    else emit drained (record w {
      drained = true;
      pending_marker = w.pending_marker || w.fetched_since_drain;
      fetched_since_drain = false;
    })

-- The name that the worker goes by.
abbrev pub named_by : Worker → WorkJob → WorkJob
named_by w j = elim w.opts.name [
  | none ↦ j
  | some name ↦ record j { processed_by = some (or_else j.processed_by name) }
]

module _ {Row : Type 0} (env : Surroundings Row) where
  abbrev pub scheduled : WorkJob → Ended (Unit {0}) → Worker → Worker
  scheduled j (thrown message) w = emit (scheduling_error j.name message) w
  scheduled j _ w = w

  -- A failure to schedule the next iteration is emitted, and the job is handed on all the same.
  unfoldable pub schedule_next : ℕ → WorkJob → Worker → Worker
  unfolding retry_if_failed
  schedule_next delay j w =
      if j.repeats
      then (let (effects, end) =
            retry_if_failed env.flags (env.schedule j)
              (record { delay_in_ms = delay; max_retries = none; only_emit_error = false }) env.fuel
              0 in
          scheduled j end (apply_effects effects w))
      else w

  unfoldable pub next_job_from_job_data :
      Option Row → Option String → String → Worker → Worker × Option WorkJob
  unfolding drain schedule_next
  next_job_from_job_data none id token w = (drain w, none)
  next_job_from_job_data (some row) id token w =
      let fetched = record w { drained = false; fetched_since_drain = true } in
      let j = named_by w (record (env.create row id) { token = some token }) in
      (schedule_next (or_default w.opts.run_retry_delay 15000) j fetched, some j)

  abbrev pub latched : Option Row → Worker → Worker
  latched none w = drain_active w
  latched (some row) w = w

  -- `moveToActive`, from the answer of the script on.
  unfoldable pub moved_to_active : ℕ → NextJob Row → String → Worker → Worker × Option WorkJob
  unfolding drain_active next_job_from_job_data update_delays
  moved_to_active now next token w =
      next_job_from_job_data next.job_data next.id token
        (latched next.job_data (update_delays now next.rate_limit_delay next.delay_until w))

  unfoldable pub move_to_active_now :
      ℕ → String → Worker → Result ScriptError (Worker × Option WorkJob)
  unfolding moved_to_active
  move_to_active_now now token w =
      let s = move_to_active {Row = Row} env.queue token (some (or_else w.opts.name w.id)) now in
      s.read (env.db s.call) >>= λ next. ok (moved_to_active now next token w)

  -- The job is tracked before its event is emitted.
  unfoldable pub hand_out : String → LockManager → Worker × Option WorkJob → Host × Option WorkJob
  hand_out token locks (w, none) = (record { worker = w; locks = locks }, none)
  hand_out token locks (w, some j) = (
    record {
      worker = emit (active j.job.id) w;
      locks = (track_job locks j.job.id token (or_else j.job.processed_on 0) env.accepts_signal).0;
    },
    some j,
  )

  -- The next job is asked for.
  unfoldable pub fetch_job : ℕ → String → Host → Result ScriptError (Host × Option WorkJob)
  unfolding move_to_active_now hand_out
  fetch_job now token h =
      move_to_active_now now token h.worker >>= λ r. ok (hand_out token h.locks r)

-- How `_getNextJob` begins: it gives nothing, it waits, or it asks at once.
pub data Start : Type 0 where
  nothing : Start
  waits : Wait → Start
  asks_now : Start

unfoldable pub start_next_job : ℕ → Notifications → Bool → Worker → Worker × Start
unfolding wait_for_job is_rate_limited
start_next_job now db block w =
    if w.paused || w.closing
    then (w, nothing)
    else if w.drained && block && w.limit_until == 0 && not w.waiting
    then (let (waiting, wait) = wait_for_job now db w.block_until w in
        (record waiting { waiting = true }, waits wait))
    else if is_rate_limited now w
    then (w, nothing)
    else (w, asks_now)

-- After the wait: whether the job is asked for.
unfoldable pub after_wait : ℕ → Moment → Worker → Worker × Bool
after_wait now v w = (record w { block_until = v }, is_due v)
  where
    is_due : Moment → Bool
    is_due infinity = false
    is_due (at t) = t == 0 || leb t now

-- The end of the wait, whether or not it threw.
abbrev pub waited : Worker → Worker
waited w = record w { waiting = false }
