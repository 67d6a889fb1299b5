-- ===== src/Worker/Process.antt =====
-- How a worker processes a job (src/classes/worker.ts): `processJob`, `handleCompleted` and
-- `handleFailed`. What the processor gives is a parameter; a handler's call is taken not to fail
-- because of the connection (the tries of one that does are in Worker/Retry).
use elephantmq.Base.{
  ltb, ok, String, ◌||◌, str_eq, some, Option, err, none, true, if◌then◌else◌, ◌+◌, false, not,
  Result, ◌&&◌, Bool, ℕ,
}
use elephantmq.Base.Int.{ℤ}
use elephantmq.Job.{
  Outcome, Job, move_to_wait, Failure, OpError, move_to_failed, move_to_completed, run, script,
}
use elephantmq.Worker.Delays.{update_delays, clamp}
use elephantmq.Backoffs.{Strategy, Fraction}
use elephantmq.Worker.Fetch.{
  next_job_from_job_data, Surroundings, Host, move_to_active_now, WorkJob,
}
use elephantmq.Scripts.Lifecycle.{NextJob}
use elephantmq.Locks.{get_abort_controller, LockManager, untrack_job, track_job}
use elephantmq.Scripts.Keep.{or_else}
use elephantmq.Worker.{Event, Worker, emit, error}
use elephantmq.Scripts.Errors.{ScriptError}

-- What is thrown: the failure, and whether its class is DelayedError, WaitingError or
-- WaitingChildrenError.
pub record Thrown : Type 0 where
  pub failure : Failure
  pub is_control : Bool

-- The values at hand when a job is processed. `describe` is the error as it is thrown.
pub record Processing (Row : Type 0) : Type 0 where
  pub env : Surroundings Row
  pub now : ℕ
  pub token : String
  pub random : Fraction
  pub custom : Option (Strategy Failure Job)
  pub describe : OpError → Thrown
  pub fetch_next : Bool

abbrev pub unrecoverable_error : String → Thrown
unrecoverable_error message = record {
  failure = record { message = some message; stack = none; unrecoverable = true };
  is_control = false;
}

-- An empty text is falsy, and so is a limit of 0.
unfoldable pub get_unrecoverable_error_message : Worker → WorkJob → Option String
get_unrecoverable_error_message w j =
    if not (str_eq (or_else j.deferred_failure "") "")
    then j.deferred_failure
    else if ltb 0 (or_else w.opts.max_started_attempts 0)
        && ltb (or_else w.opts.max_started_attempts 0) j.job.attempts_started
    then some "job started more than allowable limit"
    else none

module _ {Row : Type 0} (p : Processing Row) where
  open p use {env, now, token, describe}

  abbrev wants_next : Worker → Bool
  wants_next w = p.fetch_next && not (w.closing || w.paused)

  -- The delays and the job of an answer.
  abbrev next_from : NextJob Row → Worker → Worker × Option WorkJob
  next_from next w =
      next_job_from_job_data env next.job_data next.id token
        (update_delays now next.rate_limit_delay next.delay_until w)

  -- The answer is read before the event is emitted.
  abbrev completed_with :
      WorkJob
      → Worker
      → Job × Outcome (NextJob Row)
      → WorkJob × Result OpError (Worker × Option WorkJob)
  completed_with j w (job, err e) = (record j { job = job }, err e)
  completed_with j w (job, ok next) =
      let (after, more) = next_from next w in
      (record j { job = job }, ok (emit (Event.completed j.job.id) after, more))

  unfoldable pub handle_completed :
      Option (Option String) → WorkJob → Worker → WorkJob × Result OpError (Worker × Option WorkJob)
  handle_completed result j w =
      completed_with j w
        (run env.db (move_to_completed env.queue now j.job result token (wants_next w)))

  abbrev limited_with :
      WorkJob → Worker → Job × Outcome ℤ → WorkJob × Result OpError (Worker × Option WorkJob)
  limited_with j w (job, err e) = (record j { job = job }, err e)
  limited_with j w (job, ok ttl) = (
    record j { job = job },
    ok (record w { limit_until = if ltb 0 (clamp ttl) then now + clamp ttl else 0 }, none),
  )

  -- The event is emitted before the answer is read.
  abbrev failed_with :
      WorkJob
      → Worker
      → Job × Outcome (Option (NextJob Row))
      → WorkJob × Result OpError (Worker × Option WorkJob)
  failed_with j w (job, err e) = (record j { job = job }, err e)
  failed_with j w (job, ok none) =
      (record j { job = job }, ok (emit (Event.failed j.job.id) w, none))
  failed_with j w (job, ok (some next)) =
      (record j { job = job }, ok (next_from next (emit (Event.failed j.job.id) w)))

  abbrev of_script : {A : Type 0} → Result ScriptError A → Result OpError A
  of_script (ok a) = ok a
  of_script (err e) = err (script e)

  abbrev is_rate_limit : Failure → Bool
  is_rate_limit e = str_eq (or_else e.message "") "bullmq:rateLimitExceeded"

  unfoldable pub handle_failed :
      Thrown → WorkJob → Worker → WorkJob × Result OpError (Worker × Option WorkJob)
  handle_failed e j w =
      if is_rate_limit e.failure
      then limited_with j w (run env.db (move_to_wait {Row = Row} j.job (some token)))
      else if e.is_control
      then (j, of_script (move_to_active_now env now token w))
      else failed_with j w (
          run env.db
            (move_to_failed env.queue now p.random p.custom j.job e.failure token (wants_next w)))

  -- An error of a handler is emitted unless the worker is paused or closing.
  abbrev report : OpError → Worker → Worker
  report x w =
      if w.paused || w.closing then w else emit (error (or_else (describe x).failure.message "")) w

  -- What a handler that threw leaves: its error is thrown on.
  abbrev or_thrown :
      Worker
      → WorkJob × Result OpError (Worker × Option WorkJob)
      → Worker × Result OpError (Option WorkJob)
  or_thrown w (j, err x) = (report x w, err x)
  or_thrown w (j, ok (after, more)) = (after, ok more)

  -- The handler of what the processor, or the completion, threw.
  unfoldable pub fail_job : Thrown → WorkJob → Worker → Worker × Result OpError (Option WorkJob)
  unfolding handle_failed
  fail_job e j w = or_thrown w (handle_failed e j w)

  -- A completion that throws is handled as a failure of the job.
  abbrev or_failed :
      Worker
      → WorkJob × Result OpError (Worker × Option WorkJob)
      → Worker × Result OpError (Option WorkJob)
  or_failed w (j, err x) = fail_job (describe x) j (report x w)
  or_failed w (j, ok (after, more)) = (after, ok more)

  -- A deferred failure, or too many starts, are handled as a failure, and so is the error of that
  -- handler once more.
  unfoldable pub attempt :
      (WorkJob → Result Thrown (Option (Option String)))
      → WorkJob
      → Worker
      → Worker × Result OpError (Option WorkJob)
  unfolding get_unrecoverable_error_message handle_completed handle_failed fail_job
  attempt processor j w = elim (get_unrecoverable_error_message w j) [
    | some message ↦ or_failed w (handle_failed (unrecoverable_error message) j w)
    | none ↦ elim (processor j) [
      | err thrown ↦ fail_job thrown j w
      | ok result ↦ or_failed w (handle_completed result j w)
    ]
  ]

  abbrev pub or_tracked : WorkJob → LockManager → Option ℕ → LockManager
  or_tracked j locks (some c) = locks
  or_tracked j locks none =
      (track_job locks j.job.id token (or_else j.job.processed_on now) env.accepts_signal).0

  -- A job that has no controller is tracked (again).
  abbrev pub tracked_for : WorkJob → LockManager → LockManager
  tracked_for j locks = or_tracked j locks (get_abort_controller locks j.job.id)

  -- `meanwhile` is what others do to the lock manager while the job is processed.
  unfoldable pub process_job :
      (WorkJob → Result Thrown (Option (Option String)))
      → (LockManager → LockManager)
      → WorkJob
      → Host
      → Host × Result OpError (Option WorkJob)
  unfolding attempt
  process_job processor meanwhile j h =
      let (after, outcome) = attempt processor j h.worker in
      let locks = meanwhile (tracked_for j h.locks) in
      (record { worker = after; locks = untrack_job locks j.job.id }, outcome)
