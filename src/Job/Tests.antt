-- ===== src/Job/Tests.antt =====
-- Runs of shouldRetryJob of src/classes/job.ts.
use elephantmq.Base.{
  ℕ, refl, ◌≡◌, ◌↔◌, ◌≢◌, ◌+◌, ◌<◌, some, none, ok, true, false, [], ◌∷◌, Option, String,
}
use elephantmq.Base.Int.{pos, negsuc}
use elephantmq.Scripts.Keep.{QueueContext}
use elephantmq.Backoffs.{Fraction, BackoffOptions, number, undefined, calculate, Value, fixed}
use elephantmq.Job.{Job, Failure, should_retry_job, move_to_completed, run}
use elephantmq.Job.Retries.{should_retry_job_iff, failures_all, failures}
use elephantmq.Scripts.Lifecycle.{Reply, Call}
use elephantmq.Job.Atomic.{move_to_completed-Refused, Refused}

abbrev pub half : Fraction
half = record { num = 1; den = 2 }

abbrev backoff : BackoffOptions
backoff = record { kind = "fixed"; delay = some 1000; jitter = none }

abbrev pub job : Job
job = record {
  id = "1";
  opts = record {
    attempts = 3;
    backoff = some backoff;
    lifo = none;
    remove_on_complete = none;
    remove_on_fail = none;
    stack_trace_limit = none;
  };
  attempts_made = 0;
  attempts_started = 1;
  delay = pos 0;
  priority = 0;
  failed_reason = none;
  stacktrace = none;
  finished_on = none;
  processed_on = none;
  returnvalue = none;
}

abbrev pub failure : Failure
failure = record { message = some "boom"; stack = none; unrecoverable = false }

should_retry_job_iff_example :
    (should_retry_job half none job failure ≡ ok (true, number (pos 1000))) ↔ (
      (job.attempts_made + 1 < job.opts.attempts)
      × (failure.unrecoverable ≡ false)
      × (calculate half job.opts.backoff (job.attempts_made + 1) failure job none
          ≡ ok (number (pos 1000)))
      × (number (pos 1000) ≢ undefined)
      × (number (pos 1000) ≢ number (negsuc 0)))
should_retry_job_iff_example = should_retry_job_iff half none job failure (number (pos 1000))

abbrev pub queue : QueueContext
queue = record {
  lock_duration = some 30000;
  limiter = none;
  remove_on_complete = none;
  remove_on_fail = none;
  max_data_points = none;
  name = none;
  max_stalled_count = none;
  closing = false;
}

-- Three attempts, and no backoff.
abbrev plain_job : Job
plain_job = record job { opts = record job.opts { backoff = none } }

-- A database that answers every call with 0, and one that answers with -2.
abbrev pub accepting : Call → Option (Reply ℕ)
accepting c = some (record {
  code = some (pos 0);
  flag = some true;
  job_row = none;
  job_id = none;
  rate_limit_delay = none;
  block_until = none;
  ids = none;
  failed_ids = none;
})

abbrev refusing : Call → Option (Reply ℕ)
refusing c = some (record {
  code = some (negsuc 1);
  flag = some false;
  job_row = none;
  job_id = none;
  rate_limit_delay = none;
  block_until = none;
  ids = none;
  failed_ids = none;
})

backoff_gives :
    (j : Job)
    → j.opts ≡ job.opts
    → (v : Value) × (calculate half j.opts.backoff (j.attempts_made + 1) failure j none ≡ ok v)
      × (v ≢ undefined)
      × (v ≢ number (negsuc 0))
unfolding calculate fixed
backoff_gives j o = (number (pos 1000), rw o refl, λ e. cc, λ e. cc)

failures_all_example :
    failures ℕ queue 5 half none failure "token" false accepting (λ c. refl) 3 job
    ≡ false ∷ false ∷ true ∷ []
failures_all_example =
    failures_all ℕ queue 5 half none failure "token" false accepting (λ c. refl) job.opts
      backoff_gives refl 2 job refl refl

abbrev result : String
result = "7"

move_to_completed-Refused_example :
    Refused queue 5 refusing 1
      (λ c. refl)
      job
      "token"
      false
      (run refusing (move_to_completed {Row = ℕ} queue 5 job (some (some result)) "token" false))
move_to_completed-Refused_example =
    move_to_completed-Refused queue 5 refusing 1 (λ c. refl) job "token" false (some result)
