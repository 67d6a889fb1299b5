-- ===== src/Worker/Tests.antt =====
-- Runs of the methods of src/classes/worker.ts.
use elephantmq.Base.{
  ◌≢◌, refl, ◌≡◌, some, false, List, ℕ, ◌∷◌, [], suc, All, arith, none, true, ◌<◌, zero, ◌+◌,
}
use elephantmq.Worker.Delays.{is_rate_limited}
use elephantmq.Worker.Retry.{
  retry_if_failed-ends, Effect, RetryOptions, Flags, Try, retry_if_failed, retry_if_failed-returned,
  FailsConnection, fails, returned, unfinished, gives, delays,
}
use elephantmq.Worker.Waiting.{on_queue_marker_notify-wakes}
use elephantmq.Worker.Wakeups.{wait_for_job, Notifications, on_queue_marker_notify, answers}
use elephantmq.Worker.{WorkerOptions, Worker, at}

abbrev pub options : WorkerOptions
options = record {
  name = none;
  drain_delay = none;
  maximum_rate_limit_delay = none;
  max_started_attempts = some 2;
  run_retry_delay = none;
}

-- A worker that is idle.
abbrev pub idle : Worker
idle = record {
  id = "w";
  opts = options;
  drained = true;
  fetched_since_drain = false;
  pending_marker = false;
  waiting = false;
  paused = false;
  closing = false;
  limit_until = 0;
  block_until = at 0;
  pending_job_resolvers = [];
  next_resolver = 1;
  woken = [];
  abort_delay_controller = none;
  aborted = [];
  abort_timers = [];
  notification_subscribed = true;
  events = [];
}

abbrev parked : Worker
parked = record idle { pending_job_resolvers = 1 ∷ []; next_resolver = 2; block_until = at 900 }

abbrev connected : Notifications
connected = record { manager = true; throws = none; rows = none }

on_queue_marker_notify-wakes_example :
    let told = on_queue_marker_notify idle in
    (told.pending_job_resolvers ≡ [])
    × (told.woken ≡ [])
    × (idle.pending_job_resolvers ≡ []
        → (wait_for_job 100 connected (at 0) told).1 ≡ answers (at 0))
unfolding is_rate_limited
on_queue_marker_notify-wakes_example =
    on_queue_marker_notify-wakes 100 connected (at 0) idle refl refl refl

-- A connection that is down twice.
abbrev down_twice : ℕ → Try ℕ
down_twice zero = fails "down" true
down_twice (suc zero) = fails "down" true
down_twice (suc (suc n)) = gives 7

abbrev pub at_work : ℕ → Flags
at_work n = record { paused = false; closing = false; closed = false }

abbrev forever : RetryOptions
forever = record { delay_in_ms = 15000; max_retries = none; only_emit_error = false }

abbrev thrice : RetryOptions
thrice = record { delay_in_ms = 15000; max_retries = some 3; only_emit_error = false }

down_FailsConnection :
    (i : ℕ) → i < 2 → FailsConnection at_work down_twice forever (down_twice (0 + i))
down_FailsConnection zero h = refl
down_FailsConnection (suc zero) h = refl
down_FailsConnection (suc (suc i)) h = absurd (omega arith)

retry_if_failed-returned_example :
    (effects : List Effect) × (retry_if_failed at_work down_twice forever 3 0
      ≡ (effects, returned 7))
    × All (λ e. e ≡ delays 15000) effects
retry_if_failed-returned_example =
    retry_if_failed-returned at_work down_twice forever 2 0 7 refl down_FailsConnection refl

retry_if_failed-ends_example : (retry_if_failed at_work down_twice thrice 3 0).1 ≢ unfinished
retry_if_failed-ends_example =
    retry_if_failed-ends at_work down_twice thrice 2 3 0 refl (omega arith) (omega arith)
