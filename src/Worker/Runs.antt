-- ===== src/Worker/Runs.antt =====
-- Runs of the processing and of the main loop of src/classes/worker.ts.
use elephantmq.Base.{
  Option, err, Result, some, ℕ, String, ◌≡◌, ◌≤◌, [], true, false, refl, ◌+◌, none, ◌⊎◌, ◌<◌,
}
use elephantmq.Base.Int.{pos}
use elephantmq.Job.Tests.{job, queue, accepting, half, failure}
use elephantmq.Worker.Loop.{
  fetch_next_callback, Reach, then_step, Reach-bounded, Loop, can_fetch, started, begins, fetches,
  set_concurrency, sets_concurrency,
}
use elephantmq.Worker.Fetch.{Surroundings, WorkJob, Host}
use elephantmq.Fifo.Contract.{FifoList}
use elephantmq.Worker.Process.{Processing, Thrown}
use elephantmq.Scripts.Lifecycle.{NextJob}
use elephantmq.Locks.{LockManager}
use elephantmq.Worker.Tests.{at_work, idle}
use elephantmq.Fifo.Linked.{empty}
use elephantmq.Fifo.Linked.Filled.{linked_fifo}
use elephantmq.Fifo.Async.{num_total, add}
use elephantmq.Worker.Retry.{gives}

abbrev work_job : WorkJob
work_job = record {
  job = job;
  name = "mail";
  token = some "w:0";
  processed_by = none;
  deferred_failure = none;
  repeats = false;
}

abbrev surroundings : Surroundings ℕ
surroundings = record {
  queue = queue;
  db = accepting;
  create = λ row id. work_job;
  schedule = λ j n. gives tt;
  flags = at_work;
  fuel = 1;
  accepts_signal = true;
}

abbrev processing : Processing ℕ
processing = record {
  env = surroundings;
  now = 500;
  token = "w:0";
  random = half;
  custom = none;
  describe = λ x. record { failure = failure; is_control = false };
  fetch_next = true;
}

abbrev no_locks : LockManager
no_locks = record {
  opts = record { lock_renew_time = 15000; lock_duration = 30000 };
  tracked_jobs = [];
  closed = false;
  timer = true;
  next_controller = 1;
  events = [];
}

abbrev host : Host
host = record { worker = idle; locks = no_locks }

-- A processor that throws.
abbrev throwing : WorkJob → Result Thrown (Option (Option String))
throwing j = err (record { failure = failure; is_control = false })

abbrev no_job : NextJob ℕ
no_job = record { job_data = none; id = none; rate_limit_delay = pos 0; delay_until = pos 0 }

abbrev one_job : NextJob ℕ
one_job = record no_job { job_data = some 3; id = some "1" }

abbrev linked : FifoList (Option (Option ℕ))
linked = linked_fifo (Option (Option ℕ))

abbrev one_fetch : Loop linked
one_fetch = record (started linked 1) {
  queue = add linked 1 (started linked 1).queue;
  token_postfix = 0 + 1;
}

one_fetch-Reach : Reach linked 1 one_fetch
unfolding can_fetch linked_fifo empty
one_fetch-Reach = then_step (begins 1) (fetches (started linked 1) 1 refl)

-- The concurrency is set to 2 behind the fetch.
abbrev raised : Loop linked
raised = record one_fetch { concurrency = 2 }

raised-Reach : Reach linked 2 raised
unfolding set_concurrency
raised-Reach = then_step one_fetch-Reach (sets_concurrency one_fetch raised 2 refl)

Reach-bounded_example :
    (num_total linked raised.queue ≤ 2)
    × ((raised.concurrency < 2) ⊎ (fetch_next_callback linked raised ≡ true))
Reach-bounded_example = Reach-bounded linked raised-Reach
