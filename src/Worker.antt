-- ===== src/Worker.antt =====
-- The state of the class Worker (src/classes/worker.ts). Times and timeouts are milliseconds; a
-- resolver, a controller and a job's abort controller are numbers. Telemetry is left out.
pub mod Delays
pub mod Wakeups
pub mod Retry
pub mod Fetch
pub mod Process
pub mod Loop
pub mod Waiting
pub mod Outcomes
pub mod Tests
pub mod Runs
use elephantmq.Base.{ℕ, Bool, List, Option, String, ◌++◌, ◌∷◌, []}

-- A number of milliseconds, or Infinity.
pub data Moment : Type 0 where
  at : ℕ → Moment
  infinity : Moment

-- The options that the modelled methods read.
pub record WorkerOptions : Type 0 where
  pub name : Option String
  pub drain_delay : Option ℕ
  pub maximum_rate_limit_delay : Option ℕ
  pub max_started_attempts : Option ℕ
  pub run_retry_delay : Option ℕ

pub data Event : Type 0 where
  error : String → Event
  scheduling_error : String → String → Event
  drained : Event
  active : String → Event
  completed : String → Event
  failed : String → Event
  paused : Event
  resumed : Event
  closing : Event
  closed : Event
  stalled : String → Event

-- `woken` holds the values that waiting calls were resolved with, and `aborted` and `abort_timers`
-- the controllers of a sleep that were aborted, and that will be at a time.
pub record Worker : Type 0 where
  pub id : String
  pub opts : WorkerOptions
  pub drained : Bool
  pub fetched_since_drain : Bool
  pub pending_marker : Bool
  pub waiting : Bool
  pub paused : Bool
  pub closing : Bool
  pub limit_until : ℕ
  pub block_until : Moment
  pub pending_job_resolvers : List ℕ
  pub next_resolver : ℕ
  pub woken : List (ℕ × Moment)
  pub abort_delay_controller : Option ℕ
  pub aborted : List ℕ
  pub abort_timers : List (ℕ × ℕ)
  pub notification_subscribed : Bool
  pub events : List Event

abbrev pub emit : Event → Worker → Worker
emit e w = record w { events = w.events ++ e ∷ [] }
