-- ===== src/Scripts/Keep.antt =====
-- src/classes/scripts/lifecycle.ts: what is kept of the finished jobs, and the arguments of
-- `moveToFinished`. A stack trace goes through JSON and back unchanged, and stands here as a list.
use mathlib.Core.Option
use elephantmq.Base.{Option, none, Bool, ℕ, String, List, some, ◌&&◌, not, ◌*◌, true, false}
use elephantmq.Base.Int.{ℤ, pos, negsuc}

pub record KeepJobs : Type 0 where
  pub count : Option ℤ
  pub age : Option ℕ

-- `boolean | number | KeepJobs`
pub data Removal : Type 0 where
  flag : Bool → Removal
  at_most : ℤ → Removal
  policy : KeepJobs → Removal

pub record Limiter : Type 0 where
  pub max : ℕ
  pub duration : ℕ

-- The options of the worker that the scripts read, with `closing` of the queue.
pub record QueueContext : Type 0 where
  pub lock_duration : Option ℕ
  pub limiter : Option Limiter
  pub remove_on_complete : Option KeepJobs
  pub remove_on_fail : Option KeepJobs
  pub max_data_points : Option ℕ
  pub name : Option String
  pub max_stalled_count : Option ℕ
  pub closing : Bool

pub data FinishedStatus : Type 0 where
  completed failed : FinishedStatus

pub record FailureFields : Type 0 where
  pub failed_reason : Option String
  pub stacktrace : Option (List String)

pub record FinishedParams : Type 0 where
  pub job_id : String
  pub timestamp : ℕ
  pub token : String
  pub target : FinishedStatus
  pub val : Option String
  pub fetch_next : Bool
  pub lock_duration_ms : ℕ
  pub keep_jobs_count : Option ℤ
  pub keep_jobs_age_ms : Option ℕ
  pub failed_reason : Option String
  pub stacktrace : Option (List String)
  pub max_metrics_size : Option ℕ

-- `a ?? b`
abbrev pub or_else {ℓ} : {A : Type ℓ} → Option A → A → A
or_else none b = b
or_else (some a) b = a

abbrev counted : ℤ → KeepJobs
counted n = record { count = some n; age = none }

abbrev of_flag : Bool → KeepJobs
of_flag true = counted (pos 0)
of_flag false = counted (negsuc 0)

pub get_keep_jobs : Option Removal → Option KeepJobs → KeepJobs
get_keep_jobs none worker = or_else worker (counted (negsuc 0))
get_keep_jobs (some (policy k)) worker = k
get_keep_jobs (some (at_most n)) worker = counted n
get_keep_jobs (some (flag b)) worker = of_flag b

-- A negative count means no limit.
pub count_limit : Option ℤ → Option ℤ
count_limit none = none
count_limit (some (pos n)) = some (pos n)
count_limit (some (negsuc n)) = none

abbrev pub worker_keep : QueueContext → FinishedStatus → Option KeepJobs
worker_keep q completed = q.remove_on_complete
worker_keep q failed = q.remove_on_fail

pub build_params :
    QueueContext
    → String
    → Option String
    → Option Removal
    → FinishedStatus
    → String
    → ℕ
    → Bool
    → FailureFields
    → FinishedParams
unfolding get_keep_jobs count_limit
build_params q job_id val should_remove target token timestamp fetch_next fields =
    let k = get_keep_jobs should_remove (worker_keep q target) in
    record {
      job_id = job_id;
      timestamp = timestamp;
      token = token;
      target = target;
      val = val;
      fetch_next = fetch_next && not q.closing;
      lock_duration_ms = or_else q.lock_duration 30000;
      keep_jobs_count = count_limit k.count;
      keep_jobs_age_ms = Option.map (λ a. a * 1000) k.age;
      failed_reason = fields.failed_reason;
      stacktrace = fields.stacktrace;
      max_metrics_size = q.max_data_points;
    }

abbrev no_fields : FailureFields
no_fields = record { failed_reason = none; stacktrace = none }

pub move_to_completed_args :
    QueueContext → String → Option String → Removal → String → Bool → ℕ → FinishedParams
unfolding build_params
move_to_completed_args q job_id val remove_on_complete token fetch_next now =
    build_params q job_id val (some remove_on_complete) completed token now fetch_next no_fields

pub move_to_failed_args :
    QueueContext → String → String → Removal → String → Bool → FailureFields → ℕ → FinishedParams
unfolding build_params
move_to_failed_args q job_id failed_reason remove_on_failed token fetch_next fields now =
    build_params q job_id (some failed_reason) (some remove_on_failed) failed token now fetch_next
      fields
