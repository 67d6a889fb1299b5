-- ===== src/Locks.antt =====
-- src/classes/lock-manager.ts: the jobs whose locks a worker renews. The map keeps the order in
-- which its keys were added, as a JavaScript Map does; a controller is its number.
pub mod Renewal
pub mod Actions
pub mod Timer
pub mod Tests
use elephantmq.Base.{
  ℕ, map, ◌*◌, not, String, Bool, str_eq, true, ◌==◌, filter_by, ◌||◌, Option, if◌then◌else◌, ◌+◌,
  false, ltb, length, none, ◌∷◌, some, ◌++◌, [], List, ◌&&◌,
}
use elephantmq.Base.Maps.{get, set, delete, keys}

pub record Tracked : Type 0 where
  pub token : String
  pub ts : ℕ
  pub controller : Option ℕ

pub record LockManagerOptions : Type 0 where
  pub lock_renew_time : ℕ
  pub lock_duration : ℕ

-- What the manager tells the worker and the signals, oldest first.
pub data Event : Type 0 where
  lock_renewal_failed : List String → Event
  renewal_error : String → Event
  locks_renewed : ℕ → List String → Event
  call_error : Event
  aborted : ℕ → Event

pub record LockManager : Type 0 where
  pub opts : LockManagerOptions
  pub tracked_jobs : List (String × Tracked)
  pub closed : Bool
  pub timer : Bool
  pub next_controller : ℕ
  pub events : List Event

unfoldable pub start : LockManager → LockManager
start m =
    if m.closed then m else if ltb 0 m.opts.lock_renew_time then record m { timer = true } else m

unfoldable pub close : LockManager → LockManager
close m = if m.closed then m else record m { closed = true; timer = false; tracked_jobs = [] }

-- An id that is empty is falsy. The controller is made, and returned, also when nothing is tracked.
unfoldable pub track_job : LockManager → String → String → ℕ → Bool → LockManager × Option ℕ
track_job m job_id token ts should_create = (
  if m.closed || str_eq job_id "" then counted else record counted {
    tracked_jobs = set job_id (record { token = token; ts = ts; controller = made }) m.tracked_jobs;
  },
  made,
)
  where
    made : Option ℕ
    made = if should_create then some m.next_controller else none

    counted : LockManager
    counted = if should_create then record m { next_controller = m.next_controller + 1 } else m

unfoldable pub untrack_job : LockManager → String → LockManager
untrack_job m job_id = record m { tracked_jobs = delete job_id m.tracked_jobs }

unfoldable pub get_abort_controller : LockManager → String → Option ℕ
get_abort_controller m job_id = elim (get job_id m.tracked_jobs) [
  | none ↦ none
  | some t ↦ t.controller
]

unfoldable pub get_active_job_count : LockManager → ℕ
get_active_job_count m = length m.tracked_jobs

-- The timer's handle stays set until the manager is closed.
unfoldable pub is_running : LockManager → Bool
is_running m = not m.closed && m.timer

unfoldable pub get_tracked_job_ids : LockManager → List String
get_tracked_job_ids m = keys m.tracked_jobs

-- Emits one event.
abbrev pub emit : Event → LockManager → LockManager
emit e m = record m { events = m.events ++ e ∷ [] }

unfoldable pub cancel_job : LockManager → String → LockManager × Bool
cancel_job m job_id = elim (get job_id m.tracked_jobs) [
  | none ↦ (m, false)
  | some t ↦ elim t.controller [ none ↦ (m, false) | some c ↦ (emit (aborted c) m, true) ]
]

pub cancel_all : List (String × Tracked) → LockManager → LockManager
cancel_all [] m = m
cancel_all ((_, t) ∷ rest) m = elim t.controller [
  | none ↦ cancel_all rest m
  | some c ↦ cancel_all rest (emit (aborted c) m)
]

-- What one firing of the timer does with the time stamps: a job with no stamp gets one, and a job
-- whose stamp is more than half the renew time old is stamped and to be extended.
-- `ts + lockRenewTime / 2 < now`, doubled.
unfoldable pub is_due : ℕ → ℕ → ℕ → Bool
is_due renew ts now = ltb (2 * ts + renew) (2 * now)

unfoldable pub stamp : ℕ → ℕ → Tracked → Tracked
unfolding is_due
stamp renew now t =
    if t.ts == 0
    then record t { ts = now }
    else if is_due renew t.ts now
    then record t { ts = now }
    else t

unfoldable pub needs_extension : ℕ → ℕ → Tracked → Bool
unfolding is_due
needs_extension renew now t = if t.ts == 0 then false else is_due renew t.ts now

pub stamp_all : ℕ → ℕ → List (String × Tracked) → List (String × Tracked)
unfolding stamp
stamp_all renew now [] = []
stamp_all renew now ((j, t) ∷ m) = (j, stamp renew now t) ∷ stamp_all renew now m

pub jobs_to_extend : ℕ → ℕ → List (String × Tracked) → List String
unfolding needs_extension
jobs_to_extend renew now [] = []
jobs_to_extend renew now ((j, t) ∷ m) =
    if needs_extension renew now t
    then j ∷ jobs_to_extend renew now m
    else jobs_to_extend renew now m

abbrev token_of : List (String × Tracked) → String → String
token_of m j = elim (get j m) [ none ↦ "" | some t ↦ t.token ]

abbrev pub mem : String → List String → Bool
mem x [] = false
mem x (y ∷ ys) = str_eq y x || mem x ys

-- Reports the jobs whose lock was not renewed, and cancels them.
report_failed : List String → LockManager → LockManager
unfolding cancel_job
report_failed [] m = m
report_failed (j ∷ js) m = report_failed js (cancel_job (emit (renewal_error j) m) j).0

abbrev succeeded : List String → List String → List String
succeeded errored ids = filter_by (λ j. not (mem j errored)) ids

-- `extendJobLocks` answers the errored jobs, or throws.
abbrev ExtendCall : Type 0
ExtendCall = List String → List String → ℕ → Option (List String)

abbrev pub is_empty {ℓ} : {A : Type ℓ} → List A → Bool
is_empty [] = true
is_empty (_ ∷ _) = false

after_extension : List String → List String → LockManager → LockManager
unfolding report_failed
after_extension ids errored m =
    let reported =
      if is_empty errored
      then m
      else report_failed errored (emit (lock_renewal_failed errored) m) in
    let renewed = succeeded errored ids in
    if is_empty renewed then reported else emit (locks_renewed (length renewed) renewed) reported

unfoldable pub extend_locks : ExtendCall → List String → LockManager → LockManager
unfolding after_extension
extend_locks call ids m = elim (call ids (map (token_of m.tracked_jobs) ids) m.opts.lock_duration) [
  | none ↦ emit call_error m
  | some errored ↦ after_extension ids errored m
]

-- One firing of the timer. It is armed again unless the manager is closed.
unfoldable pub on_timer : ExtendCall → ℕ → LockManager → LockManager
unfolding extend_locks stamp_all jobs_to_extend
on_timer call now m =
    let renew = m.opts.lock_renew_time in
    let due = jobs_to_extend renew now m.tracked_jobs in
    let stamped = record m { tracked_jobs = stamp_all renew now m.tracked_jobs } in
    let extended = if is_empty due then stamped else extend_locks call due stamped in
    if extended.closed then extended else record extended { timer = true }
