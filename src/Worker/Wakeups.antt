-- ===== src/Worker/Wakeups.antt =====
-- The notifications that wake a worker, and the wait for a job (src/classes/worker.ts and
-- src/classes/worker/notification-bootstrap.ts). What is said of the database is a parameter.
use elephantmq.Base.{
  leb, ◌&&◌, ℕ, not, true, Option, ◌||◌, String, ◌++◌, suc, err, ltb, List, ok, if◌then◌else◌,
  false, remove, map, elem, ◌==◌, ◌∷◌, ◌+◌, none, Result, [], some, zero, Bool,
}
use elephantmq.Base.Int.{negsuc, pos}
use elephantmq.Worker.{Worker, Moment, at, emit, infinity, error}
use elephantmq.Worker.Delays.{is_rate_limited, lt_moment, update_delays, get_block_timeout, is_zero}

-- Resolves every waiting call with a value.
unfoldable pub wakeup_job_waiters : Moment → Worker → Worker
wakeup_job_waiters v w = record w {
  pending_job_resolvers = [];
  woken = w.woken ++ map (λ r. (r, v)) w.pending_job_resolvers;
}

abbrev pub is_empty {ℓ} : {A : Type ℓ} → List A → Bool
is_empty [] = true
is_empty (_ ∷ _) = false

unfoldable pub on_queue_marker_notify : Worker → Worker
unfolding wakeup_job_waiters
on_queue_marker_notify w =
    wakeup_job_waiters (at 0)
      (if is_empty w.pending_job_resolvers then record w { pending_marker = true } else w)

-- Aborts the sleep under the current controller: at once, or when the delayed job is due.
unfoldable pub hasten : ℕ → ℕ → Worker → Worker
hasten now due w = elim w.abort_delay_controller [
  | none ↦ w
  | some c ↦
      if due == 0
      then w
      else if leb due now
      then record w { aborted = w.aborted ++ c ∷ [] }
      else if ltb due w.limit_until
      then record w { abort_timers = w.abort_timers ++ (c, due) ∷ [] }
      else w
]

-- The time that the waiting calls are told: the job's, unless the worker waits for an earlier one.
unfoldable pub told_until : ℕ → Moment → Moment
told_until due block_until =
    if not (is_zero block_until) && lt_moment block_until (at due) then block_until else at due

-- Where no call waits the worker keeps the time, if it is the earlier one.
unfoldable pub tell_delayed : ℕ → Worker → Worker
unfolding wakeup_job_waiters told_until
tell_delayed due w =
    let sooner = is_zero w.block_until || lt_moment (at due) w.block_until in
    wakeup_job_waiters (told_until due w.block_until)
      (if is_empty w.pending_job_resolvers && sooner then record w { block_until = at due } else w)

-- The payload is the time at which the delayed job is due, or empty.
unfoldable pub on_queue_delayed_notify : ℕ → Option ℕ → Worker → Worker
unfolding tell_delayed hasten
on_queue_delayed_notify now none w = wakeup_job_waiters (at 0) w
on_queue_delayed_notify now (some due) w = hasten now due (tell_delayed due w)

-- What the probe after the subscription finds: whether a job waits, and when the first delayed job
-- is due, 0 if there is none.
pub record Rows : Type 0 where
  pub has_waiting : Bool
  pub next_ms : ℕ

-- A probe that fails sets the latch.
unfoldable pub bootstrap_markers : ℕ → Option Rows → Worker → Worker
unfolding wakeup_job_waiters
bootstrap_markers now none w = record w { pending_marker = true }
bootstrap_markers now (some rows) w =
    let marked = if rows.has_waiting then record w { pending_marker = true } else w in
    if rows.next_ms == 0
    then marked
    else if leb rows.next_ms now
    then record marked { pending_marker = true }
    else if is_zero w.block_until || lt_moment (at rows.next_ms) w.block_until
    then wakeup_job_waiters (at rows.next_ms) (record marked { block_until = at rows.next_ms })
    else marked

-- The connection: whether it has a notification manager, what its subscriptions throw (an error
-- with its text, and whether it is one of the connection), and what the probe finds.
pub record Notifications : Type 0 where
  pub manager : Bool
  pub throws : Option (String × Bool)
  pub rows : Option Rows

pub ensure_notification_subscriptions : ℕ → Notifications → Worker → Result (String × Bool) Worker
unfolding bootstrap_markers
ensure_notification_subscriptions now db w =
    if w.notification_subscribed || not db.manager then ok w else elim db.throws [
      | some e ↦ err e
      | none ↦ ok (bootstrap_markers now db.rows (record w { notification_subscribed = true }))
    ]

-- How a wait begins: it has its answer, it is parked under a resolver for at most a time, or it
-- sleeps for a time and then has its answer.
pub data Wait : Type 0 where
  answers : Moment → Wait
  parks : ℕ → ℕ → Wait
  sleeps : ℕ → Moment → Wait

abbrev park : ℕ → Worker → Worker × Wait
park timeout w = (
  record w {
    pending_job_resolvers = w.pending_job_resolvers ++ w.next_resolver ∷ [];
    next_resolver = w.next_resolver + 1;
  },
  parks w.next_resolver timeout,
)

-- The handler of an error: it is emitted unless it is one of the connection.
abbrev recover : String × Bool → Worker → Worker × Wait
recover (message, of_connection) w =
    let told = if of_connection then w else emit (error message) w in
    if w.closing then (told, answers infinity) else (told, sleeps 100 infinity)

-- A wait with a timeout that is positive, once the delays are reset and no marker is latched.
abbrev block : ℕ → Notifications → ℕ → Worker → Worker × Wait
block now db timeout w =
    if db.manager
    then elim (ensure_notification_subscriptions now db w) [
      | err e ↦ recover e w
      | ok subscribed ↦ park timeout subscribed
    ]
    else (w, sleeps timeout (at 0))

unfoldable pub wait_for_job : ℕ → Notifications → Moment → Worker → Worker × Wait
unfolding is_rate_limited get_block_timeout update_delays ensure_notification_subscriptions
wait_for_job now db block_until w =
    if w.paused || w.closing || is_rate_limited now w
    then (w, answers infinity)
    else elim (get_block_timeout now w block_until) [
      | negsuc n ↦ (w, answers (at 0))
      | pos zero ↦ (w, answers (at 0))
      | pos (suc timeout) ↦
          let reset = update_delays now (pos 0) (pos 0) w in
          if w.pending_marker
          then (record reset { pending_marker = false }, answers (at 0))
          else block now db (suc timeout) reset
    ]

-- The timer of a parked wait.
pub on_wait_timeout : ℕ → Worker → Worker
on_wait_timeout r w =
    if elem r w.pending_job_resolvers
    then record w {
      pending_job_resolvers = remove r w.pending_job_resolvers;
      woken = w.woken ++ (r, at 0) ∷ [];
    }
    else w
