-- ===== src/Worker/Waiting.antt =====
-- How long a worker waits, and what wakes it (src/classes/worker.ts).
use elephantmq.Base.{
  ◌≡◌, false, some, map, min, ℕ, ◌++◌, arith, ◌≤◌, ◌+◌, ◌<◌, ◌-◌, [], true, refl, suc, zero, ◌∙◌,
}
use elephantmq.Base.Int.{pos, ℤ, negsuc}
use elephantmq.Worker.Delays.{lt_moment, get_block_timeout, is_rate_limited, clamp}
use elephantmq.Worker.{Worker, Moment, at, infinity}
use elephantmq.Worker.Wakeups.{
  Notifications, on_queue_marker_notify, wait_for_job, on_queue_delayed_notify, answers,
  wakeup_job_waiters, hasten, tell_delayed, told_until,
}

-- A wait for a moment that lies ahead is at least a millisecond, at most ten seconds, and does not go
-- past the moment; for one that is past there is no wait.
get_block_timeout_bounds :
    (now t : ℕ) (w : Worker)
    → 0 < t
    → (now < t
        → (k : ℕ) × (get_block_timeout now w (at t) ≡ pos k)
          × (0 < k)
          × (k ≤ 10000)
          × (now + k ≤ t))
      × (t ≤ now → clamp (get_block_timeout now w (at t)) ≡ 0)
unfolding get_block_timeout
get_block_timeout_bounds now t w p = (
  λ ahead. (min (t - now) 10000, ground arith, omega arith, omega arith, omega arith),
  λ past. ground arith,
)

-- A wait of a worker with a latched marker, for each timeout.
module _ (now : ℕ) (db : Notifications) (b : Moment) (w : Worker) (p : w.paused ≡ false)
    (c : w.closing ≡ false) (l : is_rate_limited now w ≡ false) (m : w.pending_marker ≡ true) where
  timeout-answers :
      (k : ℤ) → get_block_timeout now w b ≡ k → (wait_for_job now db b w).1 ≡ answers (at 0)
  unfolding wait_for_job
  timeout-answers (negsuc n) e = rw (p, c, l, e, wait_for_job)
  timeout-answers (pos zero) e = rw (p, c, l, e, wait_for_job)
  timeout-answers (pos (suc n)) e = rw (p, c, l, e, m, wait_for_job)

  marked-answers : (wait_for_job now db b w).1 ≡ answers (at 0)
  marked-answers = timeout-answers _ refl

-- No marker is lost: the notification wakes every wait that is parked with 0, and leaves none parked;
-- and where none was parked, the next wait of a worker that is neither paused, closing nor rate limited
-- has its answer 0 at once.
pub on_queue_marker_notify-wakes :
    (now : ℕ) (db : Notifications) (b : Moment) (w : Worker)
    → w.paused ≡ false
    → w.closing ≡ false
    → is_rate_limited now w ≡ false
    → let told = on_queue_marker_notify w in
      (told.pending_job_resolvers ≡ [])
      × (told.woken ≡ w.woken ++ map (λ r. (r, at 0)) w.pending_job_resolvers)
      × (w.pending_job_resolvers ≡ [] → (wait_for_job now db b told).1 ≡ answers (at 0))
unfolding on_queue_marker_notify wakeup_job_waiters is_rate_limited
on_queue_marker_notify-wakes now db b w p c l = (
  refl,
  ground arith,
  λ e.
      marked-answers now db b (on_queue_marker_notify w) (ground arith) (ground arith)
        (ground arith) (ground arith),
)

-- A sleep that is cut short changes no wait.
hasten-woken : (now due : ℕ) (w : Worker) → (hasten now due w).woken ≡ w.woken
unfolding hasten
hasten-woken now due w = ground arith

hasten-block_until : (now due : ℕ) (w : Worker) → (hasten now due w).block_until ≡ w.block_until
unfolding hasten
hasten-block_until now due w = ground arith

tell_delayed-woken :
    (due : ℕ) (w : Worker)
    → (tell_delayed due w).woken
      ≡ w.woken ++ map (λ r. (r, told_until due w.block_until)) w.pending_job_resolvers
unfolding tell_delayed wakeup_job_waiters
tell_delayed-woken due w = ground arith

tell_delayed-block_until :
    (due : ℕ) (w : Worker)
    → w.pending_job_resolvers ≡ []
    → lt_moment (at due) (tell_delayed due w).block_until ≡ false
unfolding tell_delayed wakeup_job_waiters
tell_delayed-block_until due w e = ground arith

told_until-sooner : (due : ℕ) (b : Moment) → lt_moment (at due) (told_until due b) ≡ false
unfolding told_until
told_until-sooner due (at n) = ground arith
told_until-sooner due infinity = ground arith

-- After the notification of a delayed job no wait is answered with a later time, and where none is
-- parked the worker itself will not wait beyond that time.
on_queue_delayed_notify-sooner :
    (now due : ℕ) (w : Worker)
    → let told = on_queue_delayed_notify now (some due) w in
      ((v : Moment) × (told.woken ≡ w.woken ++ map (λ r. (r, v)) w.pending_job_resolvers)
        × (lt_moment (at due) v ≡ false))
      × (w.pending_job_resolvers ≡ [] → lt_moment (at due) told.block_until ≡ false)
unfolding on_queue_delayed_notify
on_queue_delayed_notify-sooner now due w = (
  (
    told_until due w.block_until,
    hasten-woken now due (tell_delayed due w) ∙ tell_delayed-woken due w,
    told_until-sooner due w.block_until,
  ),
  λ e. rw (hasten-block_until now due (tell_delayed due w)) (tell_delayed-block_until due w e),
)
