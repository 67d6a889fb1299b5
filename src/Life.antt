-- ===== src/Life.antt =====
-- How a worker is run, paused, resumed and closed: `run`, `pause`, `resume`, `close` and the stalled
-- checker of src/classes/worker.ts with src/classes/worker/stalled-checker-loop.ts. A call is a function
-- up to its first wait; what goes on behind a wait is a step of its own. Telemetry, the
-- start of the lock manager and the waking of waiting calls are left out.
pub mod Resumed
pub mod Stalled
pub mod Tests
use elephantmq.Base.{◌∷◌, if◌then◌else◌, List, Bool, true, false, not, ◌||◌, ◌&&◌, []}

-- Where `run` stands: not called or ended, before the main loop, in it, and behind it with `running` not
-- reset yet.
pub data Phase : Type 0 where
  idle : Phase
  starting : Phase
  looping : Phase
  left : Phase

-- Where the stalled checker stands.
pub data Checker : Type 0 where
  off : Checker
  ticking : Checker
  sleeping : Checker

pub data Event : Type 0 where
  paused : Event
  resumed : Event
  closing : Event

-- `error` is an error that a call throws.
pub data Answer : Type 0 where
  fine : Answer
  no_process_function : Answer
  already_running : Answer

pub record Life : Type 0 where
  pub process_fn : Bool
  pub skip_stalled_check : Bool
  pub running : Bool
  pub paused : Bool
  pub closing : Bool
  pub phase : Phase
  pub checker : Checker
  pub events : List Event

-- A worker as its constructor leaves it.
unfoldable pub new_life : Bool → Bool → Life
new_life process_fn skip_stalled_check = record {
  process_fn = process_fn;
  skip_stalled_check = skip_stalled_check;
  running = false;
  paused = false;
  closing = false;
  phase = idle;
  checker = off;
  events = [];
}

abbrev pub is_off : Checker → Bool
is_off off = true
is_off ticking = false
is_off sleeping = false

unfoldable pub start_stalled_check_timer : Life → Life
start_stalled_check_timer w =
    if not w.skip_stalled_check && (not w.closing && is_off w.checker)
    then record w { checker = ticking }
    else w

-- `run` up to its first wait.
unfoldable pub run : Life → Answer × Life
unfolding start_stalled_check_timer
run w =
    if not w.process_fn
    then (no_process_function, w)
    else if w.running
    then (already_running, w)
    else if w.closing || w.paused
    then (fine, w)
    else (fine, start_stalled_check_timer (record w { running = true; phase = starting }))

-- A stopper wakes a checker that sleeps. One that ticks has no timer, and the stopper of an earlier sleep
-- does nothing.
unfoldable pub slept : Life → Life
slept w = record w { checker = if w.closing then off else ticking }

unfoldable pub stop_stalled_check : Life → Life
unfolding slept
stop_stalled_check w = elim w.checker [ off ↦ w | ticking ↦ w | sleeping ↦ slept w ]

-- The end of `pause`, behind its wait for the jobs at hand where it waits.
unfoldable pub end_pause : Life → Life
unfolding stop_stalled_check
end_pause w = let s = stop_stalled_check w in record s { events = paused ∷ s.events }

-- `pause` up to its wait. It is done where it does not wait.
unfoldable pub pause : Bool → Life → Life
unfolding end_pause
pause do_not_wait_active w =
    if w.paused
    then w
    else if do_not_wait_active
    then end_pause (record w { paused = true })
    else record w { paused = true }

unfoldable pub resume : Life → Life
unfolding run start_stalled_check_timer
resume w =
    if w.running && not w.paused
    then w
    else let s = record w { paused = false } in
      let t = if not s.running then (run s).1 else start_stalled_check_timer s in
      record t { events = resumed ∷ t.events }

-- `close` up to its first cleanup.
unfoldable pub close : Life → Life
unfolding stop_stalled_check
close w =
    if w.closing
    then w
    else stop_stalled_check (record w { closing = true; events = closing ∷ w.events })

-- What can happen: calls, the waits of `run` that end or fail, the main loop that ends where the worker is
-- paused or closing, and the tick and the sleep of the checker that end.
pub data Happening : Type 0 where
  runs : Happening
  pauses : Bool → Happening
  pause_ends : Happening
  resumes : Happening
  closes : Happening
  loop_begins : Happening
  start_fails : Happening
  loop_leaves : Happening
  run_ends : Happening
  tick_ends : Happening
  sleep_ends : Happening

unfoldable pub begin_loop : Life → Life
begin_loop w = elim w.phase [
  | starting ↦ record w { phase = looping }
  | idle ↦ w
  | looping ↦ w
  | left ↦ w
]

unfoldable pub fail_start : Life → Life
fail_start w = elim w.phase [
  | starting ↦ record w { phase = idle; running = false }
  | idle ↦ w
  | looping ↦ w
  | left ↦ w
]

unfoldable pub leave_loop : Life → Life
leave_loop w = elim w.phase [
  | looping ↦ if w.closing || w.paused then record w { phase = left } else w
  | idle ↦ w
  | starting ↦ w
  | left ↦ w
]

unfoldable pub end_run : Life → Life
end_run w = elim w.phase [
  | left ↦ record w { phase = idle; running = false }
  | idle ↦ w
  | starting ↦ w
  | looping ↦ w
]

unfoldable pub end_tick : Life → Life
end_tick w = elim w.checker [ ticking ↦ record w { checker = sleeping } | off ↦ w | sleeping ↦ w ]

unfoldable pub happen : Happening → Life → Life
unfolding run pause end_pause resume close begin_loop fail_start leave_loop end_run end_tick
    stop_stalled_check
happen runs w = (run w).1
happen (pauses now) w = pause now w
happen pause_ends w = end_pause w
happen resumes w = resume w
happen closes w = close w
happen loop_begins w = begin_loop w
happen start_fails w = fail_start w
happen loop_leaves w = leave_loop w
happen run_ends w = end_run w
happen tick_ends w = end_tick w
happen sleep_ends w = stop_stalled_check w

abbrev pub happen_all : List Happening → Life → Life
happen_all [] w = w
happen_all (h ∷ hs) w = happen_all hs (happen h w)
