-- ===== src/Life/Resumed.antt =====
-- Whether a worker of src/classes/worker.ts runs once it is resumed.
use elephantmq.Base.{Bool, ◌&&◌, arith, true, false, ◌≡◌, not, [], ◌∷◌, List, ◌∙◌, refl}
use elephantmq.Life.{
  loop_leaves, start_stalled_check_timer, Phase, begin_loop, loop_begins, end_run,
  stop_stalled_check, Happening, pause_ends, sleep_ends, leave_loop, end_pause, Life, end_tick,
  tick_ends, start_fails, fail_start, run_ends, happen_all, pauses, happen, resume, idle, run,
  starting, runs, pause, slept, left, looping, resumes, close, closes, new_life,
}

abbrev pub under_way : Phase → Bool
under_way idle = false
under_way starting = true
under_way looping = true
under_way left = false

abbrev pub is_idle : Phase → Bool
is_idle idle = true
is_idle starting = false
is_idle looping = false
is_idle left = false

-- `run` was called and goes on, for a worker that is neither paused nor closing.
unfoldable pub at_work : Life → Bool
at_work w = w.running && (not w.paused && (not w.closing && under_way w.phase))

-- The flag says where `run` stands.
unfoldable pub Sound : Life → Type 0
Sound w = w.running ≡ not (is_idle w.phase)

-- Neither a call of pause or close, nor a failure to start.
abbrev pub is_quiet : Happening → Bool
is_quiet runs = true
is_quiet (pauses now) = false
is_quiet pause_ends = true
is_quiet resumes = true
is_quiet closes = false
is_quiet loop_begins = true
is_quiet start_fails = false
is_quiet loop_leaves = true
is_quiet run_ends = true
is_quiet tick_ends = true
is_quiet sleep_ends = true

happen-Sound : (h : Happening) (w : Life) → Sound w → Sound (happen h w)
unfolding Sound happen run pause end_pause resume close begin_loop fail_start leave_loop end_run
    end_tick stop_stalled_check start_stalled_check_timer slept
happen-Sound runs w s = ground arith
happen-Sound (pauses now) w s = ground arith
happen-Sound pause_ends w s = ground arith
happen-Sound resumes w s = ground arith
happen-Sound closes w s = ground arith
happen-Sound loop_begins w s = ground arith
happen-Sound start_fails w s = ground arith
happen-Sound loop_leaves w s = ground arith
happen-Sound run_ends w s = ground arith
happen-Sound tick_ends w s = ground arith
happen-Sound sleep_ends w s = ground arith

happen_all-Sound : (hs : List Happening) (w : Life) → Sound w → Sound (happen_all hs w)
happen_all-Sound [] w s = s
happen_all-Sound (h ∷ hs) w s = happen_all-Sound hs (happen h w) (happen-Sound h w s)

happen-at_work :
    (h : Happening) (w : Life) → is_quiet h ≡ true → at_work w ≡ true → at_work (happen h w) ≡ true
unfolding at_work happen run end_pause resume begin_loop leave_loop end_run end_tick
    stop_stalled_check start_stalled_check_timer slept
happen-at_work runs w q a = ground arith
happen-at_work (pauses now) w q a = ground arith
happen-at_work pause_ends w q a = ground arith
happen-at_work resumes w q a = ground arith
happen-at_work closes w q a = ground arith
happen-at_work loop_begins w q a = ground arith
happen-at_work start_fails w q a = ground arith
happen-at_work loop_leaves w q a = ground arith
happen-at_work run_ends w q a = ground arith
happen-at_work tick_ends w q a = ground arith
happen-at_work sleep_ends w q a = ground arith

abbrev pub all_quiet : List Happening → Bool
all_quiet [] = true
all_quiet (h ∷ hs) = is_quiet h && all_quiet hs

happen_all-at_work :
    (hs : List Happening) (w : Life)
    → all_quiet hs ≡ true
    → at_work w ≡ true
    → at_work (happen_all hs w) ≡ true
happen_all-at_work [] w q a = a
happen_all-at_work (h ∷ hs) w q a =
    happen_all-at_work hs (happen h w) (ground arith) (happen-at_work h w (ground arith) a)

abbrev pub is_left : Phase → Bool
is_left idle = false
is_left starting = false
is_left looping = false
is_left left = true

resume-at_work :
    (w : Life)
    → Sound w
    → w.process_fn ≡ true
    → w.closing ≡ false
    → is_left w.phase ≡ false
    → at_work (resume w) ≡ true
unfolding at_work Sound resume run start_stalled_check_timer
resume-at_work w s p c l = ground arith

happen-process_fn : (h : Happening) (w : Life) → (happen h w).process_fn ≡ w.process_fn
unfolding happen run pause end_pause resume close begin_loop fail_start leave_loop end_run end_tick
    stop_stalled_check start_stalled_check_timer slept
happen-process_fn runs w = ground arith
happen-process_fn (pauses now) w = ground arith
happen-process_fn pause_ends w = ground arith
happen-process_fn resumes w = ground arith
happen-process_fn closes w = ground arith
happen-process_fn loop_begins w = ground arith
happen-process_fn start_fails w = ground arith
happen-process_fn loop_leaves w = ground arith
happen-process_fn run_ends w = ground arith
happen-process_fn tick_ends w = ground arith
happen-process_fn sleep_ends w = ground arith

happen_all-process_fn :
    (hs : List Happening) (w : Life) → (happen_all hs w).process_fn ≡ w.process_fn
happen_all-process_fn [] w = refl
happen_all-process_fn (h ∷ hs) w = happen_all-process_fn hs (happen h w) ∙ happen-process_fn h w

new_life-Sound : (p s : Bool) → Sound (new_life p s)
unfolding Sound new_life
new_life-Sound p s = refl

-- A worker with a process function that is not closing is resumed after anything that happened, but for
-- the moment between the end of its main loop and the end of `run`. Then it runs unpaused, and goes on
-- so whatever happens but a call of pause or close, or a failure to start.
pub happen_all-resume :
    (skip : Bool) (before after : List Happening)
    → (happen_all before (new_life true skip)).closing ≡ false
    → is_left (happen_all before (new_life true skip)).phase ≡ false
    → all_quiet after ≡ true
    → at_work (happen_all after (resume (happen_all before (new_life true skip)))) ≡ true
unfolding new_life
happen_all-resume skip before after c l q =
    let w = happen_all before (new_life true skip) in
    happen_all-at_work after (resume w) q (
      resume-at_work w (happen_all-Sound before (new_life true skip) (new_life-Sound true skip))
        (happen_all-process_fn before (new_life true skip)) c l)

-- Neither `run` nor `resume` is called.
abbrev pub calls_no_run : List Happening → Bool
calls_no_run [] = true
calls_no_run (runs ∷ hs) = false
calls_no_run (resumes ∷ hs) = false
calls_no_run (h ∷ hs) = calls_no_run hs

-- Not running and not waiting for anything that would make it run.
abbrev pub is_dead : Life → Bool
is_dead w = not w.running && is_idle w.phase

happen_all-is_dead :
    (hs : List Happening) (w : Life)
    → calls_no_run hs ≡ true
    → is_dead w ≡ true
    → is_dead (happen_all hs w) ≡ true
unfolding happen pause end_pause close begin_loop fail_start leave_loop end_run end_tick
    stop_stalled_check slept
happen_all-is_dead [] w q d = d
happen_all-is_dead (runs ∷ hs) w q d = ground arith
happen_all-is_dead (resumes ∷ hs) w q d = ground arith
happen_all-is_dead (pauses now ∷ hs) w q d =
    happen_all-is_dead hs (happen (pauses now) w) q (ground arith)
happen_all-is_dead (pause_ends ∷ hs) w q d =
    happen_all-is_dead hs (happen pause_ends w) q (ground arith)
happen_all-is_dead (closes ∷ hs) w q d = happen_all-is_dead hs (happen closes w) q (ground arith)
happen_all-is_dead (loop_begins ∷ hs) w q d =
    happen_all-is_dead hs (happen loop_begins w) q (ground arith)
happen_all-is_dead (start_fails ∷ hs) w q d =
    happen_all-is_dead hs (happen start_fails w) q (ground arith)
happen_all-is_dead (loop_leaves ∷ hs) w q d =
    happen_all-is_dead hs (happen loop_leaves w) q (ground arith)
happen_all-is_dead (run_ends ∷ hs) w q d =
    happen_all-is_dead hs (happen run_ends w) q (ground arith)
happen_all-is_dead (tick_ends ∷ hs) w q d =
    happen_all-is_dead hs (happen tick_ends w) q (ground arith)
happen_all-is_dead (sleep_ends ∷ hs) w q d =
    happen_all-is_dead hs (happen sleep_ends w) q (ground arith)

-- A paused worker that is resumed between the end of its main loop and the end of `run` is not paused
-- any more, and from the end of `run` on it does not run until `run` or `resume` is called again.
pub happen_all-resume_lost :
    (w : Life) (hs : List Happening)
    → w.running ≡ true
    → w.paused ≡ true
    → w.phase ≡ left
    → calls_no_run hs ≡ true
    → ((happen run_ends (resume w)).paused ≡ false)
      × ((happen_all (run_ends ∷ hs) (resume w)).running ≡ false)
unfolding happen end_run resume start_stalled_check_timer
happen_all-resume_lost w hs r p l q = (
  ground arith,
  (let dead = happen_all-is_dead hs (happen run_ends (resume w)) q (ground arith) in ground arith),
)
