-- ===== src/Life/Tests.antt =====
-- Workers of src/classes/worker.ts that are run, paused, resumed and closed.
use elephantmq.Base.{refl, [], List, false, ◌≡◌, ◌∷◌, true, ◌⊎◌}
use elephantmq.Life.{
  is_off, Happening, loop_begins, run_ends, happen_all, new_life, begin_loop,
  start_stalled_check_timer, tick_ends, pause_ends, stop_stalled_check, Life, end_run, loop_leaves,
  leave_loop, sleep_ends, end_pause, runs, happen, left, looping, pause, close, pauses, run,
  sleeping, resume, ticking, resumes,
}
use elephantmq.Life.Resumed.{happen_all-resume_lost, at_work, happen_all-resume}
use elephantmq.Life.Stalled.{is_ticking, happen_all-close, happen_all-pause}

-- It runs, and is paused and leaves its main loop.
abbrev before : List Happening
before = runs ∷ loop_begins ∷ pauses false ∷ loop_leaves ∷ run_ends ∷ pause_ends ∷ []

abbrev after : List Happening
after = loop_begins ∷ tick_ends ∷ []

happen_all-resume_example :
    at_work (happen_all after (resume (happen_all before (new_life true false)))) ≡ true
unfolding happen run pause end_pause begin_loop leave_loop end_run stop_stalled_check
    start_stalled_check_timer new_life
happen_all-resume_example = happen_all-resume false before after refl refl refl

-- A worker whose main loop has ended.
abbrev leaving : Life
leaving = record {
  process_fn = true;
  skip_stalled_check = false;
  running = true;
  paused = true;
  closing = false;
  phase = left;
  checker = sleeping;
  events = [];
}

happen_all-resume_lost_example :
    ((happen run_ends (resume leaving)).paused ≡ false)
    × ((happen_all (run_ends ∷ tick_ends ∷ []) (resume leaving)).running ≡ false)
happen_all-resume_lost_example = happen_all-resume_lost leaving (tick_ends ∷ []) refl refl refl refl

-- A worker at its main loop.
abbrev working : Life
working = record leaving { paused = false; phase = looping }

happen_all-pause_example :
    (is_off (happen_all (tick_ends ∷ resumes ∷ []) working).checker ≡ false)
    × ((end_pause (happen_all (tick_ends ∷ resumes ∷ []) working)).checker ≡ ticking)
    × (((happen_all (tick_ends ∷ resumes ∷ []) working).paused ≡ true)
        ⊎ ((pause true (happen_all (tick_ends ∷ resumes ∷ []) working)).checker ≡ ticking))
happen_all-pause_example = happen_all-pause working (tick_ends ∷ resumes ∷ []) refl refl refl

happen_all-close_example :
    is_ticking (happen_all (sleep_ends ∷ tick_ends ∷ []) (close working)).checker ≡ false
happen_all-close_example = happen_all-close working (sleep_ends ∷ tick_ends ∷ []) refl refl
