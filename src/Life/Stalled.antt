-- ===== src/Life/Stalled.antt =====
-- The stalled checker of src/classes/worker/stalled-checker-loop.ts while its worker is paused and closed.
use elephantmq.Base.{
  Bool, [], false, ◌∷◌, true, List, not, ◌&&◌, arith, refl, ◌≡◌, Bool-cases, inr, inl, ◌⊎◌,
}
use elephantmq.Life.{
  loop_begins, loop_leaves, run_ends, happen_all, begin_loop, start_stalled_check_timer, Checker,
  end_run, fail_start, sleep_ends, is_off, end_tick, tick_ends, stop_stalled_check, Life,
  leave_loop, end_pause, start_fails, Happening, pause_ends, happen, pauses, pause, close, closes,
  off, run, slept, runs, ticking, resume, sleeping, resumes,
}

abbrev pub calls_no_close : List Happening → Bool
calls_no_close [] = true
calls_no_close (closes ∷ hs) = false
calls_no_close (h ∷ hs) = calls_no_close hs

abbrev is_close : Happening → Bool
is_close closes = true
is_close _ = false

-- The checker goes on.
abbrev pub checks_on : Life → Bool
checks_on w = not (is_off w.checker) && not w.closing

happen-checks_on :
    (h : Happening) (w : Life)
    → is_close h ≡ false
    → checks_on w ≡ true
    → checks_on (happen h w) ≡ true
unfolding happen run pause end_pause resume close begin_loop fail_start leave_loop end_run end_tick
    stop_stalled_check start_stalled_check_timer slept
happen-checks_on runs w c o = ground arith
happen-checks_on (pauses now) w c o = ground arith
happen-checks_on pause_ends w c o = ground arith
happen-checks_on resumes w c o = ground arith
happen-checks_on closes w c o = ground arith
happen-checks_on loop_begins w c o = ground arith
happen-checks_on start_fails w c o = ground arith
happen-checks_on loop_leaves w c o = ground arith
happen-checks_on run_ends w c o = ground arith
happen-checks_on tick_ends w c o = ground arith
happen-checks_on sleep_ends w c o = ground arith

tail_calls_no_close :
    (h : Happening) (hs : List Happening)
    → calls_no_close (h ∷ hs) ≡ true
    → (is_close h ≡ false) × (calls_no_close hs ≡ true)
tail_calls_no_close runs hs q = (refl, q)
tail_calls_no_close (pauses now) hs q = (refl, q)
tail_calls_no_close pause_ends hs q = (refl, q)
tail_calls_no_close resumes hs q = (refl, q)
tail_calls_no_close closes hs q = ground arith
tail_calls_no_close loop_begins hs q = (refl, q)
tail_calls_no_close start_fails hs q = (refl, q)
tail_calls_no_close loop_leaves hs q = (refl, q)
tail_calls_no_close run_ends hs q = (refl, q)
tail_calls_no_close tick_ends hs q = (refl, q)
tail_calls_no_close sleep_ends hs q = (refl, q)

happen_all-checks_on :
    (hs : List Happening) (w : Life)
    → calls_no_close hs ≡ true
    → checks_on w ≡ true
    → checks_on (happen_all hs w) ≡ true
happen_all-checks_on [] w q o = o
happen_all-checks_on (h ∷ hs) w q o =
    let rest = tail_calls_no_close h hs q in
    happen_all-checks_on hs (happen h w) rest.1 (happen-checks_on h w rest.0 o)

stops : (w : Life) → checks_on w ≡ true → (end_pause w).checker ≡ ticking
unfolding end_pause stop_stalled_check slept
stops w o = ground arith

pauses_on : (w : Life) → checks_on w ≡ true → (w.paused ≡ true) ⊎ ((pause true w).checker ≡ ticking)
unfolding pause end_pause stop_stalled_check slept
pauses_on w o = elim (Bool-cases w.paused) [ inl p ↦ inl p | inr p ↦ inr (ground arith) ]

-- A stalled checker that was started, of a worker that is not closing, goes on whatever happens but a
-- call of close, pauses included; and at any moment the end of a pause, or a pause that does not wait of a
-- worker that is not paused, has it tick.
pub happen_all-pause :
    (w : Life) (hs : List Happening)
    → is_off w.checker ≡ false
    → w.closing ≡ false
    → calls_no_close hs ≡ true
    → (is_off (happen_all hs w).checker ≡ false)
      × ((end_pause (happen_all hs w)).checker ≡ ticking)
      × (((happen_all hs w).paused ≡ true) ⊎ ((pause true (happen_all hs w)).checker ≡ ticking))
unfolding pause end_pause stop_stalled_check slept
happen_all-pause w hs c n q =
    let on = happen_all-checks_on hs w q (ground arith) in
    (ground arith, stops (happen_all hs w) on, pauses_on (happen_all hs w) on)

abbrev pub is_ticking : Checker → Bool
is_ticking off = false
is_ticking ticking = true
is_ticking sleeping = false

-- A worker that is closing and whose checker does not tick.
abbrev pub quit : Life → Bool
quit w = w.closing && not (is_ticking w.checker)

happen-quit : (h : Happening) (w : Life) → quit w ≡ true → quit (happen h w) ≡ true
unfolding happen run pause end_pause resume close begin_loop fail_start leave_loop end_run end_tick
    stop_stalled_check start_stalled_check_timer slept
happen-quit runs w o = ground arith
happen-quit (pauses now) w o = ground arith
happen-quit pause_ends w o = ground arith
happen-quit resumes w o = ground arith
happen-quit closes w o = ground arith
happen-quit loop_begins w o = ground arith
happen-quit start_fails w o = ground arith
happen-quit loop_leaves w o = ground arith
happen-quit run_ends w o = ground arith
happen-quit tick_ends w o = ground arith
happen-quit sleep_ends w o = ground arith

happen_all-quit : (hs : List Happening) (w : Life) → quit w ≡ true → quit (happen_all hs w) ≡ true
happen_all-quit [] w q = q
happen_all-quit (h ∷ hs) w q = happen_all-quit hs (happen h w) (happen-quit h w q)

-- Once close is called, no new tick of the stalled checker begins: where none is under way, none is ever
-- after, whatever is called and whatever ends.
pub happen_all-close :
    (w : Life) (hs : List Happening)
    → w.closing ≡ false
    → is_ticking w.checker ≡ false
    → is_ticking (happen_all hs (close w)).checker ≡ false
unfolding close stop_stalled_check slept
happen_all-close w hs c t = let q = happen_all-quit hs (close w) (ground arith) in ground arith
