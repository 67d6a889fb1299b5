-- ===== src/Worker/Delays.antt =====
-- The delays and timeouts of a worker (src/classes/worker.ts).
use elephantmq.Base.{
  ℕ, Bool, ◌∷◌, ◌-◌, none, leb, ◌+◌, some, ltb, Option, ◌==◌, ◌*◌, min, true, max, if◌then◌else◌,
  false, ◌++◌, [],
}
use elephantmq.Base.Int.{pos, ℤ, sub_ℕ, negsuc}
use elephantmq.Worker.{Worker, Moment, at, infinity}

abbrev pub lt_moment : Moment → Moment → Bool
lt_moment (at a) (at b) = ltb a b
lt_moment (at a) infinity = true
lt_moment infinity m = false

-- Whether a moment is falsy.
abbrev pub is_zero : Moment → Bool
is_zero (at n) = n == 0
is_zero infinity = false

abbrev pub or_default : Option ℕ → ℕ → ℕ
or_default none d = d
or_default (some n) d = n

-- `Math.max(delay, 0)`
abbrev pub clamp : ℤ → ℕ
clamp (pos n) = n
clamp (negsuc n) = 0

unfoldable pub is_rate_limited : ℕ → Worker → Bool
is_rate_limited now w = ltb now w.limit_until

abbrev pub minimum_block_timeout : ℕ
minimum_block_timeout = 1

abbrev pub maximum_block_timeout : ℕ
maximum_block_timeout = 10000

-- What is given back for a moment that is past is no timeout, and not positive.
unfoldable pub get_block_timeout : ℕ → Worker → Moment → ℤ
get_block_timeout now w infinity = pos maximum_block_timeout
get_block_timeout now w (at t) =
    if t == 0
    then pos (max (or_default w.opts.drain_delay 5000) minimum_block_timeout)
    else if leb t now
    then sub_ℕ (1000 * t) (1000 * now)
    else if ltb (t - now) minimum_block_timeout
    then pos minimum_block_timeout
    else pos (min (t - now) maximum_block_timeout)

unfoldable pub get_rate_limit_delay : Worker → ℕ → ℕ
get_rate_limit_delay w delay = min delay (or_default w.opts.maximum_rate_limit_delay 30000)

unfoldable pub update_delays : ℕ → ℤ → ℤ → Worker → Worker
update_delays now limit_delay delay_until w = record w {
  limit_until = if ltb 0 (clamp limit_delay) then now + clamp limit_delay else 0;
  block_until = at (clamp delay_until);
}

-- `waitForWorkerRateLimit` (src/classes/worker/rate-limit-wait.ts): the time to sleep, under a new
-- controller, and what the worker does when the sleep is over.
pub sleep_for_rate_limit : ℕ → Worker → Worker × Option ℕ
unfolding get_rate_limit_delay
sleep_for_rate_limit now w =
    if ltb now w.limit_until
    then (
      record w {
        aborted = elim w.abort_delay_controller [ none ↦ w.aborted | some c ↦ w.aborted ++ c ∷ [] ];
        abort_delay_controller = some w.next_resolver;
        next_resolver = w.next_resolver + 1;
      },
      some (get_rate_limit_delay w (w.limit_until - now)),
    )
    else (w, none)

pub slept_for_rate_limit : Worker → Worker
slept_for_rate_limit w = record w { drained = false; limit_until = 0 }
