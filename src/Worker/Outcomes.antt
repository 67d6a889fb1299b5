-- ===== src/Worker/Outcomes.antt =====
-- What fetching and processing leave behind (src/classes/worker.ts).
use elephantmq.Base.{
  String, ◌↔◌, suc, ℕ, List, none, ◌≡◌, inl, ◌≤◌, eq_iff, arith, inr, [], Option, ◌∷◌, ◌⊎◌,
  if◌then◌else◌, some, ◌++◌, ◌+◌, Bool-cases, refl, ◌∙◌, false, true, Bool,
}
use elephantmq.Worker.Fetch.{
  WorkJob, Surroundings, apply_effects, moved_to_active, next_job_from_job_data, drain_active,
  schedule_next, scheduled, drain, named_by, latched,
}
use elephantmq.Worker.Process.{get_unrecoverable_error_message}
use elephantmq.Worker.{Worker, Event, drained, scheduling_error, emit, error}
use elephantmq.Scripts.Keep.{or_else}
use elephantmq.Worker.Retry.{
  Ended, Effect, emits, thrown, returned, delays, undefined, unfinished, retry_if_failed,
}
use elephantmq.Scripts.Lifecycle.{NextJob}
use elephantmq.Worker.Delays.{update_delays, or_default}

-- A job's processor is run exactly if the job has no deferred failure (or an empty one), and was not
-- started more often than the worker's limit allows, where a limit that is not set, or 0, is none.
get_unrecoverable_error_message_iff :
    (w : Worker) (j : WorkJob)
    → (get_unrecoverable_error_message w j ≡ none) ↔ (
        (or_else j.deferred_failure "" ≡ "")
        × ((or_else w.opts.max_started_attempts 0 ≡ 0)
            ⊎ (j.job.attempts_started ≤ or_else w.opts.max_started_attempts 0)))
unfolding get_unrecoverable_error_message
get_unrecoverable_error_message_iff w j = ground (arith, eq_iff (or_else j.deferred_failure "") "")

-- The number of times that a worker emitted that it is drained.
abbrev pub count_drained : List Event → ℕ
count_drained [] = 0
count_drained (drained ∷ es) = suc (count_drained es)
count_drained (_ ∷ es) = count_drained es

count_drained-append :
    (es fs : List Event) → count_drained (es ++ fs) ≡ count_drained es + count_drained fs
count_drained-append [] fs = omega arith
count_drained-append (e ∷ es) fs = ground (arith, count_drained-append es fs)

-- Two workers that differ in the events only, and not in how often they were drained.
abbrev SameDrains : Worker → Worker → Type 0
SameDrains v w = (w.drained ≡ v.drained) × (count_drained w.events ≡ count_drained v.events)

apply_effects-SameDrains :
    (effects : List Effect) (w : Worker) → SameDrains w (apply_effects effects w)
apply_effects-SameDrains [] w = (refl, refl)
apply_effects-SameDrains (emits message ∷ rest) w =
    let (d, c) = apply_effects-SameDrains rest (emit (error message) w) in
    (d, c ∙ count_drained-append w.events (error message ∷ []) ∙ omega arith)
apply_effects-SameDrains (delays n ∷ rest) w = apply_effects-SameDrains rest w

if_SameDrains : (b : Bool) (w v : Worker) → SameDrains w v → SameDrains w (if b then v else w)
if_SameDrains true w v h = h
if_SameDrains false w v h = (refl, refl)

module _ {Row : Type 0} (env : Surroundings Row) where
  scheduled-SameDrains :
      (j : WorkJob) (end : Ended (Unit {0})) (w : Worker) → SameDrains w (scheduled env j end w)
  scheduled-SameDrains j (thrown message) w =
      (refl, count_drained-append w.events (scheduling_error j.name message ∷ []) ∙ omega arith)
  scheduled-SameDrains j (returned a) w = (refl, refl)
  scheduled-SameDrains j undefined w = (refl, refl)
  scheduled-SameDrains j unfinished w = (refl, refl)

  schedule_next-SameDrains :
      (delay : ℕ) (j : WorkJob) (w : Worker) → SameDrains w (schedule_next env delay j w)
  unfolding schedule_next
  schedule_next-SameDrains delay j w = if_SameDrains j.repeats w _ (
      scheduled_after (
        retry_if_failed env.flags (env.schedule j)
          (record { delay_in_ms = delay; max_retries = none; only_emit_error = false }) env.fuel 0))
    where
      scheduled_after :
          (r : List Effect × Ended (Unit {0}))
          → SameDrains w (scheduled env j r.1 (apply_effects r.0 w))
      scheduled_after (effects, end) =
          let (d, c) = scheduled-SameDrains j end (apply_effects effects w) in
          let (d', c') = apply_effects-SameDrains effects w in (d ∙ d', c ∙ c')

  -- The events that a worker has emitted on being drained, and the one to come if it is not.
  abbrev owing : Worker → ℕ
  owing w = count_drained w.events + (if w.drained then 0 else 1)

  abbrev pub one_if : Option Row → ℕ
  one_if none = 0
  one_if (some row) = 1

  drain-owing : (w : Worker) → owing (drain w) ≤ owing w
  unfolding drain
  drain-owing w = elim (Bool-cases w.drained) [
    | inl dry ↦ ground arith
    | inr wet ↦ ground (arith, count_drained-append w.events (drained ∷ []))
  ]

  drain_active-owing : (w : Worker) → owing (drain_active w) ≤ owing w
  unfolding drain_active
  drain_active-owing w = elim (Bool-cases w.drained) [
    | inl dry ↦ ground arith
    | inr wet ↦ ground (arith, count_drained-append w.events (drained ∷ []))
  ]

  next_job-owing :
      (row : Option Row) (id : Option String) (token : String) (w : Worker)
      → owing (next_job_from_job_data env row id token w).0 ≤ owing w + one_if row
  unfolding next_job_from_job_data
  next_job-owing none id token w = omega (arith, drain-owing w)
  next_job-owing (some row) id token w =
      let j = named_by w (record (env.create row id) { token = some token }) in
      let fetched = record w { drained = false; fetched_since_drain = true } in
      let (d, c) = schedule_next-SameDrains (or_default w.opts.run_retry_delay 15000) j fetched in
      rw (d, c) (omega arith)

  latched-owing : (row : Option Row) (w : Worker) → owing (latched env row w) ≤ owing w
  latched-owing none w = drain_active-owing w
  latched-owing (some row) w = omega arith

  abbrev pub answers_all : ℕ → String → List (NextJob Row) → Worker → Worker
  answers_all now token [] w = w
  answers_all now token (next ∷ rest) w =
      answers_all now token rest (moved_to_active env now next token w).0

  -- The number of answers that hold a job.
  abbrev pub count_jobs : List (NextJob Row) → ℕ
  count_jobs [] = 0
  count_jobs (next ∷ rest) = one_if next.job_data + count_jobs rest

  answers_all-owing :
      (now : ℕ) (token : String) (answers : List (NextJob Row)) (w : Worker)
      → owing (answers_all now token answers w) ≤ owing w + count_jobs answers
  unfolding moved_to_active update_delays
  answers_all-owing now token [] w = omega arith
  answers_all-owing now token (next ∷ rest) w =
      let delayed = update_delays now next.rate_limit_delay next.delay_until w in
      let ready = latched env next.job_data delayed in
      omega (
        arith,
        answers_all-owing now token rest (moved_to_active env now next token w).0,
        next_job-owing next.job_data next.id token ready,
        latched-owing next.job_data delayed,
      )

  -- A worker that starts out drained tells so at most once for each job it has fetched since, however
  -- many answers without a job it gets.
  answers_all-count_drained :
      (now : ℕ) (token : String) (answers : List (NextJob Row)) (w : Worker)
      → w.drained ≡ true
      → count_drained (answers_all now token answers w).events
        ≤ count_drained w.events + count_jobs answers
  answers_all-count_drained now token answers w dry =
      let bound = answers_all-owing now token answers w in ground arith
