-- ===== src/Job/Retries.antt =====
-- When a failed job is tried again (src/classes/job.ts, `shouldRetryJob` and `moveToFailed`).
use elephantmq.Base.{
  Option, ◌≡◌, ok, true, ◌↔◌, ◌+◌, ◌<◌, false, ◌≢◌, arith, Bool, String, ℕ, ◌≤◌, none, refl, ◌∷◌,
  suc, List, zero, [], ◌++◌, ◌∙◌, replicate, ap,
}
use elephantmq.Base.Int.{negsuc, pos, ℤ}
use elephantmq.Backoffs.{Fraction, Strategy, Value, calculate, undefined, number, nan}
use elephantmq.Job.{
  Failure, Job, should_retry_job, move_to_failed, Operation, stopped, dispatch, asks, ask, run,
  retried, fields_of, update_stacktrace, delayed_again, JobOptions,
}
use elephantmq.Scripts.Lifecycle.{
  NextJob, Reply, Call, retry_job, finish, move_to_finished, move_to_delayed, Script,
}
use elephantmq.Scripts.Keep.{QueueContext, or_else}
use elephantmq.Scripts.Answers.{retry_job_accepted, Accepts, move_to_delayed_accepted}
use elephantmq.Backoffs.Bounds.{calculate-no_backoff}
use elephantmq.Job.Atomic.{run-ask_ok}

module _ (random : Fraction) (custom : Option (Strategy Failure Job)) (j : Job) (e : Failure) where
  -- A failed job is tried again with the delay v exactly if an attempt is left, the error is not
  -- unrecoverable, and the backoff gives the value v, which is neither undefined nor -1.
  pub should_retry_job_iff :
      (v : Value)
      → (should_retry_job random custom j e ≡ ok (true, v)) ↔ (
          (j.attempts_made + 1 < j.opts.attempts)
          × (e.unrecoverable ≡ false)
          × (calculate random j.opts.backoff (j.attempts_made + 1) e j custom ≡ ok v)
          × (v ≢ undefined)
          × (v ≢ number (negsuc 0)))
  unfolding should_retry_job
  should_retry_job_iff v = ground arith

  -- A job with no backoff option is never tried again, whatever number of attempts it was given.
  should_retry_job-no_backoff :
      j.opts.backoff ≡ none → should_retry_job random custom j e ≡ ok (false, number (pos 0))
  unfolding should_retry_job
  should_retry_job-no_backoff h =
      ground (arith, calculate-no_backoff random j.opts.backoff (j.attempts_made + 1) e j custom h)

  should_retry_job-last :
      j.opts.attempts ≤ j.attempts_made + 1
      → should_retry_job random custom j e ≡ ok (false, number (pos 0))
  unfolding should_retry_job
  should_retry_job-last h = ground arith

abbrev is_finish : Call → Bool
is_finish (finish _ _ _ _ _) = true
is_finish _ = false

-- Whether an operation asks the database to finish the job.
abbrev pub finishes : {Row A : Type 0} → Operation Row A → Bool
finishes (stopped _ _) = false
finishes (asks c _) = is_finish c

-- The object with the reason of its failure.
abbrev named : Failure → Job → Job
named e j = record j { failed_reason = e.message }

module _ (Row : Type 0) (q : QueueContext) (now : ℕ) (random : Fraction)
    (custom : Option (Strategy Failure Job)) (e : Failure) (token : String)
    (fetch_next : Bool) where
  abbrev fail : Job → Operation Row (Option (NextJob Row))
  fail j = move_to_failed q now random custom j e token fetch_next

  move_to_failed-finishes :
      (j : Job) (v : Value)
      → should_retry_job random custom (named e j) e ≡ ok (false, v)
      → finishes (fail j) ≡ true
  unfolding move_to_failed dispatch ask move_to_finished
  move_to_failed-finishes j v h = rw (h, move_to_failed)

  -- A job with no backoff option is finished at its first failure, whatever number of attempts it
  -- was given and whatever the failure.
  move_to_failed-no_backoff : (j : Job) → j.opts.backoff ≡ none → finishes (fail j) ≡ true
  move_to_failed-no_backoff j h =
      move_to_failed-finishes j _ (should_retry_job-no_backoff random custom (named e j) e h)

  -- The last attempt finishes the job.
  move_to_failed-last : (j : Job) → j.opts.attempts ≤ j.attempts_made + 1 → finishes (fail j) ≡ true
  move_to_failed-last j h =
      move_to_failed-finishes j _ (should_retry_job-last random custom (named e j) e h)

  module _ (db : Call → Option (Reply Row)) (accepts : (c : Call) → Accepts (db c)) where
    -- The state after a failure that is tried again: one attempt more, under the same options.
    abbrev Counts : Job → Operation Row (Option (NextJob Row)) → Type 0
    Counts j op =
        ((run db op).0.attempts_made ≡ j.attempts_made + 1)
        × ((run db op).0.opts ≡ j.opts)
        × (finishes op ≡ false)

    retry-Counts :
        {A : Type 0} (j : Job) (after : A → Job × Option (NextJob Row)) (s : Script Row A) (a : A)
        → s.read (db s.call) ≡ ok a
        → is_finish s.call ≡ false
        → (after a).0.attempts_made ≡ j.attempts_made + 1
        → (after a).0.opts ≡ j.opts
        → Counts j (ask j after s)
    retry-Counts j after s a h f made opts =
        rw (run-ask_ok db j after s a h) (made, opts, ask_finishes)
      where
        ask_finishes : finishes (ask j after s) ≡ false
        ask_finishes = unfold ask in f

    retry_now :
        (j : Job)
        → Counts j (
            ask j
              (retried q now j)
              (retry_job j.id (or_else j.opts.lifo false) token (fields_of j) now))
    unfolding retried retry_job
    retry_now j =
        retry-Counts j _ _ tt
          (retry_job_accepted _ (accepts _) j.id token (or_else j.opts.lifo false) (fields_of j)
            now)
          refl refl refl

    retry_later :
        (j : Job) (d : ℤ)
        → Counts j (
            ask j
              (delayed_again q now d j)
              (move_to_delayed q j.id now d token (fields_of j) fetch_next now))
    unfolding delayed_again move_to_delayed
    retry_later j d =
        retry-Counts j _ _ _
          (move_to_delayed_accepted _ (accepts _) q j.id token now d (fields_of j) fetch_next now)
          refl refl refl

    dispatch-Counts : (j : Job) (v : Value) → Counts j (dispatch q now j token fetch_next (true, v))
    unfolding dispatch
    dispatch-Counts j undefined = retry_now j
    dispatch-Counts j nan = retry_now j
    dispatch-Counts j (number (pos zero)) = retry_now j
    dispatch-Counts j (number (pos (suc n))) = retry_later j (pos (suc n))
    dispatch-Counts j (number (negsuc n)) = retry_later j (negsuc n)

    move_to_failed-Counts :
        (j : Job) (v : Value)
        → should_retry_job random custom (named e j) e ≡ ok (true, v)
        → Counts j (fail j)
    unfolding move_to_failed update_stacktrace
    move_to_failed-Counts j v h =
        rw (h, move_to_failed) (dispatch-Counts (update_stacktrace e (named e j)) v)

    -- Whether each of n failures in a row is the last one.
    pub failures : ℕ → Job → List Bool
    failures zero j = []
    failures (suc n) j = finishes (fail j) ∷ failures n (run db (fail j)).0

    retried-Counts :
        (opts : JobOptions)
        → ((j : Job)
            → j.opts ≡ opts
            → (v : Value) × (calculate random j.opts.backoff (j.attempts_made + 1) e j custom
                ≡ ok v)
              × (v ≢ undefined)
              × (v ≢ number (negsuc 0)))
        → e.unrecoverable ≡ false
        → (j : Job) → j.opts ≡ opts
        → j.attempts_made + 1 < j.opts.attempts
        → Counts j (fail j)
    retried-Counts opts gives u j o left =
        let (v, c, p, m) = gives (named e j) o in
        move_to_failed-Counts j v
          ((should_retry_job_iff random custom (named e j) e v).1 (left, u, c, p, m))

    -- A job with n + 1 attempts left, whose backoff always gives a delay (neither undefined nor
    -- -1) and whose failures are not unrecoverable, is tried again after each of the next n
    -- failures and finished by the one after them, on a database that accepts every call.
    pub failures_all :
        (opts : JobOptions)
        → ((j : Job)
            → j.opts ≡ opts
            → (v : Value) × (calculate random j.opts.backoff (j.attempts_made + 1) e j custom
                ≡ ok v)
              × (v ≢ undefined)
              × (v ≢ number (negsuc 0)))
        → e.unrecoverable ≡ false
        → (n : ℕ) (j : Job) → j.opts ≡ opts
        → j.attempts_made + n + 1 ≡ opts.attempts
        → failures (suc n) j ≡ replicate n false ++ true ∷ []
    unfolding failures
    failures_all opts gives u zero j o h =
        ap (λ b. b ∷ []) (move_to_failed-last j (omega (arith, ap (λ x. x.attempts) o)))
    failures_all opts gives u (suc n) j o h =
        let (made, same, again) =
          retried-Counts opts gives u j o (omega (arith, ap (λ x. x.attempts) o)) in
        rw again (
          ap (◌∷◌ false)
            (failures_all opts gives u n (run db (fail j)).0 (same ∙ o) (omega (arith, made))))
