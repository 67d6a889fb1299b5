-- ===== src/Job/Atomic.antt =====
-- What an operation of src/classes/job.ts leaves in the object when its script gives a value and
-- when it throws.
use elephantmq.Base.{
  ok, ◌≡◌, Option, err, ℕ, true, false, String, refl, Bool, Option-cases, inr, some, inl,
}
use elephantmq.Base.Int.{negsuc}
use elephantmq.Scripts.Lifecycle.{Reply, Call, Script, move_to_finished, retry_job, move_to_delayed}
use elephantmq.Scripts.Errors.{ScriptError, finished_errors, Subject, finished_errors-code}
use elephantmq.Job.{
  Job, ask, settle, run, script, Outcome, dispatch, should_retry_job, move_to_completed,
  move_to_failed, Failure, update_stacktrace, truthy, keep_or, fields_of, finished, retried,
  delayed_again,
}
use elephantmq.Scripts.Answers.{
  Refuses, move_to_finished_refused, move_to_delayed_refused, retry_job_refused,
}
use elephantmq.Backoffs.{Value, Fraction, Strategy}
use elephantmq.Scripts.Keep.{QueueContext, move_to_completed_args, or_else, move_to_failed_args}

module _ {Row A B : Type 0} (db : Call → Option (Reply Row)) (before : Job) (after : A → Job × B)
    (s : Script Row A) where
  pub run-ask_ok :
      (a : A)
      → s.read (db s.call) ≡ ok a
      → run db (ask before after s) ≡ ((after a).0, ok (after a).1)
  unfolding ask settle
  run-ask_ok a h = rw h

  pub run-ask_err :
      (x : ScriptError)
      → s.read (db s.call) ≡ err x
      → run db (ask before after s) ≡ (before, err (script x))
  unfolding ask settle
  run-ask_err x h = rw h

-- What a failed operation must not have changed: the attempts, the delay and the end of the job.
abbrev pub SameProgress : Job → Job → Type 0
SameProgress j k =
    (k.attempts_made ≡ j.attempts_made) × (k.delay ≡ j.delay) × (k.finished_on ≡ j.finished_on)

module _ {Row : Type 0} (q : QueueContext) (now : ℕ) (db : Call → Option (Reply Row)) (n : ℕ)
    (refuses : (c : Call) → Refuses n (db c)) (j : Job) (token : String) (fetch_next : Bool) where
  -- The outcome of an operation that the database refuses.
  abbrev pub Refused : {A : Type 0} → Job × Outcome A → Type 0
  Refused r =
      SameProgress j r.0 × ((x : ScriptError) × (r.1 ≡ err (script x)) × (x.code ≡ negsuc n))

  ask-Refused :
      {A B : Type 0} (k : Job) (after : A → Job × B) (s : Script Row A) (about : Subject)
      → s.read (db s.call) ≡ err (finished_errors (negsuc n) about)
      → SameProgress j k
      → Refused (run db (ask k after s))
  ask-Refused k after s about h p =
      rw (run-ask_err db k after s _ h) (p, (_, refl, finished_errors-code (negsuc n) about))

  dispatch-Refused :
      (k : Job) (decision : Bool × Value)
      → SameProgress j k
      → Refused (run db (dispatch q now k token fetch_next decision))
  unfolding dispatch
  dispatch-Refused k (false, v) p =
      let args =
        move_to_failed_args q k.id (or_else k.failed_reason "") (keep_or k.opts.remove_on_fail)
          token fetch_next (fields_of k) now in
      let s = move_to_finished {Row = Row} q args in
      ask-Refused k (finished q now k) s _
        (move_to_finished_refused q args n (db s.call) (refuses s.call)) p
  dispatch-Refused k (true, v) p = elim (Option-cases (truthy v)) [
    | inl at_once ↦
        let lifo = or_else k.opts.lifo false in
        let s = retry_job {Row = Row} k.id lifo token (fields_of k) now in
        rw (at_once, dispatch)
          (ask-Refused k (retried q now k) s _
            (retry_job_refused n (db s.call) (refuses s.call) k.id token lifo (fields_of k) now) p)
    | inr (d, later) ↦
        let s = move_to_delayed {Row = Row} q k.id now d token (fields_of k) fetch_next now in
        rw (later, dispatch)
          (ask-Refused k (delayed_again q now d k) s _
            (move_to_delayed_refused n (db s.call) (refuses s.call) q k.id token now d (fields_of k)
              fetch_next now)
            p)
  ]

  -- On a database that refuses every call with a negative code, `moveToCompleted` throws an error
  -- with that code, and leaves the attempts, the delay and the end of the job as they were.
  pub move_to_completed-Refused :
      (json : Option String)
      → Refused (run db (move_to_completed {Row = Row} q now j (some json) token fetch_next))
  unfolding move_to_completed
  move_to_completed-Refused json =
      let args =
        move_to_completed_args q j.id json (keep_or j.opts.remove_on_complete) token fetch_next
          now in
      let s = move_to_finished {Row = Row} q args in
      ask-Refused (record j { returnvalue = json }) _ s _
        (move_to_finished_refused q args n (db s.call) (refuses s.call)) (refl, refl, refl)

  -- So does `moveToFailed`, unless the backoff strategy throws first.
  pub move_to_failed-Refused :
      (random : Fraction) (custom : Option (Strategy Failure Job)) (e : Failure)
      (decision : Bool × Value)
      → should_retry_job random custom (record j { failed_reason = e.message }) e ≡ ok decision
      → Refused (run db (move_to_failed {Row = Row} q now random custom j e token fetch_next))
  unfolding move_to_failed update_stacktrace
  move_to_failed-Refused random custom e decision h =
      rw (h, move_to_failed)
        (dispatch-Refused (update_stacktrace e (record j { failed_reason = e.message })) decision
          (refl, refl, refl))
